-- ===== src/Node/BlockSync/Accounts.antt =====
-- The bytes that are accounted for the queue.
use hornet.Common.{
  ◌-◌, ◌%◌, ◌^◌, ℕ, ◌+◌, ◌-◌, ◌≡◌, refl, sym, ap, ◌∙◌, List, [], ◌∷◌, ◌++◌, Bytes, Option, none,
  some, Bool, true, false, not, ◌&&◌, ◌==◌, bytes_eq, if◌then◌else◌, arith, if_split, option_split,
}
use mathlib.Core.Path.{subst}
use hornet.Data.ChainTree.{Iterator}
use hornet.Node.BlockSync.{
  Item, BlockSync, Chains, Event, RequestState, request_next_block, queued, failed, on_block,
  has_height, without_peer, handle_error, validate_item, finish_item, process_item, process,
}
use hornet.Protocol.Block.{Block}
use hornet.Protocol.Header.{compute_hash}
use hornet.Protocol.Transaction.{Hash}

-- The 32 bits of a sum and of a difference.
wrap_add : (q m n : ℕ) → q ≡ m % 2 ^ 32 → (q + n) % 2 ^ 32 ≡ (m + n) % 2 ^ 32
wrap_add q m n e = omega (arith, e)

wrap_sub : (q n m : ℕ) → q ≡ (n + m) % 2 ^ 32 → (q + (2 ^ 32 - n % 2 ^ 32)) % 2 ^ 32 ≡ m % 2 ^ 32
wrap_sub q n m e = omega (arith, e)

-- A request leaves the queue and its bytes.
request-keeps :
    (c : Chains) (peer : ℕ) (alive : Bool) (s : BlockSync) (state : RequestState)
    (events : List Event) (s' : BlockSync)
    → request_next_block c peer alive s ≡ some (state, events, s')
    → (s'.queue ≡ s.queue) × (s'.queue_bytes ≡ s.queue_bytes)
unfolding request_next_block
request-keeps c peer alive s state events s' e = ground arith

module _ (size_in_bytes : Item → ℕ) where
  -- The bytes of the items, and of those of one peer.
  abbrev pub total : List Item → ℕ
  total [] = 0
  total (i ∷ items) = size_in_bytes i + total items

  abbrev pub total_of_peer : ℕ → List Item → ℕ
  total_of_peer peer [] = 0
  total_of_peer peer (i ∷ items) =
      (if i.peer == peer then size_in_bytes i else 0) + total_of_peer peer items

  abbrev pub IsAccounted : BlockSync → Type 0
  IsAccounted s = s.queue_bytes ≡ total s.queue % 2 ^ 32

  total-append : (items more : List Item) → total (items ++ more) ≡ total items + total more
  total-append [] more = omega arith
  total-append (i ∷ items) more = omega (arith, total-append items more)

  total-without_peer :
      (peer : ℕ) (items : List Item)
      → total (without_peer peer items) + total_of_peer peer items ≡ total items
  unfolding without_peer
  total-without_peer peer [] = refl
  total-without_peer peer (i ∷ items) = ground (arith, total-without_peer peer items)

  -- A request changes nothing of the accounts.
  request-IsAccounted :
      (c : Chains) (peer : ℕ) (alive : Bool) (s : BlockSync) (state : RequestState)
      (events : List Event) (s' : BlockSync)
      → IsAccounted s
      → request_next_block c peer alive s ≡ some (state, events, s')
      → IsAccounted s'
  request-IsAccounted c peer alive s state events s' a e =
      let kept = request-keeps c peer alive s state events s' e in
      kept.1 ∙ a ∙ sym (ap (λ q. total q % 2 ^ 32) kept.0)

  queued-IsAccounted :
      (peer : ℕ) (block : Block) (s : BlockSync)
      → IsAccounted s
      → IsAccounted (queued size_in_bytes peer block s)
  queued-IsAccounted peer block s a =
      let item : Item = record { peer = peer; id = s.request; block = block } in
      wrap_add s.queue_bytes (total s.queue) (size_in_bytes item) a
      ∙ ap (λ n. n % 2 ^ 32) (omega (arith, total-append s.queue (item ∷ [])))

  -- A block that arrives, for whatever reason and from whatever peer, leaves the queue's bytes those of
  -- its items, modulo 2 ^ 32 as the counter wraps.
  pub on_block-IsAccounted :
      (double_sha256 : Bytes → Hash) (c : Chains) (peer : ℕ) (alive : Bool) (block : Block)
      (s : BlockSync) (events : List Event) (s' : BlockSync)
      → IsAccounted s
      → on_block size_in_bytes double_sha256 c peer alive block s ≡ some (events, s')
      → IsAccounted s'
  unfolding on_block
  on_block-IsAccounted double_sha256 c peer alive block s events s' a =
      if_split Keeps (not (s.request_active && has_height s.request)) (some ([], s)) _
        (λ _ e. unchanged e)
        (λ _.
          if_split Keeps (not (bytes_eq (compute_hash double_sha256 block.header) s.request.hash))
            (some (failed peer ∷ [], s)) _ (λ _ e. unchanged e)
            (λ _.
              option_split Keeps
                (request_next_block c peer alive (queued size_in_bytes peer block s)) none _
                (λ e. grind (arith, e)) answered))
    where
      Keeps : Option (List Event × BlockSync) → Type 0
      Keeps r = r ≡ some (events, s') → IsAccounted s'

      unchanged : {started : List Event} → Keeps (some (started, s))
      unchanged e = let same : s ≡ s' = grind (arith, e) in subst IsAccounted same a

      answered :
          (r : RequestState × List Event × BlockSync)
          → request_next_block c peer alive (queued size_in_bytes peer block s) ≡ some r
          → Keeps (some (r.1, r.2))
      answered (state, ev, t) h e =
          let same : t ≡ s' = grind (arith, e) in
          subst IsAccounted same (
            request-IsAccounted c peer alive (queued size_in_bytes peer block s) state ev t
              (queued-IsAccounted peer block s a) h)

  module _ (is_structural : Block → Bool) (is_contextual : Block → Iterator → Bool) where
    finish-valid :
        (c : Chains) (item : Item) (state : RequestState) (before events : List Event)
        (s : BlockSync) (c' : Chains) (s' : BlockSync)
        → validate_item is_structural is_contextual c item ≡ some true
        → finish_item size_in_bytes is_structural is_contextual c item state before s
          ≡ some (events, c', s')
        → s ≡ s'
    unfolding finish_item
    finish-valid c item state before events s c' s' v e = grind (arith, v, e)

    finish-invalid :
        (c : Chains) (item : Item) (state : RequestState) (before events : List Event)
        (s : BlockSync) (c' : Chains) (s' : BlockSync)
        → validate_item is_structural is_contextual c item ≡ some false
        → finish_item size_in_bytes is_structural is_contextual c item state before s
          ≡ some (events, c', s')
        → handle_error item s ≡ s'
    unfolding finish_item
    finish-invalid c item state before events s c' s' v e = grind (arith, v, e)

    -- What the bytes of the queue are after a round for the item in front.
    abbrev IsSettled : Chains → Item → List Item → BlockSync → Type 0
    IsSettled c item items s' =
        (validate_item is_structural is_contextual c item ≡ some true → IsAccounted s')
        × (validate_item is_structural is_contextual c item ≡ some false
            → s'.queue_bytes ≡ (total s'.queue + total_of_peer item.peer items) % 2 ^ 32)

    finish_item-IsSettled :
        (c : Chains) (item : Item) (state : RequestState) (before events : List Event)
        (s : BlockSync) (c' : Chains) (s' : BlockSync)
        → IsAccounted s
        → finish_item size_in_bytes is_structural is_contextual c item state before s
          ≡ some (events, c', s')
        → IsSettled c item s.queue s'
    unfolding handle_error
    finish_item-IsSettled c item state before events s c' s' a e = (
      λ v. subst IsAccounted (finish-valid c item state before events s c' s' v e) a,
      λ v.
          subst (λ t. t.queue_bytes ≡ (total t.queue + total_of_peer item.peer s.queue) % 2 ^ 32)
            (finish-invalid c item state before events s c' s' v e)
            (a ∙ ap (λ n. n % 2 ^ 32) (sym (total-without_peer item.peer s.queue))),
    )

    process_item-IsSettled :
        (c : Chains) (alive : Bool) (item : Item) (s : BlockSync) (events : List Event)
        (c' : Chains) (s' : BlockSync)
        → s.queue_bytes ≡ (size_in_bytes item + total s.queue) % 2 ^ 32
        → process_item size_in_bytes is_structural is_contextual c alive item s
          ≡ some (events, c', s')
        → IsSettled c item s.queue s'
    unfolding process_item
    process_item-IsSettled c alive item s events c' s' a =
        option_split (λ r. r ≡ some (events, c', s') → IsSettled c item s.queue s')
          (request_next_block c item.peer alive popped) none _ (λ e. grind (arith, e)) finished
      where
        popped : BlockSync
        popped = record s {
          queue_bytes = (s.queue_bytes + (2 ^ 32 - size_in_bytes item % 2 ^ 32)) % 2 ^ 32;
        }

        finished :
            (r : RequestState × List Event × BlockSync)
            → request_next_block c item.peer alive popped ≡ some r
            → finish_item size_in_bytes is_structural is_contextual c item r.0 r.1 r.2
              ≡ some (events, c', s')
            → IsSettled c item s.queue s'
        finished (state, before, t) h e =
            let kept = request-keeps c item.peer alive popped state before t h in
            subst (λ q. IsSettled c item q s') kept.0
              (finish_item-IsSettled c item state before events t c' s'
                (request-IsAccounted c item.peer alive popped state before t
                  (wrap_sub s.queue_bytes (size_in_bytes item) (total s.queue) a) h)
                e)

    process-IsSettled :
        (c : Chains) (alive : Bool) (item : Item) (items : List Item) (s : BlockSync)
        (events : List Event) (c' : Chains) (s' : BlockSync)
        → IsAccounted s
        → s.queue ≡ item ∷ items
        → process size_in_bytes is_structural is_contextual c alive s ≡ some (events, c', s')
        → IsSettled c item items s'
    unfolding process
    process-IsSettled c alive item items s events c' s' a q e =
        process_item-IsSettled c alive item (record s { queue = items }) events c' s'
          (a ∙ ap (λ l. total l % 2 ^ 32) q) (grind (arith, q, e))

    -- A round of Process over the item in front, whose validation has a verdict. When the block is
    -- valid, the queue's bytes are still those of its items; when it is not, they are those of the items
    -- that are left and of all the items of the same peer, which HandleError took out: both modulo
    -- 2 ^ 32, as the counter wraps.
    pub process-queue_bytes :
        (c : Chains) (alive : Bool) (item : Item) (items : List Item) (valid : Bool) (s : BlockSync)
        (events : List Event) (c' : Chains) (s' : BlockSync)
        → IsAccounted s
        → s.queue ≡ item ∷ items
        → validate_item is_structural is_contextual c item ≡ some valid
        → process size_in_bytes is_structural is_contextual c alive s ≡ some (events, c', s')
        → s'.queue_bytes
          ≡ (total s'.queue + (if valid then 0 else total_of_peer item.peer items)) % 2 ^ 32
    process-queue_bytes c alive item items true s events c' s' a q v e =
        (process-IsSettled c alive item items s events c' s' a q e).0 v
        ∙ ap (λ n. n % 2 ^ 32) (omega arith)
    process-queue_bytes c alive item items false s events c' s' a q v e =
        (process-IsSettled c alive item items s events c' s' a q e).1 v
