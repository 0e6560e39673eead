-- ===== src/Node/HeaderSync.antt =====
-- src/hornetnodelib/sync/header_sync.h: the download of headers, one request at a time, and their
-- validation batch by batch. Each handler is one step; its events stand in their order.
pub mod Grow
use hornet.Common.{
  ℕ, List, [], ◌∷◌, ◌++◌, length, Bytes, Option, none, some, Bool, true, false, not, leb, ◌==◌,
  if◌then◌else◌,
}
use hornet.Data.ChainTree.{Iterator, is_valid}
use hornet.Data.HeaderContext.{HeaderContext, extend}
use hornet.Data.HeaderTimechain.{HeaderTimechain, ContextIterator, chain_tip, search}
use hornet.Data.Timechain.{Timechain, add_header}
use hornet.Protocol.Header.{BlockHeader, compute_hash}
use hornet.Protocol.Message.{max_block_headers}
use hornet.Protocol.Transaction.{Hash, null_hash, hash_is_null}

pub record Item : Type 0 where
  pub peer : ℕ
  pub batch : List BlockHeader

pub record HeaderSync : Type 0 where
  pub queue : List Item
  pub max_queue_items : ℕ
  pub send_blocked : Bool
  pub next_request : Hash

-- OnRequest with the locator hash, OnError and OnComplete.
pub data Event : Type 0 where
  asked : ℕ → Hash → Event
  refused : ℕ → Event
  synced : ℕ → Event

abbrev pub is_full_batch : List BlockHeader → Bool
is_full_batch headers = length headers == max_block_headers

-- RequestHeadersFrom; the handler accepts the request, or does not.
unfoldable pub request_headers_from : Bool → ℕ → HeaderSync → Bool × List Event × HeaderSync
request_headers_from accepted peer s =
    if leb s.max_queue_items (length s.queue)
    then (false, [], s)
    else if s.send_blocked
    then (false, [], s)
    else if hash_is_null s.next_request
    then (false, [], s)
    else (accepted, asked peer s.next_request ∷ [], record s { send_blocked = accepted })

-- StartSync: from the tip of the main chain.
unfoldable pub start_sync : HeaderTimechain → Bool → ℕ → HeaderSync → List Event × HeaderSync
unfolding request_headers_from
start_sync t accepted peer s =
    let tip : Hash = elim (chain_tip t).context [ none ↦ null_hash | some c ↦ c.hash ] in
    let (ok, events, s') =
      request_headers_from accepted peer (record s { next_request = tip; send_blocked = false }) in
    if ok then (events, s') else (events ++ synced peer ∷ [], s')

abbrev pub last_header : BlockHeader → List BlockHeader → BlockHeader
last_header h [] = h
last_header h (k ∷ headers) = last_header k headers

-- `std::erase_if`, over the batches of one peer.
unfoldable pub without_batches_of : ℕ → List Item → List Item
without_batches_of peer [] = []
without_batches_of peer (b ∷ batches) =
    if b.peer == peer then without_batches_of peer batches else b ∷ without_batches_of peer batches

module _ (double_sha256 : Bytes → Hash) where
  -- The hash for the next request behind a batch.
  unfoldable pub hash_behind : List BlockHeader → Hash
  unfolding compute_hash
  hash_behind [] = null_hash
  hash_behind (h ∷ headers) =
      if is_full_batch (h ∷ headers)
      then compute_hash double_sha256 (last_header h headers)
      else null_hash

  -- OnHeaders, whose assertion is that a request is out.
  unfoldable pub on_headers :
      Bool → ℕ → List BlockHeader → HeaderSync → Option (List Event × HeaderSync)
  unfolding hash_behind request_headers_from
  on_headers accepted peer headers s =
      let item : Item = record { peer = peer; batch = headers } in
      let s' : HeaderSync = record s {
        queue = s.queue ++ item ∷ [];
        next_request = hash_behind headers;
      } in
      let asks = request_headers_from accepted peer (record s' { send_blocked = false }) in
      if not s.send_blocked
      then none
      else if is_full_batch headers
      then some (asks.1, asks.2)
      else some ([], s')

  -- ValidateHeader on a header, its parent's context and the view from the parent, as a test.
  module _ {T : Type 0} (same : T → T → Bool)
      (is_valid_header : BlockHeader → HeaderContext → HeaderTimechain → Iterator → Bool) where
    -- The loop over a batch: whether all headers are valid, and the headers with those that are.
    unfoldable pub validate_batch :
        ContextIterator → List BlockHeader → Timechain T → Option (Bool × Timechain T)
    unfolding extend add_header
    validate_batch parent [] t = some (true, t)
    validate_batch parent (h ∷ headers) t = elim parent.context [
      | none ↦ none
      | some c ↦
          let added : Option (ContextIterator × Timechain T) = elim (extend double_sha256 c h) [
            | none ↦ none
            | some c' ↦ add_header same t parent c'
          ] in
          let rest : Option (Bool × Timechain T) = elim added [
            | none ↦ none
            | some (child, t') ↦ validate_batch child headers t'
          ] in
          if is_valid_header h c t.headers parent.base then rest else some (false, t)
    ]

    abbrev pub completion : Item → List Event
    completion b = if is_full_batch b.batch then [] else synced b.peer ∷ []

    -- The validation of a batch that has a first header, from its parent on.
    unfoldable pub process_headers :
        Item
        → BlockHeader
        → HeaderSync
        → Timechain T
        → Option (List Event × HeaderSync × Timechain T)
    unfolding search validate_batch without_batches_of
    process_headers b first s t =
        let erased = record s { queue = without_batches_of b.peer s.queue } in
        elim (search t.headers first.prev_block) [
          | none ↦ none
          | some parent ↦
              if not (is_valid t.headers parent.base)
              then some (refused b.peer ∷ [], erased, t)
              else elim (validate_batch parent b.batch t) [
                | none ↦ none
                | some (true, t') ↦ some (completion b, s, t')
                | some (false, t') ↦ some (refused b.peer ∷ completion b, erased, t')
              ]
        ]

    -- One round of Process for the batch that is popped.
    unfoldable pub process_batch :
        Bool → Item → HeaderSync → Timechain T → Option (List Event × HeaderSync × Timechain T)
    unfolding request_headers_from process_headers
    process_batch accepted b s t = elim b.batch [
      | [] ↦ some (completion b, s, t)
      | first ∷ rest ↦
          let asks = request_headers_from accepted b.peer s in
          elim (process_headers b first asks.2 t) [
            | none ↦ none
            | some (events, s', t') ↦ some (asks.1 ++ events, s', t')
          ]
    ]

    unfoldable pub process :
        Bool → HeaderSync → Timechain T → Option (List Event × HeaderSync × Timechain T)
    unfolding process_batch
    process accepted s t = elim s.queue [
      | [] ↦ some ([], s, t)
      | b ∷ batches ↦ process_batch accepted b (record s { queue = batches }) t
    ]
