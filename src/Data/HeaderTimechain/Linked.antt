-- ===== src/Data/HeaderTimechain/Linked.antt =====
-- The headers of the main chain name one another's hashes: what that gives, and that it stays so.
use hornet.Common.{
  ℕ, zero, suc, ◌<◌, ◌≡◌, refl, sym, ap, ◌∙◌, List, [], ◌∷◌, ◌++◌, length, take, get_elem?, Option,
  none, some, false, leb, ◌==◌, arith, Bool-cases, inl, inr, Bytes,
}
use hornet.Data.ChainTree.{prune_forest}
use hornet.Data.HeaderContext.{HeaderContext}
use hornet.Data.HeaderTimechain.{HeaderTimechain, get_chain_hash}
use hornet.Protocol.Header.{BlockHeader, compute_hash}
use hornet.Protocol.Transaction.{Hash}
use mathlib.Core.Path.{subst}

-- The last element of a list.
abbrev pub last? : {A : Type 0} → List A → Option A
last? [] = none
last? (x ∷ []) = some x
last? (x ∷ (y ∷ ys)) = last? (y ∷ ys)

pub some_injective : {A : Type 0} {a b : A} → some a ≡ some b → a ≡ b
some_injective e = cc

get_elem?-last :
    {A : Type 0} (xs : List A) (i : ℕ) (a : A)
    → suc i ≡ length xs
    → get_elem? xs i ≡ some a
    → last? xs ≡ some a
get_elem?-last [] i a e h = absurd (omega arith)
get_elem?-last (x ∷ []) zero a e h = h
get_elem?-last (x ∷ []) (suc i) a e h = absurd (omega arith)
get_elem?-last (x ∷ (y ∷ xs)) zero a e h = absurd (omega arith)
get_elem?-last (x ∷ (y ∷ xs)) (suc i) a e h = get_elem?-last (y ∷ xs) i a (omega arith) h

pub get_elem?-some :
    {A : Type 0} (xs : List A) (i : ℕ) → i < length xs → (a : A) × (get_elem? xs i ≡ some a)
get_elem?-some [] i h = absurd (omega arith)
get_elem?-some (x ∷ xs) zero h = (x, refl)
get_elem?-some (x ∷ xs) (suc i) h = get_elem?-some xs i (omega arith)

get_elem?-lt : {A : Type 0} (xs : List A) (i : ℕ) (a : A) → get_elem? xs i ≡ some a → i < length xs
get_elem?-lt [] i a h = absurd (ground arith)
get_elem?-lt (x ∷ xs) zero a h = omega arith
get_elem?-lt (x ∷ xs) (suc i) a h = omega (arith, get_elem?-lt xs i a h)

pub last?-take :
    {A : Type 0} (xs : List A) (i : ℕ) (a : A)
    → get_elem? xs i ≡ some a
    → last? (take (suc i) xs) ≡ some a
last?-take [] i a e = absurd (ground arith)
last?-take (x ∷ xs) zero a e = e
last?-take (x ∷ []) (suc i) a e = absurd (ground arith)
last?-take (x ∷ (y ∷ xs)) (suc i) a e = last?-take (y ∷ xs) i a e

pub last?-append : {A : Type 0} (xs ys : List A) (y : A) → last? (xs ++ y ∷ ys) ≡ last? (y ∷ ys)
last?-append [] ys y = refl
last?-append (x ∷ []) ys y = refl
last?-append (x ∷ (x' ∷ xs)) ys y = last?-append (x' ∷ xs) ys y

-- Every height of a chain with a tip has a hash.
pub get_chain_hash-some :
    (t : HeaderTimechain) (c : HeaderContext) (height : ℕ)
    → t.chain_tip_context ≡ some c
    → height < length t.chain
    → (hash : Hash) × (get_chain_hash t height ≡ some hash)
unfolding get_chain_hash
get_chain_hash-some t c height tip lt =
    let inside : leb (length t.chain) height ≡ false = ground arith in
    elim (Bool-cases (suc height == length t.chain)) [
      | inl last ↦ (c.hash, rw (inside, last, tip) refl)
      | inr under ↦
          let above = get_elem?-some t.chain (suc height) (ground arith) in
          (above.0.prev_block, rw (inside, under, above.1) refl)
    ]

-- The pruning leaves the main chain.
pub prune_forest-chain :
    (t : HeaderTimechain) (depth : ℕ)
    → ((prune_forest t depth).chain ≡ t.chain)
      × ((prune_forest t depth).chain_tip_context ≡ t.chain_tip_context)
unfolding prune_forest
prune_forest-chain t depth = (ground arith, ground arith)

module _ (double_sha256 : Bytes → Hash) where
  -- Each header names the hash of the one below it.
  abbrev pub IsLinked : List BlockHeader → Type 0
  IsLinked [] = Unit {0}
  IsLinked (a ∷ []) = Unit {0}
  IsLinked (a ∷ (b ∷ rest)) = (b.prev_block ≡ compute_hash double_sha256 a) × IsLinked (b ∷ rest)

  -- The context of the tip is that of the last header.
  abbrev pub IsTip : HeaderTimechain → HeaderContext → Type 0
  IsTip t c =
      (t.chain_tip_context ≡ some c)
      × (last? t.chain ≡ some c.header)
      × (c.hash ≡ compute_hash double_sha256 c.header)

  IsLinked-get :
      (xs : List BlockHeader) (i : ℕ) (a b : BlockHeader)
      → IsLinked xs
      → get_elem? xs i ≡ some a
      → get_elem? xs (suc i) ≡ some b
      → b.prev_block ≡ compute_hash double_sha256 a
  IsLinked-get [] i a b h ea eb = absurd (ground arith)
  IsLinked-get (x ∷ []) i a b h ea eb = absurd (ground arith)
  IsLinked-get (x ∷ (y ∷ xs)) zero a b h ea eb =
      ap (λ (k : BlockHeader). k.prev_block) (sym (some_injective eb))
      ∙ h.0
      ∙ ap (compute_hash double_sha256) (some_injective ea)
  IsLinked-get (x ∷ (y ∷ xs)) (suc i) a b h ea eb = IsLinked-get (y ∷ xs) i a b h.1 ea eb

  pub IsLinked-append :
      (xs ys : List BlockHeader) (a : BlockHeader)
      → IsLinked xs
      → last? xs ≡ some a
      → IsLinked (a ∷ ys)
      → IsLinked (xs ++ ys)
  IsLinked-append [] ys a h e k = absurd (ground arith)
  IsLinked-append (x ∷ []) ys a h e k = subst (λ z. IsLinked (z ∷ ys)) (sym (some_injective e)) k
  IsLinked-append (x ∷ (y ∷ xs)) ys a h e k = (h.0, IsLinked-append (y ∷ xs) ys a h.1 e k)

  pub IsLinked-take : (n : ℕ) (xs : List BlockHeader) → IsLinked xs → IsLinked (take n xs)
  IsLinked-take zero xs h = tt
  IsLinked-take (suc n) [] h = tt
  IsLinked-take (suc zero) (x ∷ []) h = tt
  IsLinked-take (suc (suc n)) (x ∷ []) h = tt
  IsLinked-take (suc zero) (x ∷ (y ∷ xs)) h = tt
  IsLinked-take (suc (suc n)) (x ∷ (y ∷ xs)) h = (h.0, IsLinked-take (suc n) (y ∷ xs) h.1)

  -- In a linked chain whose tip has its header's context, GetChainHash gives for every height the hash
  -- of the header that stands there.
  pub get_chain_hash-compute_hash :
      (t : HeaderTimechain) (c : HeaderContext) (height : ℕ) (header : BlockHeader)
      → IsLinked t.chain
      → IsTip t c
      → get_elem? t.chain height ≡ some header
      → get_chain_hash t height ≡ some (compute_hash double_sha256 header)
  unfolding get_chain_hash
  get_chain_hash-compute_hash t c height header linked tip at =
      let inside : leb (length t.chain) height ≡ false =
        ground (arith, get_elem?-lt t.chain height header at) in
      elim (Bool-cases (suc height == length t.chain)) [
        | inl last ↦
            let e : some c.header ≡ some header =
              sym tip.1 ∙ get_elem?-last t.chain height header (ground arith) at in
            rw (inside, last, tip.0)
              (ap some (tip.2 ∙ ap (compute_hash double_sha256) (some_injective e)))
        | inr under ↦
            let above =
              get_elem?-some t.chain (suc height)
                (ground (arith, get_elem?-lt t.chain height header at)) in
            rw (inside, under, above.1)
              (ap some (IsLinked-get t.chain height header above.0 linked at above.1))
      ]
