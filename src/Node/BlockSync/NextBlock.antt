-- ===== src/Node/BlockSync/NextBlock.antt =====
-- Which block is asked for where the last request is not in the main chain.
use hornet.Common.{ℕ, ◌<◌, ◌≡◌, refl, length, get_elem?, Bytes, Option, none, some, false, arith}
use hornet.Common.Int.{pos}
use hornet.Data.HeaderContext.{HeaderContext}
use hornet.Data.HeaderTimechain.Linked.{
  IsLinked, IsTip, get_elem?-some, get_chain_hash-compute_hash,
}
use hornet.Data.KeyframeSidecar.{get, find_in_chain_if}
use hornet.Data.KeyframeSidecar.Find.{IsFirst, find_in_chain_if-IsFirst}
use hornet.Data.KeyframeSidecar.Reads.{IsCovered}
use hornet.Data.Locator.{in_chain}
use hornet.Node.BlockSync.{Chains, Key, is_unvalidated, is_in_main_chain, get_next_block_id}
use hornet.Protocol.Header.{BlockHeader, compute_hash}
use hornet.Protocol.Transaction.{Hash}
use mathlib.Core.Path.{subst}

module _ (double_sha256 : Bytes → Hash) (c : Chains) where
  -- The first height from 1 on whose block is not validated, if there is one.
  abbrev pub IsFirstUnvalidated : Option ℕ → Type 0
  IsFirstUnvalidated =
      IsFirst is_unvalidated (λ x. get c.validation (in_chain (pos x))) 1 c.validation.chain_length

  -- No block is left, or the key is that of the first block that is not validated, with the hash of
  -- the header at its height.
  abbrev pub IsNext : Option Key → Type 0
  IsNext none = IsFirstUnvalidated none
  IsNext (some key) =
      (h : ℕ) × (header : BlockHeader) × (key.height ≡ pos h)
      × (get_elem? c.headers.chain h ≡ some header)
      × (key.hash ≡ compute_hash double_sha256 header)
      × IsFirstUnvalidated (some h)

  -- In a linked chain of two headers at least, with as many statuses, whose last request is not in the
  -- main chain, GetNextBlockId gives the first block that is not validated, with its header's hash, or
  -- nothing exactly where every block over the first is.
  pub get_next_block_id-IsNext :
      (tip : HeaderContext) (request : Key)
      → IsLinked double_sha256 c.headers.chain
      → IsTip double_sha256 c.headers tip
      → IsCovered c.validation
      → c.validation.chain_length ≡ length c.headers.chain
      → 1 < length c.headers.chain
      → is_in_main_chain c.headers request ≡ false
      → (next : Option Key) × (get_next_block_id c request ≡ some next) × IsNext next
  unfolding get_next_block_id
  get_next_block_id-IsNext tip request linked at covered same long out =
      found (find_in_chain_if c.validation 1 is_unvalidated) refl
    where
      found :
          (r : Option ℕ)
          → find_in_chain_if c.validation 1 is_unvalidated ≡ r
          → (next : Option Key) × (get_next_block_id c request ≡ some next) × IsNext next
      found none e =
          let first = subst IsFirstUnvalidated e (
            find_in_chain_if-IsFirst is_unvalidated c.validation 1 covered
              (omega (arith, same, long))) in
          (none, rw (get_next_block_id, out, e) refl, first)
      found (some h) e =
          let first = subst IsFirstUnvalidated e (
            find_in_chain_if-IsFirst is_unvalidated c.validation 1 covered
              (omega (arith, same, long))) in
          let header = get_elem?-some c.headers.chain h (omega (arith, same, first.1)) in
          let hash =
            get_chain_hash-compute_hash double_sha256 c.headers tip h header.0 linked at header.1 in
          (
            some (record { height = pos h; hash = compute_hash double_sha256 header.0 }),
            rw (get_next_block_id, out, e, hash) refl,
            (h, header.0, refl, header.1, refl, first),
          )
