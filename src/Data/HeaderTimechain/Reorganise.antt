-- ===== src/Data/HeaderTimechain/Reorganise.antt =====
-- A reorganisation to a branch of more work: the main chain, its tip and the hashes that left it.
use hornet.Common.{
  none, ℕ, zero, suc, ◌-◌, ◌<◌, ◌≡◌, refl, sym, ap, ◌∙◌, List, [], ◌∷◌, ◌++◌, length, take, drop,
  get_elem?, map, some, true, leb, arith, Bytes,
}
use hornet.Common.Int.{pos, sub_ℕ}
use hornet.Data.ChainTree.{
  NodeData, begin_chain, begin_forest, chain_element, chain_tip_height, swap_branches,
}
use hornet.Data.ChainTree.Promote.{Extends, AreFresh, branch_data, swap_branches-chain}
use hornet.Data.HashedTree.{Node, reverse_onto}
use hornet.Data.HashedTree.Extend.{IsBranch}
use hornet.Data.HeaderContext.{HeaderContext, header_parts}
use hornet.Data.HeaderTimechain.{HeaderTimechain, get_policy, reorganise, tip_has_less_work}
use hornet.Data.HeaderTimechain.Linked.{
  IsLinked, IsTip, last?, IsLinked-append, IsLinked-take, last?-take, last?-append,
}
use hornet.Protocol.Header.{BlockHeader, compute_hash}
use hornet.Protocol.Transaction.{Hash}
use mathlib.Core.List.{append_assoc, map-append}
use mathlib.Core.Path.{subst}

reverse_onto-append :
    {A : Type 0} (up after : List (Node A)) → reverse_onto up after ≡ reverse_onto up [] ++ after
unfolding reverse_onto
reverse_onto-append [] after = refl
reverse_onto-append (n ∷ up) after =
    reverse_onto-append up (n ∷ after)
    ∙ sym (append_assoc (reverse_onto up []) (n ∷ []) after)
    ∙ ap (λ l. l ++ after) (sym (reverse_onto-append up (n ∷ [])))

-- The element below a height.
chain_element-below :
    (t : HeaderTimechain) (h : ℕ) (a : BlockHeader)
    → chain_element t (sub_ℕ h 1) ≡ some a
    → (k : ℕ) × (h ≡ suc k) × (get_elem? t.chain k ≡ some a)
chain_element-below t zero a e = absurd (ground arith)
chain_element-below t (suc k) a e =
    let inside : leb 1 (suc k) ≡ true = ground arith in
    let same : suc k - 1 ≡ k = omega arith in
    let at : sub_ℕ (suc k) 1 ≡ pos k = rw (inside, same) refl in
    (k, refl, ap (chain_element t) (sym at) ∙ e)

abbrev headers_of : List (Node (NodeData HeaderContext)) → List BlockHeader
headers_of = branch_data header_parts

-- The last header of a branch is the leaf's.
last?-branch :
    (tip root : Node (NodeData HeaderContext)) (up branch : List (Node (NodeData HeaderContext)))
    → reverse_onto (tip ∷ up) [] ≡ root ∷ branch
    → last? (headers_of (root ∷ branch)) ≡ some tip.value.context.header
unfolding reverse_onto
last?-branch tip root up branch order =
    ap (λ l. last? (headers_of l)) (sym order ∙ reverse_onto-append up (tip ∷ []))
    ∙ ap last? (map-append _ (reverse_onto up []) (tip ∷ []))
    ∙ last?-append (headers_of (reverse_onto up [])) [] tip.value.context.header

module _ (double_sha256 : Bytes → Hash) (t : HeaderTimechain)
    (tip root : Node (NodeData HeaderContext)) (up branch : List (Node (NodeData HeaderContext)))
    (below : BlockHeader) (fork : HeaderContext) (cs : List HeaderContext) where
  -- The new main chain is linked.
  promoted-IsLinked :
      (k : ℕ)
      → get_elem? t.chain k ≡ some below
      → IsLinked double_sha256 t.chain
      → IsLinked double_sha256 (below ∷ headers_of (root ∷ branch))
      → IsLinked double_sha256 (take (suc k) t.chain ++ headers_of (root ∷ branch))
  promoted-IsLinked k at linked joined =
      IsLinked-append double_sha256 (take (suc k) t.chain) (headers_of (root ∷ branch)) below
        (IsLinked-take double_sha256 (suc k) t.chain linked) (last?-take t.chain k below at) joined

  -- Where a leaf of the forest has more work than the tip of a linked chain, its path to the root is
  -- in order, the headers on it name one another's hashes and the root's names that of the header
  -- below it, which is in the chain, its hash is its header's, and the contexts of the old chain can
  -- be computed, under hashes that are none of the path's: Add's reorganisation comes to EraseChain.
  -- There the main chain is the old one below the root's height and then the branch, it is linked
  -- again, its tip has the leaf's context, the result stands at its end, and the hashes are those of
  -- the headers that left the chain. EraseChain then makes an undefined read, so that Add has no
  -- result.
  pub swap_branches-IsLinked :
      IsLinked double_sha256 t.chain
      → IsLinked double_sha256 (below ∷ headers_of (root ∷ branch))
      → tip.value.context.hash ≡ compute_hash double_sha256 tip.value.context.header
      → tip_has_less_work t tip.value.context ≡ true
      → IsBranch t.forest tip up
      → reverse_onto (tip ∷ up) [] ≡ root ∷ branch
      → chain_element t (sub_ℕ root.value.context.height 1) ≡ some below
      → (get_policy t).rewind root.value.context below ≡ some fork
      → suc fork.height < length t.chain
      → Extends header_parts (get_policy t) fork (drop root.value.context.height t.chain) cs
      → AreFresh header_parts cs (tip ∷ up)
      → (t' : HeaderTimechain) × (swap_branches header_parts (get_policy t) tip.id t
          ≡ some ((begin_chain (chain_tip_height t'), map (λ c. c.hash) cs), t'))
        × (t'.chain ≡ take root.value.context.height t.chain ++ headers_of (root ∷ branch))
        × IsLinked double_sha256 t'.chain
        × IsTip double_sha256 t' tip.value.context
        × (reorganise (begin_forest (some tip.id)) tip.value.context t ≡ none)
  unfolding reorganise
  swap_branches-IsLinked linked joined hashed more b order at back low ext fresh =
      let p =
        swap_branches-chain header_parts (get_policy t) t tip root up branch below fork cs b order
          at back low ext fresh in
      let old : List BlockHeader = take root.value.context.height t.chain in
      let foot = chain_element-below t root.value.context.height below at in
      let chain_linked : IsLinked double_sha256 (old ++ headers_of (root ∷ branch)) =
        subst (λ h. IsLinked double_sha256 (take h t.chain ++ headers_of (root ∷ branch)))
          (sym foot.1) (promoted-IsLinked foot.0 foot.2 linked joined) in
      let chain_last : last? (old ++ headers_of (root ∷ branch)) ≡ some tip.value.context.header =
        last?-append old (headers_of branch) root.value.context.header
        ∙ last?-branch tip root up branch order in
      (
        p.0,
        p.1,
        p.2,
        subst (IsLinked double_sha256) (sym p.2) chain_linked,
        (p.3, ap last? p.2 ∙ chain_last, hashed),
        rw (reorganise, more, p.5) refl,
      )
