-- ===== src/Data/ChainTree/Promote.antt =====
-- A reorganisation: what PromoteBranch makes of the chain and of its tip.
use hornet.Common.{
  ℕ, suc, ◌<◌, ◌≡◌, refl, sym, ap, ◌∙◌, List, [], ◌∷◌, ◌++◌, length, take, drop, map, Option, none,
  some, true, false, ltb, ◌==◌, arith, Bool-cases, inl, inr, length-append,
}
use hornet.Common.Int.{sub_ℕ}
use hornet.Data.HashedTree.{Node, HashedTree, node_at, reverse_onto}
use hornet.Data.HashedTree
use hornet.Data.HashedTree.Extend.{
  IsBranch, IsFresh, IsPlace, add_child-IsBranch, up_from_node-IsBranch, is_leaf-IsBranch,
}
use hornet.Data.ChainTree.{
  Parts, Policy, NodeData, ChainTree, begin_chain, begin_forest, chain_element, chain_tip,
  chain_tip_height, add_node, add_child, push_to_chain, copy_old_chain, push_branch, swap_nodes,
  swap_branches, promote_branch,
}
use hornet.Data.HashedTree.Paths.{erase_chain_undefined}
use mathlib.Core.List.{append_assoc, append-nil}
use mathlib.Core.Path.{subst}

-- A node that stands last is found, under its number.
node_at-append_last :
    {A : Type 0} (ns : List (Node A)) (n : Node A)
    → (m : Node A) × (node_at (ns ++ n ∷ []) n.id ≡ some m)
unfolding node_at
node_at-append_last [] n = (n, ground arith)
node_at-append_last (k ∷ ns) n = elim (Bool-cases (k.id == n.id)) [
  | inl e ↦ (k, rw e refl)
  | inr e ↦ let r = node_at-append_last ns n in (r.0, rw e r.1)
]

module _ {D C : Type 0} (parts : Parts D C) where
  open parts use {data_of, hash_of, height_of}

  -- The contexts that the policy gives the elements above a context.
  abbrev pub Extends : Policy D C → C → List D → List C → Type 0
  Extends policy c [] [] = Unit {0}
  Extends policy c [] (c' ∷ cs) = ⊥
  Extends policy c (d ∷ ds) [] = ⊥
  Extends policy c (d ∷ ds) (c' ∷ cs) = (policy.extend c d ≡ some c') × Extends policy c' ds cs

  -- The contexts' hashes are none of the path's.
  abbrev pub AreFresh : List C → List (Node (NodeData C)) → Type 0
  AreFresh [] up = Unit {0}
  AreFresh (c ∷ cs) up = IsFresh (hash_of c) up × AreFresh cs up

  abbrev pub branch_data : List (Node (NodeData C)) → List D
  branch_data = map (λ (n : Node (NodeData C)). data_of n.value.context)

  -- A new node under a parent that is there.
  abbrev IsParent : ChainTree D C → Option ℕ → Type 0
  IsParent t none = Unit {0}
  IsParent t (some p) = (m : Node (NodeData C)) × (node_at t.forest.nodes p ≡ some m)

  add_node-IsBranch :
      (t : ChainTree D C) (root_height : ℕ) (parent : Option ℕ) (c : C) (tip : Node (NodeData C))
      (up : List (Node (NodeData C)))
      → IsPlace t.forest tip parent
      → IsFresh (hash_of c) (tip ∷ up)
      → IsBranch t.forest tip up
      → IsBranch (add_node parts root_height parent c t).1.forest tip up
        × IsPlace
            (add_node parts root_height parent c t).1.forest
            tip
            (some (add_node parts root_height parent c t).0)
        × IsParent
            (add_node parts root_height parent c t).1
            (some (add_node parts root_height parent c t).0)
        × ((add_node parts root_height parent c t).1.chain ≡ t.chain)
  unfolding add_node HashedTree.add_child
  add_node-IsBranch t root_height parent c tip up place fresh b = (
    add_child-IsBranch (λ (d : NodeData C). hash_of d.context) t.forest parent _ tip up place fresh
        b,
    (b.2, omega arith),
    node_at-append_last t.forest.nodes _,
    refl,
  )

  -- A child of the forest, for a parent that is there.
  add_child-some :
      (t : ChainTree D C) (parent : Option ℕ) (c : C)
      → IsParent t parent
      → (root_height : ℕ) × (add_child parts parent c t
          ≡ some (add_node parts root_height parent c t))
  unfolding add_child
  add_child-some t none c h = (height_of c, refl)
  add_child-some t (some p) c h = (h.0.value.root_height, rw (add_child, h.1) refl)

  copy_old_chain-IsBranch :
      (policy : Policy D C) (ds : List D) (c : C) (cs : List C) (parent : Option ℕ)
      (t : ChainTree D C) (tip : Node (NodeData C)) (up : List (Node (NodeData C)))
      → Extends policy c ds cs
      → AreFresh cs (tip ∷ up)
      → IsPlace t.forest tip parent
      → IsParent t parent
      → IsBranch t.forest tip up
      → (t' : ChainTree D C) × (copy_old_chain parts policy ds c parent t
          ≡ some (map hash_of cs, t'))
        × IsBranch t'.forest tip up
        × (t'.chain ≡ t.chain)
  unfolding copy_old_chain
  copy_old_chain-IsBranch policy [] c [] parent t tip up e f place there b = (t, refl, b, refl)
  copy_old_chain-IsBranch policy [] c (c' ∷ cs) parent t tip up e f place there b = elim e [ ]
  copy_old_chain-IsBranch policy (d ∷ ds) c [] parent t tip up e f place there b = elim e [ ]
  copy_old_chain-IsBranch policy (d ∷ ds) c (c' ∷ cs) parent t tip up e f place there b =
      let a = add_child-some t parent c' there in
      let k = add_node-IsBranch t a.0 parent c' tip up place f.0 b in
      let r =
        copy_old_chain-IsBranch policy ds c' cs (some (add_node parts a.0 parent c' t).0)
          (add_node parts a.0 parent c' t).1 tip up e.1 f.1 k.1 k.2 k.0 in
      (r.0, rw (copy_old_chain, e.0, a.1, r.1) refl, r.2, r.3 ∙ k.3)

  -- What the pushes do.
  push_branch-chain :
      (branch : List (Node (NodeData C))) (t : ChainTree D C)
      → ((push_branch parts branch t).chain ≡ t.chain ++ branch_data branch)
        × ((push_branch parts branch t).forest ≡ t.forest)
  unfolding push_branch push_to_chain
  push_branch-chain [] t = (sym (append-nil t.chain), refl)
  push_branch-chain (n ∷ branch) t =
      let r = push_branch-chain branch (push_to_chain data_of n.value.context t) in
      (r.0 ∙ append_assoc t.chain (data_of n.value.context ∷ []) (branch_data branch), r.1)

  push_branch-reverse_onto :
      (up after : List (Node (NodeData C))) (t : ChainTree D C)
      → push_branch parts (reverse_onto up after) t
        ≡ push_branch parts after (push_branch parts (reverse_onto up []) t)
  unfolding push_branch reverse_onto
  push_branch-reverse_onto [] after t = refl
  push_branch-reverse_onto (n ∷ up) after t =
      push_branch-reverse_onto up (n ∷ after) t
      ∙ ap (push_branch parts after) (sym (push_branch-reverse_onto up (n ∷ []) t))

  push_branch-tip :
      (tip : Node (NodeData C)) (up : List (Node (NodeData C))) (t : ChainTree D C)
      → (push_branch parts (reverse_onto (tip ∷ up) []) t).chain_tip_context
        ≡ some tip.value.context
  unfolding push_branch reverse_onto push_to_chain
  push_branch-tip tip up t =
      ap (λ (u : ChainTree D C). u.chain_tip_context) (push_branch-reverse_onto up (tip ∷ []) t)

  module _ (policy : Policy D C) (t : ChainTree D C) (tip root : Node (NodeData C))
      (up branch : List (Node (NodeData C))) (below : D) (fork : C) (cs : List C) where
    chain_tip_nonempty :
        (u : ChainTree D C)
        → 0 < length u.chain
        → (chain_tip parts u).0 ≡ begin_chain (chain_tip_height u)
    unfolding chain_tip
    chain_tip_nonempty u lt = let e : (length u.chain == 0) ≡ false = ground arith in rw e refl

    -- A leaf of the forest whose path to its root is in order, where the element below the root is in
    -- the chain, the policy rewinds the root's context to a context below the tip and extends it over
    -- the rest of the chain, to contexts whose hashes are none of the path's: PromoteBranch comes to
    -- EraseChain. There the chain is the old one below the root's height and then the branch, root
    -- first, the context of the tip is the leaf's, the result stands at the end of the chain, the
    -- hashes are those of the contexts of the elements that left the chain, and the forest still has
    -- the path. EraseChain then makes an undefined read, so that PromoteBranch has no result.
    pub swap_branches-chain :
        IsBranch t.forest tip up
        → reverse_onto (tip ∷ up) [] ≡ root ∷ branch
        → chain_element t (sub_ℕ (height_of root.value.context) 1) ≡ some below
        → policy.rewind root.value.context below ≡ some fork
        → suc (height_of fork) < length t.chain
        → Extends policy fork (drop (height_of root.value.context) t.chain) cs
        → AreFresh cs (tip ∷ up)
        → (t' : ChainTree D C) × (swap_branches parts policy tip.id t
            ≡ some ((begin_chain (chain_tip_height t'), map hash_of cs), t'))
          × (t'.chain ≡ take (height_of root.value.context) t.chain ++ branch_data (root ∷ branch))
          × (t'.chain_tip_context ≡ some tip.value.context)
          × IsBranch t'.forest tip up
          × (promote_branch parts t (begin_forest (some tip.id)) policy ≡ none)
    unfolding swap_branches promote_branch
    swap_branches-chain b order at back low ext fresh =
        let h : ℕ = height_of root.value.context in
        let copied =
          copy_old_chain-IsBranch policy (drop h t.chain) fork cs none t tip up ext fresh tt tt b in
        let cut : ChainTree D C = record copied.0 {
          chain = take h t.chain;
          chain_tip_context = some fork;
        } in
        let pushed : ChainTree D C = push_branch parts (root ∷ branch) cut in
        let effect = push_branch-chain (root ∷ branch) cut in
        let fits : ltb (suc (height_of fork)) (length t.chain) ≡ true = ground arith in
        let last : (chain_tip parts pushed).0 ≡ begin_chain (chain_tip_height pushed) =
          chain_tip_nonempty pushed (
            omega (
              arith,
              ap length effect.0,
              length-append (take h t.chain) (branch_data (root ∷ branch)),
            )) in
        let swapped : swap_branches parts policy tip.id t
            ≡ some ((begin_chain (chain_tip_height pushed), map hash_of cs), pushed) =
          rw
            (
              swap_branches,
              is_leaf-IsBranch t.forest tip up b,
              up_from_node-IsBranch t.forest tip up b,
              order,
              swap_nodes,
              at,
              back,
              fits,
              copied.1,
              last,
            )
            refl in
        (
          pushed,
          swapped,
          effect.0,
          subst (λ l. (push_branch parts l cut).chain_tip_context ≡ some tip.value.context) order
              (push_branch-tip tip up cut),
          subst (λ f. IsBranch f tip up) (sym effect.1) copied.2,
          rw (promote_branch, swapped, erase_chain_undefined tip.id pushed.forest) refl,
        )
