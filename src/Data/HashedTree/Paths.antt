-- ===== src/Data/HashedTree/Paths.antt =====
-- Paths from a node to its root, which the walk up finds, and the read of EraseChain.
use hornet.Common.{
  option_split, if_split, ℕ, zero, suc, ◌<◌, ◌≡◌, refl, List, [], ◌∷◌, ◌++◌, none, some, false,
  bytes_eq, arith, bytes_eq→eq,
}
use hornet.Data.HashedTree.{
  Node, HashedTree, node_at, map_find, map_set, is_leaf, unlink, erase_link, erase_chain_loop,
  erase_chain, up_from_node,
}
use hornet.Protocol.Transaction.{Hash}

module _ {D : Type 0} where
  -- A node that its number and its hash lead to.
  abbrev pub IsFound : HashedTree D → Node D → Type 0
  IsFound t n = (node_at t.nodes n.id ≡ some n) × (map_find t.index n.hash ≡ some n.id)

  -- A node, its parent, and so on to a root.
  abbrev pub IsPath : HashedTree D → List (Node D) → Type 0
  IsPath t [] = ⊥
  IsPath t (n ∷ []) = IsFound t n × (n.parent ≡ none)
  IsPath t (n ∷ (m ∷ up)) = IsFound t n × (n.parent ≡ some m.id) × (m.id < n.id) × IsPath t (m ∷ up)

  -- The walk up gives the path.
  pub up_from_node-IsPath :
      (t : HashedTree D) (fuel : ℕ) (n : Node D) (up : List (Node D))
      → IsPath t (n ∷ up)
      → n.id < fuel
      → up_from_node fuel t.nodes n.id ≡ some (n ∷ up)
  unfolding up_from_node
  up_from_node-IsPath t zero n up h lt = elim lt [ ]
  up_from_node-IsPath t (suc fuel) n [] h lt = ground arith
  up_from_node-IsPath t (suc fuel) n (m ∷ up) h lt =
      ground (arith, up_from_node-IsPath t fuel m up h.3 (omega (arith, h.2)))

  pub node_at-append :
      (ns ms : List (Node D)) (i : ℕ) (n : Node D)
      → node_at ns i ≡ some n
      → node_at (ns ++ ms) i ≡ some n
  unfolding node_at
  node_at-append [] ms i n e = cc
  node_at-append (m ∷ ns) ms i n e = ground (arith, node_at-append ns ms i n)

pub map_find-set :
    (index : List (Hash × ℕ)) (h u : Hash) (i j : ℕ)
    → bytes_eq h u ≡ false
    → map_find index u ≡ some i
    → map_find (map_set index h j) u ≡ some i
unfolding map_find map_set
map_find-set [] h u i j ne e = cc
map_find-set ((k, l) ∷ index) h u i j ne e =
    ground (arith, map_find-set index h u i j ne, bytes_eq→eq k h)

module _ {D : Type 0} where
  erase_link_undefined : (n : Node D) (t : HashedTree D) → erase_link n t ≡ none
  unfolding erase_link unlink
  erase_link_undefined n t = refl

  erase_chain_loop_undefined : (fuel id : ℕ) (t : HashedTree D) → erase_chain_loop fuel id t ≡ none
  unfolding erase_chain_loop
  erase_chain_loop_undefined zero id t = refl
  erase_chain_loop_undefined (suc fuel) id t =
      option_split (λ r. r ≡ none) (node_at t.nodes id) none _ refl
        (λ n e. rw (erase_link_undefined n t) refl)

  -- EraseChain reaches the undefined read with its first node, or fails its assertion.
  pub erase_chain_undefined : (leaf : ℕ) (t : HashedTree D) → erase_chain leaf t ≡ none
  unfolding erase_chain
  erase_chain_undefined leaf t =
      if_split (λ r. r ≡ none) (is_leaf leaf t) _ none
        (λ _. erase_chain_loop_undefined (suc leaf) leaf t) (λ _. refl)
