-- ===== src/Data/ChainTree.antt =====
-- src/hornetlib/data/chain_tree.h: a chain with a forest of forks. The data and the contexts are any
-- types; Parts says what a context holds, and Policy how one is made from its neighbour's.
pub mod Promote
use hornet.Common.{
  ℕ, zero, suc, ◌+◌, ◌-◌, List, [], ◌∷◌, ◌++◌, length, take, drop, get_elem?, Option, none, some,
  Bool, true, false, not, ◌&&◌, ◌||◌, ltb, leb, ◌==◌, bytes_eq, if◌then◌else◌,
}
use hornet.Common.Int.{ℤ, pos, negsuc, sub_ℕ}
use hornet.Data.HashedTree.{
  Node, HashedTree, node_at, is_leaf, erase, erase_chain, up_from_node, reverse_onto,
}
use hornet.Data.HashedTree
use hornet.Data.Locator.{Locator, in_chain, in_forest, child_height}
use hornet.Protocol.Transaction.{Hash}

pub record Parts (D C : Type 0) : Type 0 where
  pub data_of : C → D
  pub hash_of : C → Hash
  pub height_of : C → ℕ

-- Extend and Rewind; `none` where they throw or fail an assertion.
pub record Policy (D C : Type 0) : Type 0 where
  pub extend : C → D → Option C
  pub rewind : C → D → Option C

pub record NodeData (C : Type 0) : Type 0 where
  pub context : C
  pub root_height : ℕ

-- chain_tip_context_ has no value before the first element. No root has the greatest integer, which
-- min_root_height_ starts with: `none`.
pub record ChainTree (D C : Type 0) : Type 0 where
  pub chain : List D
  pub chain_tip_context : Option C
  pub forest : HashedTree (NodeData C)
  pub min_root_height : Option ℕ

-- AncestorIterator: a node of the forest, or a height of the chain.
pub record Iterator : Type 0 where
  pub node : Option ℕ
  pub chain_height : ℤ

abbrev pub null_iterator : Iterator
null_iterator = record { node = none; chain_height = negsuc 0 }

abbrev pub begin_chain : ℤ → Iterator
begin_chain (pos h) = record { node = none; chain_height = pos h }
begin_chain (negsuc n) = null_iterator

abbrev pub begin_forest : Option ℕ → Iterator
begin_forest node = record { node = node; chain_height = negsuc 0 }

-- A height is the last of so many.
abbrev pub is_tip_height : ℤ → ℕ → Bool
is_tip_height h n = elim (child_height h) [ none ↦ false | some k ↦ k == n ]

abbrev pub is_in_tree : Iterator → Bool
is_in_tree it = elim it.node [ none ↦ false | some id ↦ true ]

abbrev pub is_below : ℤ → ℕ → Bool
is_below (pos h) n = ltb h n
is_below (negsuc k) n = false

-- The lesser of a height and the least so far.
abbrev pub lesser : Option ℕ → ℕ → Option ℕ
lesser none h = some h
lesser (some m) h = some (if ltb h m then h else m)

abbrev pub height_below : ℤ → ℤ
height_below (pos zero) = negsuc 0
height_below (pos (suc h)) = pos h
height_below (negsuc n) = negsuc (suc n)

abbrev pub make_locator : Iterator → Hash → Locator
make_locator it hash = if is_in_tree it then in_forest hash else in_chain it.chain_height

abbrev pub is_at_least : Option ℕ → ℕ → Bool
is_at_least none h = true
is_at_least (some m) h = leb h m

-- The loop of PruneForest over the nodes in their order, with the least root height of those kept.
unfoldable pub prune_loop :
    {C : Type 0}
    → ℕ
    → List (Node (NodeData C))
    → Option ℕ
    → HashedTree (NodeData C)
    → Option ℕ × HashedTree (NodeData C)
unfolding erase node_at
prune_loop keep [] least forest = (least, forest)
prune_loop keep (n ∷ ns) least forest = elim (ltb n.value.root_height keep) [
  | true ↦
      prune_loop keep ns least
        (elim (node_at forest.nodes n.id) [ none ↦ forest | some m ↦ erase m forest ])
  | false ↦ prune_loop keep ns (lesser least n.value.root_height) forest
]

module _ {D C : Type 0} where
  abbrev pub is_in_chain : ChainTree D C → Iterator → Bool
  is_in_chain t it = is_below it.chain_height (length t.chain)

  abbrev pub is_valid : ChainTree D C → Iterator → Bool
  is_valid t it = is_in_chain t it || is_in_tree it

  abbrev pub chain_tip_height : ChainTree D C → ℤ
  chain_tip_height t = sub_ℕ (length t.chain) 1

  -- Empty and Size.
  abbrev pub is_empty : ChainTree D C → Bool
  is_empty t = length t.chain == 0

  abbrev pub size : ChainTree D C → ℕ
  size t = length t.chain + HashedTree.size t.forest

  unfoldable pub push_to_chain : (C → D) → C → ChainTree D C → ChainTree D C
  push_to_chain data_of context t = record t {
    chain = t.chain ++ data_of context ∷ [];
    chain_tip_context = some context;
  }

  abbrev pub chain_element : ChainTree D C → ℤ → Option D
  chain_element t (pos h) = get_elem? t.chain h
  chain_element t (negsuc n) = none

  -- PruneForest: forks whose root is deeper than the depth go. No root stands below a negative height.
  unfoldable pub prune_forest : ChainTree D C → ℕ → ChainTree D C
  unfolding prune_loop
  prune_forest t max_keep_depth =
      let keep = length t.chain - suc max_keep_depth in
      if (length t.forest.nodes == 0) || is_at_least t.min_root_height keep
      then t
      else (let pruned = prune_loop keep t.forest.nodes none t.forest in
          record t { forest = pruned.1; min_root_height = pruned.0 })

module _ {D C : Type 0} (parts : Parts D C) where
  open parts use {data_of, hash_of, height_of}

  -- AddChild: a root takes its own height for the root height, a child its parent's.
  unfoldable pub add_node : ℕ → Option ℕ → C → ChainTree D C → ℕ × ChainTree D C
  unfolding HashedTree.add_child
  add_node root_height parent context t =
      let child =
        HashedTree.add_child (λ (d : NodeData C). hash_of d.context) parent
          (record { context = context; root_height = root_height }) t.forest in
      (
        child.0,
        record t { forest = child.1; min_root_height = lesser t.min_root_height root_height },
      )

  unfoldable pub add_child : Option ℕ → C → ChainTree D C → Option (ℕ × ChainTree D C)
  unfolding add_node node_at
  add_child none context t = some (add_node (height_of context) none context t)
  add_child (some p) context t = elim (node_at t.forest.nodes p) [
    | none ↦ none
    | some n ↦ some (add_node n.value.root_height (some p) context t)
  ]

  -- The tests of Add that throw, but for the last, which no iterator in the chain meets: a parent that is nowhere, in both places, or not below the element.
  unfoldable pub is_refused : ChainTree D C → Iterator → C → Bool
  unfolding child_height
  is_refused t parent context =
      (not (is_valid t parent) && not (is_empty t))
      || (is_in_chain t parent && is_in_tree parent)
      || (is_in_chain t parent && not (is_tip_height parent.chain_height (height_of context)))

  unfoldable pub add : ChainTree D C → Iterator → C → Option (Iterator × ChainTree D C)
  unfolding is_refused child_height push_to_chain add_child
  add t parent context =
      if is_refused t parent context
      then none
      else if is_tip_height parent.chain_height (length t.chain)
      then some (begin_chain (pos (length t.chain)), push_to_chain data_of context t)
      else elim (add_child parent.node context t) [
        | none ↦ none
        | some (id, t') ↦ some (begin_forest (some id), t')
      ]

  -- ChainTip: where the last element stands, and its context.
  unfoldable pub chain_tip : ChainTree D C → Iterator × Option C
  chain_tip t =
      if is_empty t
      then (null_iterator, none)
      else (begin_chain (chain_tip_height t), t.chain_tip_context)

  abbrev pub is_tip_hash : ChainTree D C → Hash → Bool
  is_tip_hash t hash = elim t.chain_tip_context [
    | none ↦ false
    | some c ↦ bytes_eq (hash_of c) hash
  ]

  -- FindTipOrForks, among the tip of the chain and the nodes of the forest.
  unfoldable pub find_tip_or_forks : ChainTree D C → Hash → Iterator × Option C
  unfolding HashedTree.find
  find_tip_or_forks t hash =
      if not (is_empty t) && is_tip_hash t hash
      then (begin_chain (chain_tip_height t), t.chain_tip_context)
      else elim (HashedTree.find hash t.forest) [
        | none ↦ (null_iterator, none)
        | some n ↦ (begin_forest (some n.id), some n.value.context)
      ]

  -- Find, by a locator.
  unfoldable pub find : ChainTree D C → Locator → Iterator
  unfolding HashedTree.find
  find t (in_chain h) = begin_chain h
  find t (in_forest hash) =
      begin_forest (elim (HashedTree.find hash t.forest) [ none ↦ none | some n ↦ some n.id ])

  -- TryGet, and the operator * where a throw is `none`.
  unfoldable pub try_get : ChainTree D C → Iterator → Option D
  unfolding node_at
  try_get t it = if is_in_chain t it then chain_element t it.chain_height else elim it.node [
    | none ↦ none
    | some id ↦ elim (node_at t.forest.nodes id) [
      | none ↦ none
      | some n ↦ some (data_of n.value.context)
    ]
  ]

  unfoldable pub get_height : ChainTree D C → Iterator → Option ℤ
  unfolding node_at
  get_height t it = elim it.node [
    | none ↦ some it.chain_height
    | some id ↦ elim (node_at t.forest.nodes id) [
      | none ↦ none
      | some n ↦ some (pos (height_of n.value.context))
    ]
  ]

  -- The operator ++: to the parent, and from a root to the chain.
  unfoldable pub next_ancestor : ChainTree D C → Iterator → Option Iterator
  unfolding node_at
  next_ancestor t it = elim it.node [
    | none ↦
        some (
          if is_in_chain t it
          then record it { chain_height = height_below it.chain_height }
          else it)
    | some id ↦ elim (node_at t.forest.nodes id) [
      | none ↦ none
      | some n ↦ elim n.parent [
        | none ↦ some (record { node = none; chain_height = sub_ℕ (height_of n.value.context) 1 })
        | some p ↦ some (record it { node = some p })
      ]
    ]
  ]

  -- The walk of GetAncestorAtHeight over a path.
  unfoldable pub at_height_on : ℕ → List (Node (NodeData C)) → Option D
  at_height_on h [] = none
  at_height_on h (n ∷ up) =
      if height_of n.value.context == h then some (data_of n.value.context) else at_height_on h up

  unfoldable pub get_ancestor_at_height : ChainTree D C → Iterator → ℕ → Option D
  unfolding node_at up_from_node at_height_on
  get_ancestor_at_height t tip h =
      if is_in_chain t tip then get_elem? t.chain h else elim tip.node [
        | none ↦ none
        | some id ↦ elim (node_at t.forest.nodes id) [
          | none ↦ none
          | some n ↦
              if ltb h n.value.root_height
              then get_elem? t.chain h
              else elim (up_from_node (suc id) t.forest.nodes id) [
                | none ↦ none
                | some up ↦ at_height_on h up
              ]
        ]
      ]

  -- The elements of the old chain from the fork on become a branch of the forest.
  unfoldable pub copy_old_chain :
      Policy D C → List D → C → Option ℕ → ChainTree D C → Option (List Hash × ChainTree D C)
  unfolding add_child
  copy_old_chain policy [] context parent t = some ([], t)
  copy_old_chain policy (d ∷ ds) context parent t = elim (policy.extend context d) [
    | none ↦ none
    | some context' ↦ elim (add_child parent context' t) [
      | none ↦ none
      | some (id, t') ↦ elim (copy_old_chain policy ds context' (some id) t') [
        | none ↦ none
        | some (hashes, t'') ↦ some (hash_of context' ∷ hashes, t'')
      ]
    ]
  ]

  unfoldable pub push_branch : List (Node (NodeData C)) → ChainTree D C → ChainTree D C
  unfolding push_to_chain
  push_branch [] t = t
  push_branch (n ∷ branch) t = push_branch branch (push_to_chain data_of n.value.context t)

  -- PromoteBranch between the walk to the root and EraseChain: the branch stands root first.
  unfoldable pub swap_nodes :
      Policy D C
      → List (Node (NodeData C))
      → ChainTree D C
      → Option ((Iterator × List Hash) × ChainTree D C)
  unfolding copy_old_chain push_branch chain_tip
  swap_nodes policy [] t = none
  swap_nodes policy (root ∷ branch) t =
      let h = height_of root.value.context in
      elim (chain_element t (sub_ℕ h 1)) [
        | none ↦ none
        | some below ↦ elim (policy.rewind root.value.context below) [
          | none ↦ none
          | some fork ↦
              if not (ltb (suc (height_of fork)) (length t.chain))
              then none
              else elim (copy_old_chain policy (drop h t.chain) fork none t) [
                | none ↦ none
                | some (hashes, t') ↦
                    let pushed =
                      push_branch (root ∷ branch)
                        (record t' { chain = take h t.chain; chain_tip_context = some fork }) in
                    some (((chain_tip pushed).0, hashes), pushed)
              ]
        ]
      ]

  -- PromoteBranch of a node of the forest up to EraseChain: the branches below the fork have changed
  -- places, and the forest still has the promoted nodes.
  unfoldable pub swap_branches :
      Policy D C → ℕ → ChainTree D C → Option ((Iterator × List Hash) × ChainTree D C)
  unfolding is_leaf up_from_node reverse_onto swap_nodes
  swap_branches policy id t =
      if not (is_leaf id t.forest) then none else elim (up_from_node (suc id) t.forest.nodes id) [
        | none ↦ none
        | some up ↦ swap_nodes policy (reverse_onto up []) t
      ]

  unfoldable pub promote_branch :
      ChainTree D C → Iterator → Policy D C → Option ((Iterator × List Hash) × ChainTree D C)
  unfolding swap_branches erase_chain
  promote_branch t tip policy = if is_in_chain t tip then some ((tip, []), t) else elim tip.node [
    | none ↦ none
    | some id ↦ elim (swap_branches policy id t) [
      | none ↦ none
      | some (result, t') ↦ elim (erase_chain id t'.forest) [
        | none ↦ none
        | some forest ↦ some (result, record t' { forest = forest })
      ]
    ]
  ]
