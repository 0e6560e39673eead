-- ===== src/Data/HashedTree.antt =====
-- src/hornetlib/data/hashed_tree.h: nodes in the order of their addition, with an index of hashes and
-- an index of children. A pointer to a node is a number that no other node has had.
pub mod Paths
pub mod Extend
use hornet.Common.{
  ℕ, zero, suc, List, [], ◌∷◌, ◌++◌, length, Option, none, some, Bool, true, false, not, bytes_eq,
  ◌==◌, if◌then◌else◌,
}
use hornet.Protocol.Transaction.{Hash}

pub record Node (D : Type 0) : Type 0 where
  pub id : ℕ
  pub parent : Option ℕ
  pub hash : Hash
  pub value : D

-- list_, map_ and child_map_, and the number of the next node.
pub record HashedTree (D : Type 0) : Type 0 where
  pub nodes : List (Node D)
  pub index : List (Hash × ℕ)
  pub children : List (ℕ × ℕ)
  pub next_id : ℕ

unfoldable pub map_find : List (Hash × ℕ) → Hash → Option ℕ
map_find [] hash = none
map_find ((h, id) ∷ rest) hash = if bytes_eq h hash then some id else map_find rest hash

-- `map_[hash] = it`, and `map_.erase(hash)`.
unfoldable pub map_set : List (Hash × ℕ) → Hash → ℕ → List (Hash × ℕ)
map_set [] hash id = (hash, id) ∷ []
map_set ((h, i) ∷ rest) hash id =
    if bytes_eq h hash then (h, id) ∷ rest else (h, i) ∷ map_set rest hash id

unfoldable pub map_erase : List (Hash × ℕ) → Hash → List (Hash × ℕ)
map_erase [] hash = []
map_erase ((h, i) ∷ rest) hash =
    if bytes_eq h hash then map_erase rest hash else (h, i) ∷ map_erase rest hash

unfoldable pub has_child : ℕ → List (ℕ × ℕ) → Bool
has_child id [] = false
has_child id ((p, c) ∷ rest) = if p == id then true else has_child id rest

unfoldable pub is_child_of : ℕ → ℕ → List (ℕ × ℕ) → Bool
is_child_of p id [] = false
is_child_of p id ((q, c) ∷ rest) =
    if q == p then (if c == id then true else is_child_of p id rest) else is_child_of p id rest

-- `child_map_.erase(key)`, and the erasure of one entry.
unfoldable pub erase_key : ℕ → List (ℕ × ℕ) → List (ℕ × ℕ)
erase_key p [] = []
erase_key p ((q, c) ∷ rest) = if q == p then erase_key p rest else (q, c) ∷ erase_key p rest

unfoldable pub erase_entry : ℕ → ℕ → List (ℕ × ℕ) → List (ℕ × ℕ)
erase_entry p id [] = []
erase_entry p id ((q, c) ∷ rest) =
    if q == p
    then (if c == id then rest else (q, c) ∷ erase_entry p id rest)
    else (q, c) ∷ erase_entry p id rest

module _ {D : Type 0} where
  abbrev pub empty_tree : HashedTree D
  empty_tree = record { nodes = []; index = []; children = []; next_id = 0 }

  abbrev pub size : HashedTree D → ℕ
  size t = length t.nodes

  -- The node behind a pointer; `none` for one that dangles.
  unfoldable pub node_at : List (Node D) → ℕ → Option (Node D)
  node_at [] id = none
  node_at (n ∷ ns) id = if n.id == id then some n else node_at ns id

  unfoldable pub find : Hash → HashedTree D → Option (Node D)
  unfolding map_find node_at
  find hash t = elim (map_find t.index hash) [ none ↦ none | some id ↦ node_at t.nodes id ]

  unfoldable pub is_leaf : ℕ → HashedTree D → Bool
  unfolding has_child
  is_leaf id t = not (has_child id t.children)

  -- AddChild, with the new node's number.
  unfoldable pub add_child : (D → Hash) → Option ℕ → D → HashedTree D → ℕ × HashedTree D
  unfolding map_set
  add_child get_hash parent value t =
      let hash = get_hash value in
      let node : Node D = record { id = t.next_id; parent = parent; hash = hash; value = value } in
      (
        t.next_id,
        record {
          nodes = t.nodes ++ node ∷ [];
          index = map_set t.index hash t.next_id;
          children = elim parent [ none ↦ t.children | some p ↦ t.children ++ (p, t.next_id) ∷ [] ];
          next_id = suc t.next_id;
        },
      )

  -- A write to the data of the node behind a pointer.
  unfoldable pub update_at : ℕ → (D → D) → List (Node D) → List (Node D)
  update_at id f [] = []
  update_at id f (n ∷ ns) =
      if n.id == id then record n { value = f n.value } ∷ ns else n ∷ update_at id f ns

  -- The nodes the other way round, behind others.
  unfoldable pub reverse_onto : List (Node D) → List (Node D) → List (Node D)
  reverse_onto [] after = after
  reverse_onto (n ∷ ns) after = reverse_onto ns (n ∷ after)

  -- `list_.erase(it)`.
  unfoldable pub list_erase : List (Node D) → ℕ → List (Node D)
  list_erase [] id = []
  list_erase (n ∷ ns) id = if n.id == id then ns else n ∷ list_erase ns id

  -- The children of a node become roots.
  unfoldable pub orphan : ℕ → List (ℕ × ℕ) → List (Node D) → List (Node D)
  unfolding is_child_of
  orphan p children [] = []
  orphan p children (n ∷ ns) =
      (if is_child_of p n.id children then record n { parent = none } else n) ∷ orphan p children ns

  unfoldable pub forget_parent : Node D → List (ℕ × ℕ) → List (ℕ × ℕ)
  unfolding erase_entry
  forget_parent n children = elim n.parent [
    | none ↦ children
    | some p ↦ erase_entry p n.id children
  ]

  -- Erase: out of its parent's children, its own children become roots, and it goes.
  unfoldable pub erase : Node D → HashedTree D → HashedTree D
  unfolding forget_parent orphan erase_key map_erase list_erase
  erase n t =
      let children = forget_parent n t.children in
      record t {
        nodes = list_erase (orphan n.id children t.nodes) n.id;
        index = map_erase t.index n.hash;
        children = erase_key n.id children;
      }

  -- The first half of a step of EraseChain: all children of the parent become roots.
  unfoldable pub orphan_siblings : Option ℕ → HashedTree D → HashedTree D
  unfolding orphan erase_key
  orphan_siblings none t = t
  orphan_siblings (some p) t = record t {
    nodes = orphan p t.children t.nodes;
    children = erase_key p t.children;
  }

  -- A read through an iterator to an entry that is erased: C++ leaves it undefined.
  abbrev pub read_erased : HashedTree D → Option ℕ
  read_erased t = none

  -- The second half: the entry of the index goes, and then the node at the position that is read
  -- through the iterator to that entry.
  unfoldable pub unlink : Hash → HashedTree D → Option (HashedTree D)
  unfolding map_erase list_erase
  unlink hash t =
      let t' : HashedTree D = record t { index = map_erase t.index hash } in
      elim (read_erased t') [
        | none ↦ none
        | some id ↦ some (record t' { nodes = list_erase t'.nodes id })
      ]

  unfoldable pub erase_link : Node D → HashedTree D → Option (HashedTree D)
  unfolding orphan_siblings unlink
  erase_link n t = unlink n.hash (orphan_siblings n.parent t)

  -- The loop of EraseChain, on fuel.
  unfoldable pub erase_chain_loop : ℕ → ℕ → HashedTree D → Option (HashedTree D)
  unfolding node_at erase_link
  erase_chain_loop zero id t = none
  erase_chain_loop (suc fuel) id t = elim (node_at t.nodes id) [
    | none ↦ none
    | some n ↦ elim (erase_link n t) [
      | none ↦ none
      | some t' ↦ elim n.parent [ none ↦ some t' | some p ↦ erase_chain_loop fuel p t' ]
    ]
  ]

  unfoldable pub erase_chain : ℕ → HashedTree D → Option (HashedTree D)
  unfolding is_leaf erase_chain_loop
  erase_chain leaf t = if is_leaf leaf t then erase_chain_loop (suc leaf) leaf t else none

  -- UpFromNode: a node and its ancestors, the last of which is a root.
  unfoldable pub up_from_node : ℕ → List (Node D) → ℕ → Option (List (Node D))
  unfolding node_at
  up_from_node zero ns id = none
  up_from_node (suc fuel) ns id = elim (node_at ns id) [
    | none ↦ none
    | some n ↦ elim n.parent [
      | none ↦ some (n ∷ [])
      | some p ↦ elim (up_from_node fuel ns p) [ none ↦ none | some up ↦ some (n ∷ up) ]
    ]
  ]
