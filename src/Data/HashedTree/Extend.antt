-- ===== src/Data/HashedTree/Extend.antt =====
-- What the addition of nodes leaves of a path from a leaf.
use hornet.Common.{
  ℕ, suc, ◌<◌, ◌≡◌, refl, List, [], ◌∷◌, ◌++◌, Option, none, some, true, false, bytes_eq, arith,
}
use hornet.Data.HashedTree.{Node, HashedTree, has_child, is_leaf, add_child, up_from_node}
use hornet.Data.HashedTree.Paths.{
  IsFound, IsPath, node_at-append, map_find-set, up_from_node-IsPath,
}
use hornet.Protocol.Transaction.{Hash}

has_child-append :
    (children more : List (ℕ × ℕ)) (id : ℕ)
    → has_child id children ≡ false
    → has_child id more ≡ false
    → has_child id (children ++ more) ≡ false
unfolding has_child
has_child-append [] more id h k = k
has_child-append ((p, c) ∷ children) more id h k = ground (arith, has_child-append children more id)

single_child : (p c id : ℕ) → id < p → has_child id ((p, c) ∷ []) ≡ false
unfolding has_child
single_child p c id lt = ground arith

module _ {D : Type 0} where
  -- A path that starts at a leaf, in a tree that can be walked and extended.
  abbrev pub IsBranch : HashedTree D → Node D → List (Node D) → Type 0
  IsBranch t n up = IsPath t (n ∷ up) × (has_child n.id t.children ≡ false) × (n.id < t.next_id)

  -- No node of the path has the hash.
  abbrev pub IsFresh : Hash → List (Node D) → Type 0
  IsFresh hash [] = Unit {0}
  IsFresh hash (n ∷ up) = (bytes_eq hash n.hash ≡ false) × IsFresh hash up

  -- A place for a new node: a root, or under a later node than the path's.
  abbrev pub IsPlace : HashedTree D → Node D → Option ℕ → Type 0
  IsPlace t n none = Unit {0}
  IsPlace t n (some p) = (n.id < p) × (p < t.next_id)

  module _ (get_hash : D → Hash) (t : HashedTree D) (parent : Option ℕ) (value : D) where
    add_child-IsFound :
        (n : Node D)
        → bytes_eq (get_hash value) n.hash ≡ false
        → IsFound t n
        → IsFound (add_child get_hash parent value t).1 n
    unfolding add_child
    add_child-IsFound n fresh h = (
      node_at-append t.nodes _ n.id n h.0,
      map_find-set t.index (get_hash value) n.hash n.id t.next_id fresh h.1,
    )

    add_child-IsPath :
        (n : Node D) (up : List (Node D))
        → IsFresh (get_hash value) (n ∷ up)
        → IsPath t (n ∷ up)
        → IsPath (add_child get_hash parent value t).1 (n ∷ up)
    add_child-IsPath n [] fresh h = (add_child-IsFound n fresh.0 h.0, h.1)
    add_child-IsPath n (m ∷ up) fresh h =
        (add_child-IsFound n fresh.0 h.0, h.1, h.2, add_child-IsPath m up fresh.1 h.3)

  pub add_child-IsBranch :
      (get_hash : D → Hash) (t : HashedTree D) (parent : Option ℕ) (value : D) (n : Node D)
      (up : List (Node D))
      → IsPlace t n parent
      → IsFresh (get_hash value) (n ∷ up)
      → IsBranch t n up
      → IsBranch (add_child get_hash parent value t).1 n up
  unfolding add_child
  add_child-IsBranch get_hash t none value n up place fresh b =
      (add_child-IsPath get_hash t none value n up fresh b.0, b.1, omega (arith, b.2))
  add_child-IsBranch get_hash t (some p) value n up place fresh b = (
    add_child-IsPath get_hash t (some p) value n up fresh b.0,
    has_child-append t.children ((p, t.next_id) ∷ []) n.id b.1
        (single_child p t.next_id n.id (omega (arith, place.0))),
    omega (arith, b.2),
  )

  -- The walk up from the leaf.
  pub up_from_node-IsBranch :
      (t : HashedTree D) (n : Node D) (up : List (Node D))
      → IsBranch t n up
      → up_from_node (suc n.id) t.nodes n.id ≡ some (n ∷ up)
  up_from_node-IsBranch t n up b = up_from_node-IsPath t (suc n.id) n up b.0 (omega arith)

  pub is_leaf-IsBranch :
      (t : HashedTree D) (n : Node D) (up : List (Node D)) → IsBranch t n up → is_leaf n.id t ≡ true
  unfolding is_leaf
  is_leaf-IsBranch t n up b = rw b.1 refl
