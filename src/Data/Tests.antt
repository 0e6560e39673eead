-- ===== src/Data/Tests.antt =====
-- The sidecar of src/hornetlib/data/keyframe_sidecar.h at a chain of six elements and a fork of two.
use hornet.Common.{
  ℕ, ◌≡◌, refl, List, [], ◌∷◌, none, some, Bool, true, ltb, ◌==◌, arith, if◌then◌else◌, get_elem?,
  ◌-◌, ==_iff, bytes_eq,
}
use hornet.Common.Int.{pos, sub_ℕ}
use hornet.Data.HashedTree.{Node, node_at, map_find, has_child, reverse_onto}
use hornet.Data.HashedTree.Extend.{IsBranch}
use hornet.Data.KeyframeSidecar.{
  NodeData, KeyframeSidecar, get, set, add_sync, find_in_chain_if, promote_branch, swap_branches,
}
use hornet.Data.KeyframeSidecar.Find.{IsFirst, find_in_chain_if-IsFirst}
use hornet.Data.KeyframeSidecar.Promote.{AreFresh, swap_branches-get}
use hornet.Data.KeyframeSidecar.Reads.{IsCovered, set-get, add_sync-get}
use hornet.Data.Locator.{in_chain}

-- The children's index of a fork of two.
abbrev fork_children : List (ℕ × ℕ)
fork_children = (0, 1) ∷ []

-- The values 0 0 0 7 9 9; the fork stands over the element at height 3.
abbrev root : Node (NodeData ℕ)
root = record {
  id = 0;
  parent = none;
  hash = 40 ∷ [];
  value = record { value = 5; hash = 40 ∷ []; height = 4 };
}

abbrev tip : Node (NodeData ℕ)
tip = record {
  id = 1;
  parent = some 0;
  hash = 50 ∷ [];
  value = record { value = 6; hash = 50 ∷ []; height = 5 };
}

abbrev sidecar : KeyframeSidecar ℕ
sidecar = record {
  default_value = 0;
  chain_length = 6;
  keyframes =
      record { start = 0; value = 0 }
      ∷ record { start = 3; value = 7 }
      ∷ record { start = 4; value = 9 }
      ∷ [];
  forks = record {
    nodes = root ∷ tip ∷ [];
    index = (40 ∷ [], 0) ∷ (50 ∷ [], 1) ∷ [];
    children = fork_children;
    next_id = 2;
  };
}

sidecar-IsCovered : IsCovered sidecar
sidecar-IsCovered = (refl, omega arith, (omega arith, omega arith, (omega arith, omega arith, tt)))

abbrev same : ℕ → ℕ → Bool
same a b = a == b

same_sound : (a b : ℕ) → same a b ≡ true → a ≡ b
same_sound a b = (==_iff a b).0

fork-IsBranch : IsBranch sidecar.forks tip (root ∷ [])
unfolding node_at map_find has_child bytes_eq
fork-IsBranch = (((refl, refl), refl, omega arith, ((refl, refl), refl)), refl, omega arith)

fork_reversed : reverse_onto (tip ∷ root ∷ []) [] ≡ root ∷ tip ∷ []
unfolding reverse_onto
fork_reversed = refl

moved_fresh : AreFresh ((41 ∷ []) ∷ (51 ∷ []) ∷ []) (tip ∷ root ∷ [])
unfolding bytes_eq
moved_fresh = ((refl, (refl, tt)), ((refl, (refl, tt)), tt))

set-get_example :
    (s' : KeyframeSidecar ℕ) × (set same sidecar (in_chain (pos 4)) 7 ≡ some s')
    × IsCovered s'
    × (s'.chain_length ≡ 6)
    × (s'.forks ≡ sidecar.forks)
    × ((h : ℕ)
        → get s' (in_chain (pos h)) ≡ (if h == 4 then some 7 else get sidecar (in_chain (pos h))))
set-get_example = set-get same same_sound sidecar 4 7 sidecar-IsCovered (omega arith)

add_sync-get_example :
    (s' : KeyframeSidecar ℕ) × (add_sync same sidecar
        (record { parent = in_chain (sub_ℕ 6 1); hash = 60 ∷ []; moved_from_chain = [] })
      ≡ some s')
    × IsCovered s'
    × (s'.chain_length ≡ 7)
    × (s'.forks ≡ sidecar.forks)
    × (s'.default_value ≡ 0)
    × ((h : ℕ)
        → get s' (in_chain (pos h)) ≡ (if h == 6 then some 0 else get sidecar (in_chain (pos h))))
add_sync-get_example = add_sync-get same same_sound sidecar (60 ∷ []) sidecar-IsCovered

find_in_chain_if-IsFirst_example :
    IsFirst
      (λ v. v == 7)
      (λ x. get sidecar (in_chain (pos x)))
      1
      6
      (find_in_chain_if sidecar 1 (λ v. v == 7))
find_in_chain_if-IsFirst_example =
    find_in_chain_if-IsFirst (λ v. v == 7) sidecar 1 sidecar-IsCovered (omega arith)

swap_branches-get_example :
    (s' : KeyframeSidecar ℕ) × (swap_branches same sidecar 1 ((41 ∷ []) ∷ (51 ∷ []) ∷ []) ≡ some s')
    × IsCovered s'
    × (s'.chain_length ≡ 6)
    × ((x : ℕ)
        → get s' (in_chain (pos x))
          ≡ (if ltb x 4 then get sidecar (in_chain (pos x)) else get_elem? (5 ∷ 6 ∷ []) (x - 4)))
    × IsBranch s'.forks tip (root ∷ [])
    × (promote_branch same sidecar 1 ((41 ∷ []) ∷ (51 ∷ []) ∷ []) ≡ none)
swap_branches-get_example =
    swap_branches-get same same_sound sidecar ((41 ∷ []) ∷ (51 ∷ []) ∷ []) tip root (root ∷ [])
      (tip ∷ []) sidecar-IsCovered fork-IsBranch fork_reversed (refl, tt) (omega arith) refl
      moved_fresh
