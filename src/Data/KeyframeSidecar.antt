-- ===== src/Data/KeyframeSidecar.antt =====
-- src/hornetlib/data/keyframe_sidecar.h: a value for each element of the tree, in the main chain as
-- runs. A position in the vector of keyframes is the keyframes before it, the nearest first, and
-- those from it on.
mod Chain
mod Assign
pub mod Reads
pub mod Promote
pub mod Find
use hornet.Common.{
  ℕ, zero, suc, ◌+◌, List, [], ◌∷◌, length, Option, none, some, Bool, true, false, not, ltb, leb,
  ◌==◌, if◌then◌else◌,
}
use hornet.Common.Int.{pos, negsuc}
use hornet.Data.HashedTree.{
  Node, HashedTree, find, is_leaf, add_child, erase_chain, up_from_node, update_at, reverse_onto,
}
use hornet.Data.Locator.{in_chain, in_forest, Locator, child_height, SidecarAddSync}
use hornet.Protocol.Transaction.{Hash}

pub record Keyframe (T : Type 0) : Type 0 where
  pub start : ℕ
  pub value : T

pub record NodeData (T : Type 0) : Type 0 where
  pub value : T
  pub hash : Hash
  pub height : ℕ

pub record KeyframeSidecar (T : Type 0) : Type 0 where
  pub default_value : T
  pub chain_length : ℕ
  pub keyframes : List (Keyframe T)
  pub forks : HashedTree (NodeData T)

module _ {T : Type 0} where
  -- The vector seen from one of its positions.
  unfoldable pub rebuild : List (Keyframe T) → List (Keyframe T) → List (Keyframe T)
  rebuild [] after = after
  rebuild (k ∷ before) after = rebuild before (k ∷ after)

  -- FirstKeyframeAfter: `std::upper_bound`, over the keyframes that it has passed.
  unfoldable pub first_keyframe_after :
      ℕ → List (Keyframe T) → List (Keyframe T) → List (Keyframe T) × List (Keyframe T)
  first_keyframe_after height before [] = (before, [])
  first_keyframe_after height before (k ∷ after) =
      let rest = first_keyframe_after height (k ∷ before) after in
      if ltb height k.start then (before, k ∷ after) else rest

  -- The keyframe before a position; `none` where there is none before it.
  unfoldable pub value_before : List (Keyframe T) × List (Keyframe T) → Option T
  value_before ([], after) = none
  value_before (k ∷ before, after) = some k.value

  -- Get. A null pointer is `none`, and so is the undefined step before the first keyframe.
  unfoldable pub get : KeyframeSidecar T → Locator → Option T
  unfolding find value_before first_keyframe_after
  get s (in_chain (negsuc n)) = none
  get s (in_chain (pos height)) =
      if leb s.chain_length height
      then none
      else value_before (first_keyframe_after height [] s.keyframes)
  get s (in_forest hash) = elim (find hash s.forks) [ none ↦ none | some n ↦ some n.value.value ]

  abbrev pub next_start : ℕ → List (Keyframe T) → ℕ
  next_start end [] = end
  next_start end (k ∷ after) = k.start

  -- FindInChainIf: the first height from a given one whose value the predicate takes.
  unfoldable pub find_keyframe : (T → Bool) → ℕ → List (Keyframe T) → Option ℕ
  find_keyframe predicate first [] = none
  find_keyframe predicate first (k ∷ after) =
      if predicate k.value
      then some (if ltb first k.start then k.start else first)
      else find_keyframe predicate first after

  unfoldable pub find_from : (T → Bool) → ℕ → List (Keyframe T) × List (Keyframe T) → Option ℕ
  unfolding find_keyframe
  find_from predicate first ([], after) = none
  find_from predicate first (k ∷ before, after) = find_keyframe predicate first (k ∷ after)

  abbrev pub is_before_keyframes : ℕ → List (Keyframe T) → Bool
  is_before_keyframes height [] = true
  is_before_keyframes height (k ∷ after) = ltb height k.start

  -- Without a keyframe before the height, the source steps before the first one where the default
  -- value does not fit: `none` here.
  unfoldable pub find_in_chain_if : KeyframeSidecar T → ℕ → (T → Bool) → Option ℕ
  unfolding first_keyframe_after find_from
  find_in_chain_if s first predicate =
      if leb s.chain_length first
      then none
      else if is_before_keyframes first s.keyframes
      then (if predicate s.default_value then some first else none)
      else find_from predicate first (first_keyframe_after first [] s.keyframes)

  -- The values of the main chain from a height on, as a branch of the forest. The values are read
  -- before the main chain changes.
  unfoldable pub copy_chain :
      KeyframeSidecar T
      → List Hash
      → ℕ
      → Option ℕ
      → HashedTree (NodeData T)
      → Option (HashedTree (NodeData T))
  unfolding get add_child
  copy_chain s [] height parent forks = some forks
  copy_chain s (hash ∷ hashes) height parent forks = elim (get s (in_chain (pos height))) [
    | none ↦ none
    | some v ↦
        let child =
          add_child (λ (d : NodeData T). d.hash) parent
            (record { value = v; hash = hash; height = height }) forks in
        copy_chain s hashes (suc height) (some child.0) child.1
  ]

  -- The keyframes that start below a height.
  abbrev pub keyframes_below : ℕ → List (Keyframe T) → List (Keyframe T)
  keyframes_below zero ks = []
  keyframes_below (suc height) ks = rebuild (first_keyframe_after height [] ks).0 []

  -- The comparison of values is the type's.
  module _ (same : T → T → Bool) where
    abbrev pub is_same_first : T → List (Keyframe T) → Bool
    is_same_first v [] = false
    is_same_first v (k ∷ after) = same v k.value

    abbrev pub without_same_first : T → List (Keyframe T) → List (Keyframe T)
    without_same_first v [] = []
    without_same_first v (k ∷ after) = if same v k.value then after else k ∷ after

    -- A keyframe of one element: it takes the value, and is joined with what is beside it.
    unfoldable pub overwrite :
        T → List (Keyframe T) → Keyframe T → List (Keyframe T) → List (Keyframe T)
    unfolding rebuild
    overwrite v before current after =
        let after' = without_same_first v after in
        if is_same_first v before
        then rebuild before after'
        else rebuild (record { start = current.start; value = v } ∷ before) after'

    -- The first element of a longer keyframe.
    unfoldable pub split_first :
        ℕ → T → List (Keyframe T) → Keyframe T → List (Keyframe T) → List (Keyframe T)
    unfolding rebuild
    split_first height v before current after =
        let rest = record { start = suc height; value = current.value } ∷ after in
        if is_same_first v before
        then rebuild before rest
        else rebuild (record { start = height; value = v } ∷ before) rest

    -- An element within or at the end of a keyframe.
    unfoldable pub split_within :
        ℕ → T → ℕ → List (Keyframe T) → Keyframe T → List (Keyframe T) → List (Keyframe T)
    unfolding rebuild
    split_within height v end before current after =
        let upper = record { start = suc height; value = current.value } ∷ after in
        let after' = if ltb (suc height) end then upper else after in
        rebuild (record { start = height; value = v } ∷ current ∷ before) after'

    unfoldable pub set_at :
        ℕ → T → ℕ → List (Keyframe T) × List (Keyframe T) → Option (List (Keyframe T))
    unfolding rebuild overwrite split_first split_within
    set_at height v length ([], after) = none
    set_at height v length (current ∷ before, after) =
        let end = next_start length after in
        some (
          if same current.value v
          then rebuild (current ∷ before) after
          else if current.start == height
          then (if suc current.start == end
              then overwrite v before current after
              else split_first height v before current after)
          else split_within height v end before current after)

    -- Set in the main chain. A height behind its end fails the assertion.
    unfoldable pub set_chain : KeyframeSidecar T → ℕ → T → Option (KeyframeSidecar T)
    unfolding set_at first_keyframe_after
    set_chain s height v =
        if leb s.chain_length height
        then none
        else elim (set_at height v s.chain_length (first_keyframe_after height [] s.keyframes)) [
          | none ↦ none
          | some ks ↦ some (record s { keyframes = ks })
        ]

    unfoldable pub set : KeyframeSidecar T → Locator → T → Option (KeyframeSidecar T)
    unfolding set_chain find update_at
    set s (in_chain (negsuc n)) v = none
    set s (in_chain (pos height)) v = set_chain s height v
    set s (in_forest hash) v = elim (find hash s.forks) [
      | none ↦ none
      | some n ↦ some (record s {
        forks = record s.forks {
          nodes = update_at n.id (λ d. record d { value = v }) s.forks.nodes;
        };
      })
    ]

    -- The default value at the end of the keyframes, unless the last one has it.
    unfoldable pub append_default : T → ℕ → List (Keyframe T) → List (Keyframe T)
    append_default default_value height [] = record { start = height; value = default_value } ∷ []
    append_default default_value height (k ∷ []) =
        if same k.value default_value
        then k ∷ []
        else k ∷ record { start = height; value = default_value } ∷ []
    append_default default_value height (k ∷ (j ∷ ks)) =
        k ∷ append_default default_value height (j ∷ ks)

    abbrev pub extended : KeyframeSidecar T → KeyframeSidecar T
    extended s = record s {
      chain_length = suc s.chain_length;
      keyframes = append_default s.default_value s.chain_length s.keyframes;
    }

    unfoldable pub push_branch :
        List (Node (NodeData T)) → KeyframeSidecar T → Option (KeyframeSidecar T)
    unfolding set_chain
    push_branch [] s = some s
    push_branch (n ∷ branch) s =
        elim (set_chain (record s { chain_length = suc s.chain_length }) n.value.height
          n.value.value) [ none ↦ none | some s' ↦ push_branch branch s' ]

    -- PromoteBranch between the walk to the root and EraseChain: the branch stands root first.
    unfoldable pub swap_nodes :
        List Hash → List (Node (NodeData T)) → KeyframeSidecar T → Option (KeyframeSidecar T)
    unfolding copy_chain rebuild first_keyframe_after push_branch
    swap_nodes moved [] s = none
    swap_nodes moved (root ∷ branch) s =
        if not (root.value.height + length moved == s.chain_length)
        then none
        else elim (copy_chain s moved root.value.height none s.forks) [
          | none ↦ none
          | some forks ↦ push_branch (root ∷ branch) (record s {
            chain_length = root.value.height;
            keyframes = keyframes_below root.value.height s.keyframes;
            forks = forks;
          })
        ]

    -- PromoteBranch up to EraseChain.
    unfoldable pub swap_branches : KeyframeSidecar T → ℕ → List Hash → Option (KeyframeSidecar T)
    unfolding is_leaf up_from_node reverse_onto swap_nodes
    swap_branches s tip moved =
        if is_leaf tip s.forks
        then elim (up_from_node (suc tip) s.forks.nodes tip) [
          | none ↦ none
          | some up ↦ swap_nodes moved (reverse_onto up []) s
        ]
        else none

    unfoldable pub promote_branch : KeyframeSidecar T → ℕ → List Hash → Option (KeyframeSidecar T)
    unfolding swap_branches erase_chain
    promote_branch s tip moved = elim (swap_branches s tip moved) [
      | none ↦ none
      | some s' ↦ elim (erase_chain tip s'.forks) [
        | none ↦ none
        | some forks ↦ some (record s' { forks = forks })
      ]
    ]

    -- The new element: where it stands in the forest, if it does.
    unfoldable pub add_element :
        KeyframeSidecar T → Locator → Hash → Option (Option ℕ × KeyframeSidecar T)
    unfolding append_default add_child child_height find
    add_element s (in_chain parent) hash = elim (child_height parent) [
      | none ↦ none
      | some height ↦
          let child =
            add_child (λ (d : NodeData T). d.hash) none
              (record { value = s.default_value; hash = hash; height = height }) s.forks in
          some (
            if height == s.chain_length
            then (none, extended s)
            else (some child.0, record s { forks = child.1 }))
    ]
    add_element s (in_forest parent) hash = elim (find parent s.forks) [
      | none ↦ none
      | some n ↦
          let child =
            add_child (λ (d : NodeData T). d.hash) (some n.id)
              (record { value = s.default_value; hash = hash; height = suc n.value.height })
              s.forks in
          some (some child.0, record s { forks = child.1 })
    ]

    -- A promotion of an element that is not in the forest fails the assertion.
    unfoldable pub add_sync : KeyframeSidecar T → SidecarAddSync → Option (KeyframeSidecar T)
    unfolding add_element promote_branch
    add_sync s sync = elim (add_element s sync.parent sync.hash) [
      | none ↦ none
      | some (tip, s') ↦ elim sync.moved_from_chain [
        | [] ↦ some s'
        | hash ∷ hashes ↦ elim tip [ none ↦ none | some id ↦ promote_branch s' id (hash ∷ hashes) ]
      ]
    ]
