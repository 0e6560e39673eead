-- ===== src/Data/KeyframeSidecar/Promote.antt =====
-- What Get returns after a branch of the forest has become the end of the main chain.
use hornet.Common.{
  ℕ, zero, suc, ◌+◌, ◌-◌, ◌<◌, ◌≤◌, ◌≡◌, refl, sym, ap, ◌∙◌, List, [], ◌∷◌, length, map, get_elem?,
  Option, none, some, Bool, true, false, ltb, leb, ◌==◌, if◌then◌else◌, arith, Bool-cases, inl, inr,
  length-map,
}
use hornet.Common.Int.{pos}
use hornet.Data.HashedTree.{Node, HashedTree, add_child, reverse_onto}
use hornet.Data.HashedTree.Extend.{
  IsBranch, IsFresh, IsPlace, add_child-IsBranch, up_from_node-IsBranch, is_leaf-IsBranch,
}
use hornet.Data.KeyframeSidecar.{
  Keyframe, NodeData, KeyframeSidecar, get, copy_chain, keyframes_below, push_branch, swap_nodes,
  swap_branches, promote_branch, rebuild, first_keyframe_after,
}
use hornet.Data.KeyframeSidecar.Chain.{
  value_from, Ascending, Covers, IsPosition, value_from-above, value_from-rebuild, rebuild-Covers,
  first_keyframe_after-IsPosition,
}
use hornet.Data.KeyframeSidecar.Reads.{IsCovered, get-value_from, set_chain-Assigned}
use hornet.Data.Locator.{in_chain}
use hornet.Protocol.Transaction.{Hash}
use hornet.Data.HashedTree.Paths.{erase_chain_undefined}
use mathlib.Core.Path.{subst}

get_elem?_beyond : {A : Type 0} (xs : List A) (i : ℕ) → length xs ≤ i → get_elem? xs i ≡ none
get_elem?_beyond [] i h = refl
get_elem?_beyond (x ∷ xs) zero h = absurd (omega arith)
get_elem?_beyond (x ∷ xs) (suc i) h = get_elem?_beyond xs i (omega arith)

module _ {T : Type 0} where
  -- Every height below the end has a value.
  value_from-some :
      (h : ℕ) (v : T) (ks : List (Keyframe T)) → (w : T) × (value_from h (some v) ks ≡ some w)
  unfolding value_from
  value_from-some h v [] = (v, refl)
  value_from-some h v (k ∷ ks) = elim (Bool-cases (ltb h k.start)) [
    | inl e ↦ let r = value_from-some h v ks in (r.0, rw e r.1)
    | inr e ↦ let r = value_from-some h k.value ks in (r.0, rw e r.1)
  ]

  Covers-some :
      (h end : ℕ) (ks : List (Keyframe T))
      → Covers end ks
      → h < end
      → (w : T) × (value_from h none ks ≡ some w)
  unfolding value_from
  Covers-some h end [] c lt = absurd (omega arith)
  Covers-some h end (k ∷ ks) c lt =
      let past : ltb h k.start ≡ false = ground (arith, c.0) in
      let r = value_from-some h k.value ks in (r.0, rw past r.1)

  pub get-some :
      (s : KeyframeSidecar T) (h : ℕ)
      → IsCovered s
      → h < s.chain_length
      → (w : T) × (get s (in_chain (pos h)) ≡ some w)
  get-some s h c lt =
      let r = Covers-some h s.chain_length s.keyframes c lt in
      let inside : leb s.chain_length h ≡ false = ground arith in
      (r.0, rw (get-value_from s h c, inside) r.1)

  -- The keyframes below a height cover the heights below it, with the same values.
  below-position :
      (h end : ℕ) (ks : List (Keyframe T)) (p : List (Keyframe T) × List (Keyframe T))
      → IsPosition h end ks p
      → Covers (suc h) (rebuild p.0 [])
        × ((x : ℕ) → x < suc h → value_from x none (rebuild p.0 []) ≡ value_from x none ks)
  unfolding rebuild value_from
  below-position h end ks ([], after) c = elim c [ ]
  below-position h end ks (k ∷ before, after) c = (
    rebuild-Covers (suc h) k before [] c.1 (omega (arith, c.2)) tt,
    λ x lt.
        value_from-rebuild x none before (k ∷ [])
        ∙ sym (value_from-above x (suc h) end _ after c.3 lt)
        ∙ sym (value_from-rebuild x none before (k ∷ after))
        ∙ ap (value_from x none) c.0,
  )

  keyframes_below-Covers :
      (h end : ℕ) (ks : List (Keyframe T))
      → Covers end ks
      → h ≤ end
      → Covers h (keyframes_below h ks)
        × ((x : ℕ) → x < h → value_from x none (keyframes_below h ks) ≡ value_from x none ks)
  keyframes_below-Covers zero end ks c le = (refl, λ x lt. absurd (omega arith))
  keyframes_below-Covers (suc h) end ks c le =
      below-position h end ks (first_keyframe_after h [] ks)
        (first_keyframe_after-IsPosition h end ks c (omega arith))

  Ascending-longer :
      (from end : ℕ) (ks : List (Keyframe T)) → Ascending from end ks → Ascending from (suc end) ks
  Ascending-longer from end [] h = tt
  Ascending-longer from end (k ∷ ks) h =
      (h.0, omega (arith, h.1), Ascending-longer (suc k.start) end ks h.2)

  Covers-longer : (end : ℕ) (ks : List (Keyframe T)) → Covers end ks → 0 < end → Covers (suc end) ks
  Covers-longer end [] c lt = absurd (omega arith)
  Covers-longer end (k ∷ ks) c lt =
      (c.0, omega (arith, c.1), Ascending-longer (suc k.start) end ks c.2)

  -- The heights of a branch, from its root on.
  abbrev pub Heights : ℕ → List (Node (NodeData T)) → Type 0
  Heights h [] = Unit {0}
  Heights h (n ∷ branch) = (n.value.height ≡ h) × Heights (suc h) branch

  abbrev pub values_of : List (Node (NodeData T)) → List T
  values_of = map (λ (n : Node (NodeData T)). n.value.value)

  -- The hashes are none of the path's.
  abbrev pub AreFresh : List Hash → List (Node (NodeData T)) → Type 0
  AreFresh [] up = Unit {0}
  AreFresh (hash ∷ hashes) up = IsFresh hash up × AreFresh hashes up

  pub copy_chain-IsBranch :
      (s : KeyframeSidecar T) (moved : List Hash) (h : ℕ) (parent : Option ℕ)
      (forks : HashedTree (NodeData T)) (tip : Node (NodeData T)) (up : List (Node (NodeData T)))
      → IsCovered s
      → h + length moved ≡ s.chain_length
      → AreFresh moved (tip ∷ up)
      → IsPlace forks tip parent
      → IsBranch forks tip up
      → (forks' : HashedTree (NodeData T)) × (copy_chain s moved h parent forks ≡ some forks')
        × IsBranch forks' tip up
  unfolding copy_chain add_child
  copy_chain-IsBranch s [] h parent forks tip up c len fresh place b = (forks, refl, b)
  copy_chain-IsBranch s (hash ∷ moved) h parent forks tip up c len fresh place b =
      let v = get-some s h c (omega arith) in
      let node : NodeData T = record { value = v.0; hash = hash; height = h } in
      let child = add_child (λ (d : NodeData T). d.hash) parent node forks in
      let r =
        copy_chain-IsBranch s moved (suc h) (some child.0) child.1 tip up c (omega arith) fresh.1
          (child-IsPlace forks tip parent node (b.2))
          (add_child-IsBranch (λ (d : NodeData T). d.hash) forks parent node tip up place fresh.0
            b) in
      (r.0, rw (copy_chain, v.1) r.1, r.2)
    where
      child-IsPlace :
          (forks : HashedTree (NodeData T)) (tip : Node (NodeData T)) (parent : Option ℕ)
          (node : NodeData T)
          → tip.id < forks.next_id
          → IsPlace
              (add_child (λ (d : NodeData T). d.hash) parent node forks).1
              tip
              (some (add_child (λ (d : NodeData T). d.hash) parent node forks).0)
      child-IsPlace forks tip parent node lt = (lt, omega arith)

  module _ (same : T → T → Bool) (sound : (a b : T) → same a b ≡ true → a ≡ b) where
    -- The values behind one push, from those behind it and the rest of the branch.
    one_push :
        (old new : Option T) (v : T) (vs : List T) (x n height : ℕ)
        → height ≡ n
        → (x < suc n → new ≡ (if x == height then some v else old))
        → (if ltb x (suc n) then new else get_elem? vs (x - suc n))
          ≡ (if ltb x n then old else get_elem? (v ∷ vs) (x - n))
    one_push old new v vs x n height e h = elim (Bool-cases (ltb x n)) [
      | inl below ↦
          let below' : ltb x (suc n) ≡ true = ground arith in
          let other : (x == height) ≡ false = ground arith in
          rw (below, below') (h (ground arith) ∙ rw other refl)
      | inr above ↦ elim (Bool-cases (x == n)) [
        | inl here ↦
            let below' : ltb x (suc n) ≡ true = ground arith in
            let here' : (x == height) ≡ true = ground arith in
            let first : x - n ≡ 0 = ground arith in
            rw (above, below', first) (h (ground arith) ∙ rw here' refl)
        | inr there ↦
            let above' : ltb x (suc n) ≡ false = ground arith in
            let later : x - n ≡ suc (x - suc n) = ground arith in rw (above, above', later) refl
      ]
    ]

    push_branch-values :
        (branch : List (Node (NodeData T))) (s : KeyframeSidecar T)
        → IsCovered s
        → 0 < s.chain_length
        → Heights s.chain_length branch
        → (s' : KeyframeSidecar T) × (push_branch same branch s ≡ some s')
          × IsCovered s'
          × (s'.chain_length ≡ s.chain_length + length branch)
          × (s'.forks ≡ s.forks)
          × ((x : ℕ)
              → x < s'.chain_length
              → value_from x none s'.keyframes ≡ (
                  if ltb x s.chain_length
                  then value_from x none s.keyframes
                  else get_elem? (values_of branch) (x - s.chain_length)))
    unfolding push_branch
    push_branch-values [] s c lt h = (
      s,
      refl,
      c,
      omega arith,
      refl,
      λ x below. let e : ltb x s.chain_length ≡ true = ground arith in rw e refl,
    )
    push_branch-values (n ∷ branch) s c lt h =
        let s1 : KeyframeSidecar T = record s { chain_length = suc s.chain_length } in
        let a =
          set_chain-Assigned same sound s1 n.value.height n.value.value
            (Covers-longer s.chain_length s.keyframes c lt) (omega (arith, h.0)) in
        let r = push_branch-values branch (record s1 { keyframes = a.0 }) a.2.0 (omega arith) h.1 in
        (
          r.0,
          rw (push_branch, a.1) r.1,
          r.2,
          omega (arith, r.3),
          r.4,
          λ x below.
              r.5 x below
              ∙ one_push (value_from x none s.keyframes) (value_from x none a.0) n.value.value
                  (values_of branch) x s.chain_length n.value.height h.0 (a.2.1 x),
        )

    promoted_value :
        (s : KeyframeSidecar T) (x h : ℕ)
        → ((x : ℕ)
            → x < h
            → value_from x none (keyframes_below h s.keyframes) ≡ value_from x none s.keyframes)
        → h ≤ s.chain_length
        → (w : Option T)
        → (if ltb x h then value_from x none (keyframes_below h s.keyframes) else w) ≡ (
            if ltb x h
            then (if leb s.chain_length x then none else value_from x none s.keyframes)
            else w)
    promoted_value s x h below le w = elim (Bool-cases (ltb x h)) [
      | inl e ↦
          let inside : leb s.chain_length x ≡ false = ground arith in
          rw (e, inside) (below x (ground arith))
      | inr e ↦ rw e refl
    ]

    swap_nodes-get :
        (s : KeyframeSidecar T) (moved : List Hash) (tip root : Node (NodeData T))
        (up branch : List (Node (NodeData T)))
        → IsCovered s
        → IsBranch s.forks tip up
        → Heights (suc root.value.height) branch
        → 0 < root.value.height
        → root.value.height + length moved ≡ s.chain_length
        → AreFresh moved (tip ∷ up)
        → (s' : KeyframeSidecar T) × (swap_nodes same moved (root ∷ branch) s ≡ some s')
          × IsCovered s'
          × (s'.chain_length ≡ root.value.height + length (root ∷ branch))
          × ((x : ℕ)
              → get s' (in_chain (pos x)) ≡ (
                  if ltb x root.value.height
                  then get s (in_chain (pos x))
                  else get_elem? (values_of (root ∷ branch)) (x - root.value.height)))
          × IsBranch s'.forks tip up
    unfolding swap_nodes
    swap_nodes-get s moved tip root up branch c b heights low len fresh =
        let h : ℕ = root.value.height in
        let fits : (h + length moved == s.chain_length) ≡ true = ground arith in
        let below = keyframes_below-Covers h s.chain_length s.keyframes c (omega arith) in
        let copied = copy_chain-IsBranch s moved h none s.forks tip up c len fresh tt b in
        let cut : KeyframeSidecar T = record s {
          chain_length = h;
          keyframes = keyframes_below h s.keyframes;
          forks = copied.0;
        } in
        let pushed = push_branch-values (root ∷ branch) cut below.0 low (refl, heights) in
        let s' : KeyframeSidecar T = pushed.0 in
        (
          s',
          rw (swap_nodes, fits, copied.1, pushed.1) refl,
          pushed.2,
          pushed.3,
          λ x.
              rw (get-value_from s' x pushed.2, get-value_from s x c)
                (elim (Bool-cases (leb s'.chain_length x)) [
                  | inl above ↦
                      let outside : ltb x h ≡ false = ground (arith, pushed.3) in
                      let beyond : length (values_of (root ∷ branch)) ≤ x - h = ground (
                        arith,
                        pushed.3,
                        length-map (root ∷ branch) (λ (n : Node (NodeData T)). n.value.value),
                      ) in
                      rw (above, outside)
                        (sym (get_elem?_beyond (values_of (root ∷ branch)) (x - h) beyond))
                  | inr inside ↦
                      rw inside
                        (pushed.5 x (ground arith) ∙ promoted_value s x h below.1 (omega arith) _)
                ]),
          subst (λ f. IsBranch f tip up) (sym pushed.4) copied.2,
        )

    -- A leaf of the forest whose path to its root is in order, with a root at a height from 1 to the
    -- length of the main chain, consecutive heights, and as many fresh hashes as the chain has elements
    -- from the root's height on: PromoteBranch comes to EraseChain. There the main chain ends with the
    -- branch, its keyframes cover it, Get returns the old values below the root's height and the
    -- branch's from there on, and the forest still has the path. EraseChain then makes an undefined
    -- read, so that PromoteBranch has no result.
    pub swap_branches-get :
        (s : KeyframeSidecar T) (moved : List Hash) (tip root : Node (NodeData T))
        (up branch : List (Node (NodeData T)))
        → IsCovered s
        → IsBranch s.forks tip up
        → reverse_onto (tip ∷ up) [] ≡ root ∷ branch
        → Heights (suc root.value.height) branch
        → 0 < root.value.height
        → root.value.height + length moved ≡ s.chain_length
        → AreFresh moved (tip ∷ up)
        → (s' : KeyframeSidecar T) × (swap_branches same s tip.id moved ≡ some s')
          × IsCovered s'
          × (s'.chain_length ≡ root.value.height + length (root ∷ branch))
          × ((x : ℕ)
              → get s' (in_chain (pos x)) ≡ (
                  if ltb x root.value.height
                  then get s (in_chain (pos x))
                  else get_elem? (values_of (root ∷ branch)) (x - root.value.height)))
          × IsBranch s'.forks tip up
          × (promote_branch same s tip.id moved ≡ none)
    unfolding swap_branches promote_branch
    swap_branches-get s moved tip root up branch c b order heights low len fresh =
        let r = swap_nodes-get s moved tip root up branch c b heights low len fresh in
        let leaf = is_leaf-IsBranch s.forks tip up b in
        let walk = up_from_node-IsBranch s.forks tip up b in
        let swapped : swap_branches same s tip.id moved ≡ some r.0 =
          rw (swap_branches, leaf, walk, order) r.1 in
        (
          r.0,
          swapped,
          r.2,
          r.3,
          r.4,
          r.5,
          rw (promote_branch, swapped, erase_chain_undefined tip.id r.0.forks) refl,
        )
