-- ===== src/Data/KeyframeSidecar/Chain.antt =====
-- The values of the main chain, as a function of the height, under the operations on the keyframes.
use hornet.Common.{
  ℕ, suc, ◌≤◌, ◌<◌, ◌≡◌, refl, sym, ap, ◌∙◌, List, [], ◌∷◌, Option, none, some, true, false, ltb,
  if◌then◌else◌, arith, Bool-cases, inl, inr,
}
use hornet.Data.KeyframeSidecar.{Keyframe, rebuild, first_keyframe_after, value_before}

module _ {T : Type 0} where
  -- What one keyframe makes of the value at a height, and what a list of them does.
  abbrev pub step : ℕ → Option T → Keyframe T → Option T
  step height v k = if ltb height k.start then v else some k.value

  unfoldable pub value_from : ℕ → Option T → List (Keyframe T) → Option T
  value_from height v [] = v
  value_from height v (k ∷ ks) = value_from height (step height v k) ks

  -- Keyframes in ascending order, from a height on and before an end.
  abbrev pub Ascending : ℕ → ℕ → List (Keyframe T) → Type 0
  Ascending from end [] = Unit {0}
  Ascending from end (k ∷ ks) = (from ≤ k.start) × (k.start < end) × Ascending (suc k.start) end ks

  -- The keyframes before one that starts at a height, the nearest first: the first one starts at 0.
  abbrev pub Descending : ℕ → List (Keyframe T) → Type 0
  Descending start [] = start ≡ 0
  Descending start (k ∷ before) = (k.start < start) × Descending k.start before

  -- The keyframes cover every height below an end.
  abbrev pub Covers : ℕ → List (Keyframe T) → Type 0
  Covers end [] = end ≡ 0
  Covers end (k ∷ ks) = (k.start ≡ 0) × (k.start < end) × Ascending (suc k.start) end ks

  -- A position behind the keyframe that holds a height.
  abbrev pub IsPosition : ℕ → ℕ → List (Keyframe T) → List (Keyframe T) × List (Keyframe T) → Type 0
  IsPosition height end ks ([], after) = ⊥
  IsPosition height end ks (current ∷ before, after) =
      (rebuild before (current ∷ after) ≡ ks)
      × Descending current.start before
      × (current.start ≤ height)
      × Ascending (suc height) end after

  pub value_from-above :
      (height from end : ℕ) (v : Option T) (ks : List (Keyframe T))
      → Ascending from end ks
      → height < from
      → value_from height v ks ≡ v
  unfolding value_from
  value_from-above height from end v [] h lt = refl
  value_from-above height from end v (k ∷ ks) h lt =
      let e : ltb height k.start ≡ true = ground arith in
      rw e (value_from-above height (suc k.start) end v ks h.2 (omega arith))

  pub value_from-rebuild :
      (height : ℕ) (v : Option T) (before after : List (Keyframe T))
      → value_from height v (rebuild before after)
        ≡ value_from height (value_from height v (rebuild before [])) after
  unfolding value_from rebuild
  value_from-rebuild height v [] after = refl
  value_from-rebuild height v (k ∷ before) after =
      value_from-rebuild height v before (k ∷ after)
      ∙ ap (λ w. value_from height w after) (sym (value_from-rebuild height v before (k ∷ [])))

  pub Ascending-weaken :
      (from from' end : ℕ) (ks : List (Keyframe T))
      → Ascending from end ks
      → from' ≤ from
      → Ascending from' end ks
  Ascending-weaken from from' end [] h le = tt
  Ascending-weaken from from' end (k ∷ ks) h le = (omega arith, h.1, h.2)

  pub rebuild-Covers :
      (end : ℕ) (k : Keyframe T) (before after : List (Keyframe T))
      → Descending k.start before
      → k.start < end
      → Ascending (suc k.start) end after
      → Covers end (rebuild before (k ∷ after))
  unfolding rebuild
  rebuild-Covers end k [] after d lt h = (d, lt, h)
  rebuild-Covers end k (b ∷ before) after d lt h =
      rebuild-Covers end b before (k ∷ after) d.1 (omega arith) (omega arith, lt, h)

  first_after-IsPosition :
      (height end : ℕ) (current : Keyframe T) (before after : List (Keyframe T))
      → Descending current.start before
      → current.start ≤ height
      → Ascending (suc current.start) end after
      → IsPosition height end
          (rebuild before (current ∷ after))
          (first_keyframe_after height (current ∷ before) after)
  unfolding first_keyframe_after rebuild
  first_after-IsPosition height end current before [] d le h = (refl, d, le, tt)
  first_after-IsPosition height end current before (k ∷ after) d le h =
      elim (Bool-cases (ltb height k.start)) [
        | inl stop ↦ rw stop (refl, d, le, (ground arith, h.1, h.2))
        | inr more ↦ rw more (
            first_after-IsPosition height end k (current ∷ before) after (omega (arith, h.0), d)
              (ground arith) h.2)
      ]

  pub first_keyframe_after-IsPosition :
      (height end : ℕ) (ks : List (Keyframe T))
      → Covers end ks
      → height < end
      → IsPosition height end ks (first_keyframe_after height [] ks)
  unfolding first_keyframe_after rebuild
  first_keyframe_after-IsPosition height end [] h lt = omega arith
  first_keyframe_after-IsPosition height end (k ∷ ks) h lt =
      let e : ltb height k.start ≡ false = ground arith in
      rw e (first_after-IsPosition height end k [] ks h.0 (omega arith) h.2)

  -- The keyframe before the position has the height's value.
  pub value_before-value_from :
      (height end : ℕ) (ks : List (Keyframe T)) (p : List (Keyframe T) × List (Keyframe T))
      → IsPosition height end ks p
      → value_before p ≡ value_from height none ks
  unfolding value_before rebuild value_from
  value_before-value_from height end ks ([], after) h = elim h [ ]
  value_before-value_from height end ks (current ∷ before, after) h =
      let e : ltb height current.start ≡ false = ground arith in
      let a = value_from height none (rebuild before []) in
      let whole = value_from-rebuild height none before (current ∷ after) in
      let rest =
        value_from-above height (suc height) end (some current.value) after h.3 (omega arith) in
      sym (ap (value_from height none) (sym h.0) ∙ whole ∙ rw e rest)
