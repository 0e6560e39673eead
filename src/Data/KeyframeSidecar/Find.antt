-- ===== src/Data/KeyframeSidecar/Find.antt =====
-- FindInChainIf finds the first height.
use hornet.Common.{
  ℕ, suc, ◌≤◌, ◌<◌, ◌≡◌, refl, sym, ap, ◌∙◌, List, [], ◌∷◌, Option, none, some, Bool, true, false,
  ltb, leb, if◌then◌else◌, arith, Bool-cases, inl, inr,
}
use hornet.Common.Int.{pos}
use hornet.Data.KeyframeSidecar.{
  Keyframe, KeyframeSidecar, get, find_keyframe, find_from, find_in_chain_if, is_before_keyframes,
  first_keyframe_after,
}
use hornet.Data.KeyframeSidecar.Chain.{
  value_from, Ascending, Covers, IsPosition, value_from-above, value_from-rebuild,
  first_keyframe_after-IsPosition,
}
use hornet.Data.KeyframeSidecar.Reads.{IsCovered, get-value_from}
use hornet.Data.Locator.{in_chain}
use mathlib.Core.Path.{subst}

Covers-started :
    {T : Type 0} (first end : ℕ) (ks : List (Keyframe T))
    → Covers end ks
    → first < end
    → is_before_keyframes first ks ≡ false
Covers-started first end [] c lt = absurd (omega arith)
Covers-started first end (k ∷ ks) c lt = ground (arith, c.0)

module _ {T : Type 0} (predicate : T → Bool) where
  -- The predicate takes the value, or does not; there is a value in both cases.
  abbrev pub Takes : Option T → Type 0
  Takes none = ⊥
  Takes (some v) = predicate v ≡ true

  abbrev pub Rejects : Option T → Type 0
  Rejects none = ⊥
  Rejects (some v) = predicate v ≡ false

  -- The first height from one on and below an end whose value the predicate takes, if there is one.
  abbrev pub IsFirst : (ℕ → Option T) → ℕ → ℕ → Option ℕ → Type 0
  IsFirst value first end none = (x : ℕ) → first ≤ x → x < end → Rejects (value x)
  IsFirst value first end (some h) =
      (first ≤ h) × (h < end) × Takes (value h) × ((x : ℕ) → first ≤ x → x < h → Rejects (value x))

  IsFirst-extend :
      (value value' : ℕ → Option T) (lo mid end : ℕ) (r : Option ℕ)
      → lo ≤ mid
      → ((x : ℕ) → lo ≤ x → x < mid → x < end → Rejects (value x))
      → ((x : ℕ) → mid ≤ x → x < end → value' x ≡ value x)
      → IsFirst value' mid end r
      → IsFirst value lo end r
  IsFirst-extend value value' lo mid end none le before same h = λ x from below.
      elim (Bool-cases (ltb x mid)) [
        | inl e ↦ before x from (ground arith) below
        | inr e ↦ subst Rejects (same x (ground arith) below) (h x (ground arith) below)
      ]
  IsFirst-extend value value' lo mid end (some k) le before same h = (
    omega (arith, h.0),
    h.1,
    subst Takes (same k h.0 h.1) h.2,
    λ x from below. elim (Bool-cases (ltb x mid)) [
      | inl e ↦ before x from (ground arith) (omega (arith, h.1))
      | inr e ↦
          subst Rejects (same x (ground arith) (omega (arith, h.1))) (h.3 x (ground arith) below)
    ],
  )

  -- The height at which a keyframe is met by a search.
  abbrev met : ℕ → ℕ → ℕ
  met first start = if ltb first start then start else first

  -- From a keyframe's start on, what came before it does not matter.
  past_start :
      (x : ℕ) (v : Option T) (k : Keyframe T) (after : List (Keyframe T))
      → k.start ≤ x
      → value_from x v (k ∷ after) ≡ value_from x (some k.value) after
  unfolding value_from
  past_start x v k after le = let e : ltb x k.start ≡ false = ground arith in rw e refl

  found :
      (first end : ℕ) (v : Option T) (k : Keyframe T) (after : List (Keyframe T))
      → met first k.start < end
      → Ascending (suc (met first k.start)) end after
      → predicate k.value ≡ true
      → IsFirst (λ x. value_from x v (k ∷ after)) (met first k.start) end (some (met first k.start))
  found first end v k after lt up e =
      let lo : ℕ = met first k.start in
      (
        omega arith,
        lt,
        subst Takes
            (sym (
              past_start lo v k after (ground arith)
              ∙ value_from-above lo (suc lo) end (some k.value) after up (omega arith)))
            e,
        λ x from below. absurd (omega arith),
      )

  find_keyframe-IsFirst :
      (first end : ℕ) (v : Option T) (k : Keyframe T) (after : List (Keyframe T))
      → met first k.start < end
      → Ascending (suc (met first k.start)) end after
      → IsFirst
          (λ x. value_from x v (k ∷ after))
          (met first k.start)
          end
          (find_keyframe predicate first (k ∷ after))
  unfolding find_keyframe value_from
  find_keyframe-IsFirst first end v k [] lt up = elim (Bool-cases (predicate k.value)) [
    | inl e ↦ rw e (found first end v k [] lt up e)
    | inr e ↦ rw e (λ x from below. subst Rejects (sym (past_start x v k [] (ground arith))) e)
  ]
  find_keyframe-IsFirst first end v k (j ∷ after) lt up = elim (Bool-cases (predicate k.value)) [
    | inl e ↦ rw e (found first end v k (j ∷ after) lt up e)
    | inr e ↦
        let m2 : met first j.start ≡ j.start = ground (arith, up.0) in
        rw e (
          IsFirst-extend (λ x. value_from x v (k ∷ (j ∷ after)))
            (λ x. value_from x (some k.value) (j ∷ after)) (met first k.start) (met first j.start)
            end (find_keyframe predicate first (j ∷ after)) (ground (arith, up.0))
            (λ x from before below.
              subst Rejects
                (sym (
                  past_start x v k (j ∷ after) (ground arith)
                  ∙ value_from-above x j.start end (some k.value) (j ∷ after)
                      (omega arith, up.1, up.2) (ground arith)))
                e)
            (λ x from below. sym (past_start x v k (j ∷ after) (ground (arith, up.0))))
            (find_keyframe-IsFirst first end (some k.value) j after (ground (arith, up.1))
              (subst (λ n. Ascending (suc n) end after) (sym m2) up.2)))
  ]

  position-IsFirst :
      (first end : ℕ) (ks : List (Keyframe T)) (p : List (Keyframe T) × List (Keyframe T))
      → first < end
      → IsPosition first end ks p
      → IsFirst (λ x. value_from x none ks) first end (find_from predicate first p)
  unfolding find_from
  position-IsFirst first end ks ([], after) lt h = elim h [ ]
  position-IsFirst first end ks (current ∷ before, after) lt h =
      let here : met first current.start ≡ first = ground (arith, h.2) in
      IsFirst-extend (λ x. value_from x none ks) (λ x. value_from x none (current ∷ after)) first
        (met first current.start) end (find_keyframe predicate first (current ∷ after))
        (omega (arith, here)) (λ x from before' below. absurd (omega (arith, here)))
        (λ x from below.
          past_start x none current after (omega (arith, here, h.2))
          ∙ sym (
              ap (value_from x none) (sym h.0)
              ∙ value_from-rebuild x none before (current ∷ after)
              ∙ past_start x _ current after (omega (arith, here, h.2))))
        (find_keyframe-IsFirst first end none current after (omega (arith, here))
          (subst (λ n. Ascending (suc n) end after) (sym here) h.3))

  -- Where the keyframes cover the main chain and a height stands in it, FindInChainIf from that height
  -- returns the first height from it on whose value the predicate takes; and nothing exactly where it
  -- rejects the value of every height from there to the end of the chain.
  pub find_in_chain_if-IsFirst :
      (s : KeyframeSidecar T) (first : ℕ)
      → IsCovered s
      → first < s.chain_length
      → IsFirst
          (λ x. get s (in_chain (pos x)))
          first
          s.chain_length
          (find_in_chain_if s first predicate)
  unfolding find_in_chain_if
  find_in_chain_if-IsFirst s first c lt =
      let inside : leb s.chain_length first ≡ false = ground arith in
      let started : is_before_keyframes first s.keyframes ≡ false =
        Covers-started first s.chain_length s.keyframes c lt in
      rw (inside, started)
        (IsFirst-extend (λ x. get s (in_chain (pos x))) (λ x. value_from x none s.keyframes) first
          first s.chain_length
          (find_from predicate first (first_keyframe_after first [] s.keyframes)) (omega arith)
          (λ x from before below. absurd (omega arith))
          (λ x from below.
            let at : leb s.chain_length x ≡ false = ground arith in
            sym (rw (get-value_from s x c, at) refl))
          (position-IsFirst first s.chain_length s.keyframes
            (first_keyframe_after first [] s.keyframes) lt
            (first_keyframe_after-IsPosition first s.chain_length s.keyframes c lt)))
