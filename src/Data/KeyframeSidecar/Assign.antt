-- ===== src/Data/KeyframeSidecar/Assign.antt =====
-- What an assignment to one height does to the values of the main chain.
use hornet.Common.{
  ℕ, suc, ◌≤◌, ◌<◌, ◌≡◌, ◌≢◌, refl, sym, ap, ◌∙◌, List, [], ◌∷◌, Option, none, some, Bool, true,
  false, ltb, ◌==◌, if◌then◌else◌, arith, Bool-cases, if_split, inl, inr, lt→ltb,
}
use hornet.Data.KeyframeSidecar.{
  Keyframe, rebuild, next_start, is_same_first, without_same_first, overwrite, split_first,
  split_within, set_at,
}
use hornet.Data.KeyframeSidecar.Chain.{
  step, value_from, Ascending, Descending, Covers, value_from-above, value_from-rebuild,
  Ascending-weaken, rebuild-Covers,
}
use mathlib.Core.Path.{subst}

-- The values of the second list are those of the first, but at one height.
abbrev pub Assigned : {T : Type 0} → ℕ → ℕ → T → List (Keyframe T) → List (Keyframe T) → Type 0
Assigned end height v ks ks' =
    Covers end ks'
    × ((h : ℕ)
        → h < end
        → value_from h none ks' ≡ (if h == height then some v else value_from h none ks))

module _ {T : Type 0} (same : T → T → Bool) (sound : (a b : T) → same a b ≡ true → a ≡ b) where
  -- A keyframe that repeats the value before it changes nothing.
  without_same_first-value_from :
      (h : ℕ) (v : T) (after : List (Keyframe T))
      → value_from h (some v) (without_same_first same v after) ≡ value_from h (some v) after
  unfolding value_from
  without_same_first-value_from h v [] = refl
  without_same_first-value_from h v (k ∷ after) = elim (Bool-cases (same v k.value)) [
    | inl e ↦ elim (Bool-cases (ltb h k.start)) [
      | inl below ↦ rw (e, below) refl
      | inr above ↦ rw (e, above) (ap (λ w. value_from h (some w) after) (sound v k.value e))
    ]
    | inr e ↦ rw e refl
  ]

  without_same_first-Ascending :
      (from end : ℕ) (v : T) (after : List (Keyframe T))
      → Ascending from end after
      → Ascending from end (without_same_first same v after)
  without_same_first-Ascending from end v [] h = tt
  without_same_first-Ascending from end v (k ∷ after) h = elim (Bool-cases (same v k.value)) [
    | inl e ↦ rw e (Ascending-weaken (suc k.start) from end after h.2 (omega arith))
    | inr e ↦ rw e h
  ]

  is_same_first-step :
      (h height : ℕ) (v : T) (before : List (Keyframe T))
      → is_same_first same v before ≡ true
      → Descending height before
      → value_from h none (rebuild before [])
        ≡ step h (value_from h none (rebuild before [])) (record { start = height; value = v })
  unfolding value_from rebuild
  is_same_first-step h height v [] e d = cc
  is_same_first-step h height v (k ∷ before) e d = elim (Bool-cases (ltb h height)) [
    | inl below ↦ rw below refl
    | inr above ↦
        let past : ltb h k.start ≡ false = ground arith in
        rw (above, value_from-rebuild h none before (k ∷ []), past)
          (ap some (sym (sound v k.value e)))
  ]

  step_before :
      (h start : ℕ) (x : Option T) (v : T)
      → h < start
      → step h x (record { start = start; value = v }) ≡ x
  step_before h start x v lt = rw (lt→ltb h start lt) refl

  step_past :
      (h start : ℕ) (x : Option T) (v : T)
      → start ≤ h
      → step h x (record { start = start; value = v }) ≡ some v
  step_past h start x v le = let e : ltb h start ≡ false = ground arith in rw e refl

  -- Without the current keyframe, where the one before it has the value.
  joined-Covers :
      (v : T) (start from end : ℕ) (before after : List (Keyframe T))
      → is_same_first same v before ≡ true
      → Descending start before
      → start ≤ from
      → start < end
      → Ascending from end after
      → Covers end (rebuild before after)
  unfolding rebuild
  joined-Covers v start from end [] after e d le lt h = cc
  joined-Covers v start from end (k ∷ before) after e d le lt h =
      rebuild-Covers end k before after d.1 (omega (arith, d.0))
        (Ascending-weaken from (suc k.start) end after h (omega (arith, d.0)))

  -- Behind a keyframe of one element the next keyframe decides.
  next-decides :
      (h height end : ℕ) (x y : Option T) (after : List (Keyframe T))
      → next_start end after ≤ suc height
      → height < h
      → h < end
      → value_from h x after ≡ value_from h y after
  unfolding value_from
  next-decides h height end x y [] e lt le = absurd (omega arith)
  next-decides h height end x y (k ∷ after) e lt le =
      let past : ltb h k.start ≡ false = ground arith in rw past refl

  module _ (height end : ℕ) (v : T) (before : List (Keyframe T)) (current : Keyframe T)
      (after : List (Keyframe T)) (descending : Descending current.start before)
      (held : current.start ≤ height) (inside : height < end)
      (ascending : Ascending (suc height) end after) where
    abbrev prefix : ℕ → Option T
    prefix h = value_from h none (rebuild before [])

    -- The values by those before the current keyframe.
    whole_value :
        (h : ℕ)
        → value_from h none (rebuild before (current ∷ after))
          ≡ value_from h (step h (prefix h) current) after
    unfolding value_from
    whole_value h = value_from-rebuild h none before (current ∷ after)

    -- An element that takes its value from a keyframe before `after`.
    at_height : value_from height (some v) after ≡ some v
    at_height = value_from-above height (suc height) end (some v) after ascending (omega arith)

    overwrite-values :
        current.start ≡ height
        → suc height ≡ next_start end after
        → (h : ℕ) → h < end
        → value_from h (step h (prefix h) (record { start = height; value = v })) after
          ≡ (if h == height then some v else value_from h (step h (prefix h) current) after)
    overwrite-values start last h lt = elim (Bool-cases (h == height)) [
      | inl e ↦
          let eq : h ≡ height = ground arith in
          let past : ltb height height ≡ false = ground arith in rw (e, eq, past) at_height
      | inr e ↦ elim (Bool-cases (ltb h height)) [
        | inl below ↦ rw (e, start, below) refl
        | inr above ↦ rw e (next-decides h height end _ _ after (omega arith) (ground arith) lt)
      ]
    ]

    split_first-values :
        current.start ≡ height
        → (h : ℕ)
        → value_from h
            (step h
              (step h (prefix h) (record { start = height; value = v }))
              (record { start = suc height; value = current.value }))
            after
          ≡ (if h == height then some v else value_from h (step h (prefix h) current) after)
    split_first-values start h = elim (Bool-cases (h == height)) [
      | inl e ↦
          let eq : h ≡ height = ground arith in
          let past : ltb height height ≡ false = ground arith in
          let before_next : ltb height (suc height) ≡ true = ground arith in
          rw (e, eq, past, before_next) at_height
      | inr e ↦ elim (Bool-cases (ltb h height)) [
        | inl below ↦
            let before_next : ltb h (suc height) ≡ true = ground arith in
            rw (e, start, below, before_next) refl
        | inr above ↦
            let past : ltb h (suc height) ≡ false = ground arith in rw (e, start, above, past) refl
      ]
    ]

    split_within-values :
        (upper : Bool)
        → current.start < height
        → (upper ≡ false → next_start end after ≤ suc height)
        → (h : ℕ) → h < end
        → value_from h
            (step h (step h (prefix h) current) (record { start = height; value = v }))
            (if upper then record { start = suc height; value = current.value } ∷ after else after)
          ≡ (if h == height then some v else value_from h (step h (prefix h) current) after)
    unfolding value_from
    split_within-values upper start last h lt = elim (Bool-cases (h == height)) [
      | inl e ↦
          let eq : h ≡ height = ground arith in
          let past : ltb height height ≡ false = ground arith in
          elim upper
            as (λ u.
              value_from h
                (step h (step h (prefix h) current) (record { start = height; value = v }))
                (if u then record { start = suc height; value = current.value } ∷ after else after)
              ≡ (if h == height then some v else value_from h (step h (prefix h) current) after)) [
                | true ↦
                    rw (e, eq, past)
                      (ap (λ w. value_from height w after)
                          (step_before height (suc height) (some v) current.value (omega arith))
                        ∙ at_height)
                | false ↦ rw (e, eq, past) at_height
              ]
      | inr e ↦ elim (Bool-cases (ltb h height)) [
        | inl below ↦
            elim upper
              as (λ u.
                value_from h
                  (step h (step h (prefix h) current) (record { start = height; value = v }))
                  (if u
                    then record { start = suc height; value = current.value } ∷ after
                    else after)
                ≡ (if h == height
                    then some v
                    else value_from h (step h (prefix h) current) after)) [
                      | true ↦
                          rw (e, below)
                            (ap (λ w. value_from h w after)
                              (step_before h (suc height) _ current.value (ground arith)))
                      | false ↦ rw (e, below) refl
                    ]
        | inr above ↦ elim (Bool-cases upper) [
          | inl u ↦
              rw (e, u, above)
                (ap (λ w. value_from h w after)
                  (step_past h (suc height) (some v) current.value (ground arith)
                    ∙ sym (step_past h current.start (prefix h) current.value (ground arith))))
          | inr u ↦ rw (e, u) (next-decides h height end _ _ after (last u) (ground arith) lt)
        ]
      ]
    ]

    -- Without the next keyframe, where it repeats the value.
    shortened_value :
        (h : ℕ) (x : Option T)
        → value_from h
            (step h x (record { start = height; value = v }))
            (without_same_first same v after)
          ≡ value_from h (step h x (record { start = height; value = v })) after
    shortened_value h x = elim (Bool-cases (ltb h height)) [
      | inl below ↦
          value_from-above h (suc height) end _ (without_same_first same v after)
            (without_same_first-Ascending (suc height) end v after ascending) (ground arith)
          ∙ sym (value_from-above h (suc height) end _ after ascending (ground arith))
      | inr above ↦ rw above (without_same_first-value_from h v after)
    ]

    -- The next keyframe starts higher.
    after_next : next_start end after ≢ suc height → Ascending (suc (suc height)) end after
    after_next apart = go after ascending apart
      where
        go :
            (ks : List (Keyframe T))
            → Ascending (suc height) end ks
            → next_start end ks ≢ suc height
            → Ascending (suc (suc height)) end ks
        go [] h ne = tt
        go (k ∷ ks) h ne = (ground arith, h.1, h.2)

    room : next_start end after ≢ suc height → suc height < end
    room apart = go after ascending apart
      where
        go :
            (ks : List (Keyframe T))
            → Ascending (suc height) end ks
            → next_start end ks ≢ suc height
            → suc height < end
        go [] h ne = ground arith
        go (k ∷ ks) h ne = ground arith

    -- From the values behind the current keyframe to those of the whole.
    to_whole :
        (h : ℕ) (x : Option T)
        → x ≡ (if h == height then some v else value_from h (step h (prefix h) current) after)
        → x ≡ (if h == height then some v else value_from h none (rebuild before (current ∷ after)))
    to_whole h x e = rw (whole_value h) e

    overwrite-Assigned :
        current.start ≡ height
        → suc height ≡ next_start end after
        → Assigned end height v
            (rebuild before (current ∷ after))
            (overwrite same v before current after)
    unfolding overwrite value_from
    overwrite-Assigned start last = elim (Bool-cases (is_same_first same v before)) [
      | inl e ↦ rw e (
        joined-Covers v current.start (suc height) end before (without_same_first same v after) e
            descending (omega arith) (omega arith)
            (without_same_first-Ascending (suc height) end v after ascending),
        λ h lt. to_whole h _ (
            value_from-rebuild h none before (without_same_first same v after)
            ∙ ap (λ w. value_from h w (without_same_first same v after))
                (is_same_first-step h height v before e
                  (subst (λ n. Descending n before) start descending))
            ∙ shortened_value h (prefix h)
            ∙ overwrite-values start last h lt),
      )
      | inr e ↦ rw e (
        rebuild-Covers end (record { start = current.start; value = v }) before
            (without_same_first same v after) descending (omega arith)
            (Ascending-weaken (suc height) (suc current.start) end (without_same_first same v after)
              (without_same_first-Ascending (suc height) end v after ascending) (omega arith)),
        λ h lt. to_whole h _ (
            value_from-rebuild h none before
              (record { start = current.start; value = v } ∷ without_same_first same v after)
            ∙ ap
                (λ n.
                  value_from h (prefix h)
                    (record { start = n; value = v } ∷ without_same_first same v after))
                start
            ∙ shortened_value h (prefix h)
            ∙ overwrite-values start last h lt),
      )
    ]

    split_first-Assigned :
        current.start ≡ height
        → next_start end after ≢ suc height
        → Assigned end height v
            (rebuild before (current ∷ after))
            (split_first same height v before current after)
    unfolding split_first value_from
    split_first-Assigned start apart =
        let rest : List (Keyframe T) =
          record { start = suc height; value = current.value } ∷ after in
        let up : Ascending (suc height) end rest = (omega arith, room apart, after_next apart) in
        elim (Bool-cases (is_same_first same v before)) [
          | inl e ↦ rw e (
            joined-Covers v current.start (suc height) end before rest e descending (omega arith)
                (omega arith) up,
            λ h lt. to_whole h _ (
                value_from-rebuild h none before rest
                ∙ ap (λ w. value_from h w rest)
                    (is_same_first-step h height v before e
                      (subst (λ n. Descending n before) start descending))
                ∙ split_first-values start h),
          )
          | inr e ↦ rw e (
            rebuild-Covers end (record { start = height; value = v }) before rest
                (subst (λ n. Descending n before) start descending) inside up,
            λ h lt. to_whole h _ (
                value_from-rebuild h none before (record { start = height; value = v } ∷ rest)
                ∙ split_first-values start h),
          )
        ]

    split_within-Assigned :
        current.start < height
        → Assigned end height v
            (rebuild before (current ∷ after))
            (split_within same height v (next_start end after) before current after)
    unfolding split_within rebuild value_from
    split_within-Assigned start =
        let upper : Bool = ltb (suc height) (next_start end after) in
        let after' : List (Keyframe T) =
          if upper then record { start = suc height; value = current.value } ∷ after else after in
        (
          rebuild-Covers end current before (record { start = height; value = v } ∷ after')
              descending (omega arith)
              (
                omega arith,
                inside,
                if_split (Ascending (suc height) end) upper
                    (record { start = suc height; value = current.value } ∷ after) after
                    (λ e. (omega arith, room (λ q. ground arith), after_next (λ q. ground arith)))
                    (λ e. ascending),
              ),
          λ h lt. to_whole h _ (
              value_from-rebuild h none before
                (current ∷ record { start = height; value = v } ∷ after')
              ∙ split_within-values upper start (λ e. ground arith) h lt),
        )

    unchanged :
        same current.value v ≡ true
        → Assigned end height v
            (rebuild before (current ∷ after))
            (rebuild before (current ∷ after))
    unchanged e = (
      rebuild-Covers end current before after descending (omega arith)
          (Ascending-weaken (suc height) (suc current.start) end after ascending (omega arith)),
      λ h lt. elim (Bool-cases (h == height)) [
        | inl eq ↦
            let at : h ≡ height = ground arith in
            rw (eq, at)
              (whole_value height
                ∙ ap (λ w. value_from height w after)
                    (step_past height current.start (prefix height) current.value held
                      ∙ ap some (sound current.value v e))
                ∙ at_height)
        | inr ne ↦ rw ne refl
      ],
    )

    -- An assignment, in the keyframe that holds the height.
    pub set_at-Assigned :
        (ks' : List (Keyframe T)) × (set_at same height v end (current ∷ before, after) ≡ some ks')
        × Assigned end height v (rebuild before (current ∷ after)) ks'
    unfolding set_at
    set_at-Assigned = (
      _,
      refl,
      if_split (Assigned end height v (rebuild before (current ∷ after))) (same current.value v) _ _
          (λ e. unchanged e)
          (λ e.
            if_split (Assigned end height v (rebuild before (current ∷ after)))
              (current.start == height) _ _
              (λ e1.
                if_split (Assigned end height v (rebuild before (current ∷ after)))
                  (suc current.start == next_start end after) _ _
                  (λ e2. overwrite-Assigned (ground arith) (ground arith))
                  (λ e2. split_first-Assigned (ground arith) (λ q. ground arith)))
              (λ e1. split_within-Assigned (ground arith))),
    )
