-- ===== src/Data/KeyframeSidecar/Reads.antt =====
-- What Get returns after Set and after an element is added at the tip.
use hornet.Common.{
  ℕ, suc, ◌<◌, ◌≡◌, refl, ap, ◌∙◌, List, [], ◌∷◌, Option, none, some, Bool, true, false, ltb, leb,
  ◌==◌, if◌then◌else◌, arith, Bool-cases, inl, inr,
}
use hornet.Common.Int.{pos, sub_ℕ}
use hornet.Data.KeyframeSidecar.{
  Keyframe, KeyframeSidecar, first_keyframe_after, get, set, set_at, set_chain, append_default,
  extended, add_element, add_sync,
}
use hornet.Data.KeyframeSidecar.Assign.{Assigned, set_at-Assigned}
use hornet.Data.KeyframeSidecar.Chain.{
  value_from, Ascending, Covers, IsPosition, first_keyframe_after-IsPosition,
  value_before-value_from,
}
use hornet.Data.Locator.{in_chain, child_height-tip}
use hornet.Protocol.Transaction.{Hash}

-- The keyframes of the main chain cover its heights.
abbrev pub IsCovered : {T : Type 0} → KeyframeSidecar T → Type 0
IsCovered s = Covers s.chain_length s.keyframes

module _ {T : Type 0} where
  pub get-value_from :
      (s : KeyframeSidecar T) (h : ℕ)
      → IsCovered s
      → get s (in_chain (pos h))
        ≡ (if leb s.chain_length h then none else value_from h none s.keyframes)
  unfolding get
  get-value_from s h c = elim (Bool-cases (leb s.chain_length h)) [
    | inl above ↦ rw above refl
    | inr below ↦ rw below (
        value_before-value_from h s.chain_length s.keyframes (first_keyframe_after h [] s.keyframes)
          (first_keyframe_after-IsPosition h s.chain_length s.keyframes c (ground arith)))
  ]

  module _ (same : T → T → Bool) (sound : (a b : T) → same a b ≡ true → a ≡ b) where
    set_at-position :
        (height end : ℕ) (v : T) (ks : List (Keyframe T))
        (p : List (Keyframe T) × List (Keyframe T))
        → height < end
        → IsPosition height end ks p
        → (ks' : List (Keyframe T)) × (set_at same height v end p ≡ some ks')
          × Assigned end height v ks ks'
    set_at-position height end v ks ([], after) lt h = elim h [ ]
    set_at-position height end v ks (current ∷ before, after) lt h =
        let r = set_at-Assigned same sound height end v before current after h.1 h.2 lt h.3 in
        (r.0, r.1, rw (← h.0) r.2)

    -- An assignment in a covered chain.
    pub set_chain-Assigned :
        (s : KeyframeSidecar T) (height : ℕ) (v : T)
        → IsCovered s
        → height < s.chain_length
        → (ks' : List (Keyframe T)) × (set_chain same s height v
            ≡ some (record s { keyframes = ks' }))
          × Assigned s.chain_length height v s.keyframes ks'
    unfolding set_chain
    set_chain-Assigned s height v c lt =
        let inside : leb s.chain_length height ≡ false = ground arith in
        let r =
          set_at-position height s.chain_length v s.keyframes
            (first_keyframe_after height [] s.keyframes) lt
            (first_keyframe_after-IsPosition height s.chain_length s.keyframes c lt) in
        (r.0, rw (inside, r.1) refl, r.2)

    -- Where the keyframes cover the main chain and a height stands in it, Set succeeds, the keyframes
    -- still cover the chain, its length and the forks stay, and Get returns the value at that height
    -- and what it returned before at every other.
    pub set-get :
        (s : KeyframeSidecar T) (height : ℕ) (v : T)
        → IsCovered s
        → height < s.chain_length
        → (s' : KeyframeSidecar T) × (set same s (in_chain (pos height)) v ≡ some s')
          × IsCovered s'
          × (s'.chain_length ≡ s.chain_length)
          × (s'.forks ≡ s.forks)
          × ((h : ℕ)
              → get s' (in_chain (pos h))
                ≡ (if h == height then some v else get s (in_chain (pos h))))
    unfolding set
    set-get s height v c lt =
        let r = set_chain-Assigned s height v c lt in
        let s' : KeyframeSidecar T = record s { keyframes = r.0 } in
        (
          s',
          r.1,
          r.2.0,
          refl,
          refl,
          λ h.
              rw (get-value_from s' h r.2.0, get-value_from s h c)
                (elim (Bool-cases (leb s.chain_length h)) [
                  | inl above ↦ let e : (h == height) ≡ false = ground arith in rw (above, e) refl
                  | inr below ↦ rw below (r.2.1 h (ground arith))
                ]),
        )

    append-Ascending :
        (from end : ℕ) (d : T) (k : Keyframe T) (ks : List (Keyframe T))
        → Ascending from end (k ∷ ks)
        → Ascending from (suc end) (append_default same d end (k ∷ ks))
    unfolding append_default
    append-Ascending from end d k [] h = elim (Bool-cases (same k.value d)) [
      | inl e ↦ rw e (h.0, omega (arith, h.1), tt)
      | inr e ↦ rw e (h.0, omega (arith, h.1), (omega (arith, h.1), omega arith, tt))
    ]
    append-Ascending from end d k (j ∷ ks) h =
        (h.0, omega (arith, h.1), append-Ascending (suc k.start) end d j ks h.2)

    append-value_from :
        (h end from : ℕ) (d : T) (v : Option T) (k : Keyframe T) (ks : List (Keyframe T))
        → Ascending from end (k ∷ ks)
        → h < suc end
        → value_from h v (append_default same d end (k ∷ ks))
          ≡ (if h == end then some d else value_from h v (k ∷ ks))
    unfolding append_default value_from
    append-value_from h end from d v k [] a lt = elim (Bool-cases (h == end)) [
      | inl last ↦
          let past : ltb h k.start ≡ false = ground (arith, a.1) in
          let past' : ltb h end ≡ false = ground arith in
          elim (Bool-cases (same k.value d)) [
            | inl e ↦ rw (e, last, past) (ap some (sound k.value d e))
            | inr e ↦ rw (e, last, past, past') refl
          ]
      | inr before ↦
          let below : ltb h end ≡ true = ground arith in
          elim (Bool-cases (same k.value d)) [
            | inl e ↦ rw (e, before) refl
            | inr e ↦ rw (e, before, below) refl
          ]
    ]
    append-value_from h end from d v (k) (j ∷ ks) a lt =
        append-value_from h end (suc k.start) d (if ltb h k.start then v else some k.value) j ks a.2
          lt

    -- The new tip has the default value.
    pub extended-Covers :
        (s : KeyframeSidecar T)
        → IsCovered s
        → IsCovered (extended same s)
          × ((h : ℕ)
              → h < suc s.chain_length
              → value_from h none (append_default same s.default_value s.chain_length s.keyframes)
                ≡ (if h == s.chain_length
                    then some s.default_value
                    else value_from h none s.keyframes))
    unfolding append_default value_from
    extended-Covers s c = go s.keyframes c
      where
        go :
            (ks : List (Keyframe T))
            → Covers s.chain_length ks
            → Covers (suc s.chain_length) (append_default same s.default_value s.chain_length ks)
              × ((h : ℕ)
                  → h < suc s.chain_length
                  → value_from h none (append_default same s.default_value s.chain_length ks)
                    ≡ (if h == s.chain_length then some s.default_value else value_from h none ks))
        go [] e = ((e, omega arith, tt), λ h lt. ground arith)
        go (k ∷ []) e = (
          elim (Bool-cases (same k.value s.default_value)) [
            | inl q ↦ rw q (e.0, omega (arith, e.1), tt)
            | inr q ↦ rw q (e.0, omega (arith, e.1), (omega (arith, e.1), omega arith, tt))
          ],
          λ h lt.
              append-value_from h s.chain_length 0 s.default_value none k [] (omega arith, e.1, e.2)
                lt,
        )
        go (k ∷ (j ∷ ks)) e = (
          (
            e.0,
            omega (arith, e.1),
            append-Ascending (suc k.start) s.chain_length s.default_value j ks e.2,
          ),
          λ h lt.
              append-value_from h s.chain_length 0 s.default_value none k (j ∷ ks)
                (omega arith, e.1, e.2) lt,
        )

    add_element-tip :
        (s : KeyframeSidecar T) (hash : Hash)
        → add_element same s (in_chain (sub_ℕ s.chain_length 1)) hash ≡ some (none, extended same s)
    unfolding add_element
    add_element-tip s hash =
        let same_height : (s.chain_length == s.chain_length) ≡ true = ground arith in
        rw (add_element, child_height-tip s.chain_length, same_height) refl

    -- Where the keyframes cover the main chain, an element added to its tip, with no reorganisation,
    -- makes the chain longer by one and leaves the forks and the default value; the keyframes cover the
    -- longer chain, and Get returns the default value at the new height and what it returned before at
    -- every other.
    pub add_sync-get :
        (s : KeyframeSidecar T) (hash : Hash)
        → IsCovered s
        → (s' : KeyframeSidecar T) × (add_sync same s (record {
          parent = in_chain (sub_ℕ s.chain_length 1);
          hash = hash;
          moved_from_chain = [];
        })
            ≡ some s')
          × IsCovered s'
          × (s'.chain_length ≡ suc s.chain_length)
          × (s'.forks ≡ s.forks)
          × (s'.default_value ≡ s.default_value)
          × ((h : ℕ)
              → get s' (in_chain (pos h))
                ≡ (if h == s.chain_length then some s.default_value else get s (in_chain (pos h))))
    unfolding add_sync
    add_sync-get s hash c =
        let r = extended-Covers s c in
        let s' : KeyframeSidecar T = extended same s in
        let added : add_sync same s (record {
          parent = in_chain (sub_ℕ s.chain_length 1);
          hash = hash;
          moved_from_chain = [];
        })
            ≡ some s' =
          rw (add_sync, add_element-tip s hash) refl in
        let within : (h : ℕ)
            → h < suc s.chain_length
            → (if h == s.chain_length then some s.default_value else value_from h none s.keyframes)
              ≡ (if h == s.chain_length
                  then some s.default_value
                  else if leb s.chain_length h
                  then none
                  else value_from h none s.keyframes) =
          λ h lt. elim (Bool-cases (h == s.chain_length)) [
            | inl e ↦ rw e refl
            | inr e ↦ let f : leb s.chain_length h ≡ false = ground arith in rw (e, f) refl
          ] in
        (
          s',
          added,
          r.0,
          refl,
          refl,
          refl,
          λ h.
              rw (get-value_from s' h r.0, get-value_from s h c)
                (elim (Bool-cases (leb (suc s.chain_length) h)) [
                  | inl above ↦
                      let e : (h == s.chain_length) ≡ false = ground arith in
                      let above' : leb s.chain_length h ≡ true = ground arith in
                      rw (above, above', e) refl
                  | inr below ↦ rw below (r.1 h (ground arith) ∙ within h (ground arith))
                ]),
        )
