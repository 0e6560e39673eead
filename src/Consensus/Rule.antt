-- ===== src/Consensus/Rule.antt =====
-- src/hornetlib/consensus/{rule,bips}.h: rules that a proposal switches on at a height, and the
-- validation of a whole ruleset.
use hornet.Common.{
  ℕ, ◌≡◌, refl, List, [], ◌∷◌, ◌++◌, Option, none, some, Bool, true, leb, if◌then◌else◌, ◌↔◌,
  Bool-cases, inl, inr,
}
use hornet.Consensus.Types.{Result, Error, success, failure, aborts, and_then, and_then_iff}

pub data Bip : Type 0 where
  height_in_coinbase check_lock_time_verify strict_der_signatures lock_time_median_past seg_wit :
      Bip

unfoldable pub activation_height : Bip → ℕ
activation_height height_in_coinbase = 227_931
activation_height check_lock_time_verify = 388_381
activation_height strict_der_signatures = 363_725
activation_height lock_time_median_past = 419_328
activation_height seg_wit = 481_824

unfoldable pub is_bip_enabled_at_height : Bip → ℕ → Bool
unfolding activation_height
is_bip_enabled_at_height bip height = leb (activation_height bip) height

-- The function with its projection, and the proposal that switches the rule on.
pub record Rule {ℓ} (C : Type ℓ) : Type ℓ where
  pub fn : C → Result
  pub bip : Option Bip

module _ {ℓ} {C : Type ℓ} where
  abbrev pub rule : (C → Result) → Rule C
  rule f = record { fn = f; bip = none }

  abbrev pub rule_bip : (C → Result) → Bip → Rule C
  rule_bip f b = record { fn = f; bip = some b }

  unfoldable pub is_enabled : Rule C → ℕ → Bool
  unfolding is_bip_enabled_at_height
  is_enabled r height = elim r.bip [ none ↦ true | some b ↦ is_bip_enabled_at_height b height ]

  -- Rule::operator().
  unfoldable pub apply_rule : Rule C → ℕ → C → Result
  unfolding is_enabled
  apply_rule r height c = if is_enabled r height then r.fn c else success

  -- The loop of ValidateRules over the results so far.
  unfoldable pub validate_from : Result → List (Rule C) → ℕ → C → Result
  unfolding and_then apply_rule
  validate_from rv [] height c = rv
  validate_from rv (r ∷ rs) height c =
      validate_from (and_then rv (apply_rule r height c)) rs height c

  unfoldable pub validate_rules : List (Rule C) → ℕ → C → Result
  unfolding validate_from
  validate_rules = validate_from success

abbrev pub rule_at {ℓ κ} : {C : Type ℓ} {D : Type κ} → (D → Result) → (C → D) → Rule C
rule_at f project = record { fn = λ c. f (project c); bip = none }

-- What is left of the rules once one has not succeeded.
module _ {ℓ} {C : Type ℓ} where
  validate_from_failure :
      (rs : List (Rule C)) (e : Error) (height : ℕ) (c : C)
      → validate_from (failure e) rs height c ≡ failure e
  unfolding validate_from and_then
  validate_from_failure [] e height c = refl
  validate_from_failure (r ∷ rs) e height c = validate_from_failure rs e height c

  validate_from_aborts :
      (rs : List (Rule C)) (height : ℕ) (c : C) → validate_from aborts rs height c ≡ aborts
  unfolding validate_from and_then
  validate_from_aborts [] height c = refl
  validate_from_aborts (r ∷ rs) height c = validate_from_aborts rs height c

  -- The first rule decides where it does not succeed, and otherwise the rest do.
  pub validate_rules-cons :
      (r : Rule C) (rs : List (Rule C)) (height : ℕ) (c : C)
      → validate_rules (r ∷ rs) height c
        ≡ and_then (apply_rule r height c) (validate_rules rs height c)
  unfolding validate_rules
  validate_rules-cons r rs height c = go (apply_rule r height c)
    where
      go :
          (x : Result)
          → validate_from (and_then success x) rs height c
            ≡ and_then x (validate_from success rs height c)
      go success = refl
      go (failure e) = validate_from_failure rs e height c
      go aborts = validate_from_aborts rs height c

  -- Every rule that is switched on at the height succeeds.
  abbrev pub AllSucceed : List (Rule C) → ℕ → C → Type 0
  AllSucceed [] height c = Unit {0}
  AllSucceed (r ∷ rs) height c =
      (is_enabled r height ≡ true → r.fn c ≡ success) × AllSucceed rs height c

  apply_rule_iff :
      (r : Rule C) (height : ℕ) (c : C)
      → (apply_rule r height c ≡ success) ↔ (is_enabled r height ≡ true → r.fn c ≡ success)
  unfolding apply_rule
  apply_rule_iff r height c = elim (Bool-cases (is_enabled r height)) [
    | inl on ↦ (λ h _. rw on at h, λ h. rw on (h on))
    | inr off ↦ (λ h on. cc, λ h. rw off)
  ]

  -- A ruleset succeeds exactly when every rule in it that is switched on at the height succeeds.
  pub validate_rules_iff :
      (rs : List (Rule C)) (height : ℕ) (c : C)
      → (validate_rules rs height c ≡ success) ↔ AllSucceed rs height c
  validate_rules_iff [] height c = (λ _. tt, λ _. unfold validate_rules in refl)
  validate_rules_iff (r ∷ rs) height c =
      let (sound, complete) = validate_rules_iff rs height c in
      let (split, join) = and_then_iff (apply_rule r height c) (validate_rules rs height c) in
      let (allowed, allow) = apply_rule_iff r height c in
      (
        λ h.
            let both = split (rw (validate_rules-cons r rs height c) at h) in
            (allowed both.0, sound both.1),
        λ h. rw (validate_rules-cons r rs height c) (join (allow h.0, complete h.1)),
      )

  apply_rule_failure :
      (r : Rule C) (height : ℕ) (c : C) (e : Error)
      → is_enabled r height ≡ true
      → r.fn c ≡ failure e
      → apply_rule r height c ≡ failure e
  unfolding apply_rule
  apply_rule_failure r height c e enabled fails = rw enabled fails

  -- Where every rule in front of a rule that is switched on succeeds, and that rule fails, the
  -- ruleset fails with that rule's error, whatever rules stand behind it.
  pub validate_rules_first_failure :
      (front : List (Rule C)) (r : Rule C) (back : List (Rule C)) (height : ℕ) (c : C) (e : Error)
      → AllSucceed front height c
      → is_enabled r height ≡ true
      → r.fn c ≡ failure e
      → validate_rules (front ++ (r ∷ back)) height c ≡ failure e
  validate_rules_first_failure [] r back height c e h enabled fails =
      rw (validate_rules-cons r back height c, apply_rule_failure r height c e enabled fails)
        (unfold and_then in refl)
  validate_rules_first_failure (q ∷ front) r back height c e h enabled fails =
      rw
        (
          validate_rules-cons q (front ++ (r ∷ back)) height c,
          (apply_rule_iff q height c).1 h.0,
          validate_rules_first_failure front r back height c e h.1 enabled fails,
        )
        (unfold and_then in refl)
