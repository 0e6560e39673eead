-- ===== src/Common/Int32.antt =====
-- The int of the source, of 32 bits, whose sums and products are undefined beyond its range.
use hornet.Common.{
  ℕ, ◌+◌, ◌-◌, ◌^◌, ◌<◌, ◌≤◌, ◌≡◌, refl, sym, ◌∙◌, ◌↔◌, ◌⊎◌, Bool, Bool-cases, inl, inr, not, ◌&&◌,
  Option, none, some, if◌then◌else◌, arith,
}
use mathlib.Core.Path.{subst}
use mathlib.Core.Option.{some-injective}
use hornet.Common.Int.{ℤ, pos, negsuc, ◌+ℤ◌, ◌-ℤ◌, ◌≤ℤ◌, ltb_ℤ}

abbrev pub is_int : ℤ → Bool
is_int z = ltb_ℤ z (pos (2 ^ 31)) && not (ltb_ℤ z (negsuc (2 ^ 31 - 1)))

-- The result of a signed operation whose exact value is `z`: `none` where it overflows.
unfoldable pub int_result : ℤ → Option ℤ
int_result z = if is_int z then some z else none

-- The range of an int, from -2^31 to 2^31 - 1.
abbrev pub InInt : ℤ → Type 0
InInt z = (negsuc 2_147_483_647 ≤ℤ z) × (z ≤ℤ pos 2_147_483_647)

pub int_result_pos : (n : ℕ) → n < 2 ^ 31 → int_result (pos n) ≡ some (pos n)
unfolding int_result
int_result_pos n h = ground arith

pub int_result_sum : (m n : ℕ) → m + n < 2 ^ 31 → int_result (pos m +ℤ pos n) ≡ some (pos (m + n))
unfolding int_result ◌+ℤ◌
int_result_sum m n h = ground arith

pub int_result_difference :
    (m n : ℕ) → m < 2 ^ 31 → n < 2 ^ 31 → n ≤ m → int_result (pos m -ℤ pos n) ≡ some (pos (m - n))
unfolding int_result ◌-ℤ◌
int_result_difference m n h k le = ground arith

-- An operation has a result exactly when its exact value is in the range, and it is that value.
int_result-cases :
    (z : ℤ) → ((int_result z ≡ some z) × InInt z) ⊎ ((int_result z ≡ none) × ¬ InInt z)
unfolding int_result
int_result-cases z = elim (Bool-cases (is_int z)) [
  | inl held ↦ inl (rw held refl, ground arith)
  | inr over ↦ inr (rw over refl, λ h. ground arith)
]

pub int_result_iff :
    {P : ℤ → Type 0} (z : ℤ) → ((r : ℤ) × (int_result z ≡ some r) × P r) ↔ (InInt z × P z)
int_result_iff {P} z = elim (int_result-cases z) [
  | inl (e, range) ↦
      (λ h. (range, subst P (some-injective _ _ (sym h.1 ∙ e)) h.2), λ h. (z, e, h.1))
  | inr (e, out) ↦ (λ h. cc, λ h. absurd (out h.0))
]

-- The same where another operation follows.
pub then_result_iff :
    {Q : Type 0} {P : ℤ → Type 0} (z : ℤ) (f : ℤ → Option ℤ)
    → ((r : ℤ) × (f z ≡ some r) × P r) ↔ Q
    → ((r : ℤ) × (elim (int_result z) [ none ↦ none | some t ↦ f t ] ≡ some r) × P r)
      ↔ (InInt z × Q)
then_result_iff {P} z f (sound, complete) = elim (int_result-cases z) [
  | inl (e, range) ↦ rw e (λ h. (range, sound h), λ h. complete h.1)
  | inr (e, out) ↦ rw e (λ h. cc, λ h. absurd (out h.0))
]
