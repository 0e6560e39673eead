-- ===== src/Consensus/Difficulty/Adjust.antt =====
-- The arithmetic of the difficulty adjustment on the numbers of the targets.
use hornet.Common.{
  ℕ, ◌-◌, ◌*◌, ◌/◌, ◌^◌, ◌≤◌, ◌<◌, ◌≡◌, refl, sym, ap, ◌∙◌, some, false, length, ltb, if◌then◌else◌,
  arith, Bool-cases, inl, inr,
}
use hornet.Common.Int.{ℤ, pos, ltb_ℤ}
use hornet.Uint.{Words, word_mod, value, capacity, IsWords, mul_word}
use hornet.Uint.Add.{capacity-eq}
use hornet.Uint.Multiply.{value-mul_word, length-mul_word}
use hornet.Uint.Divide.{value-div_word, length-div_word}
use hornet.Uint.Order.{lt-value}
use native.Mathlib.Nat.{mod-eq_of_lt, mul-le-mul_left}
use hornet.Consensus.Difficulty.{clamp_duration, min_words, adjust_target, pow_target_limit}

-- The duration that the adjustment multiplies by is from 302,400 to 4,838,400 seconds, a quarter
-- of two weeks and four times two weeks, whatever time has elapsed, and it is the elapsed time
-- where that is from the one to the other.
clamp_duration_bounds :
    (elapsed : ℤ)
    → (302_400 ≤ clamp_duration elapsed)
      × (clamp_duration elapsed ≤ 4_838_400)
      × (ltb_ℤ elapsed (pos 302_400) ≡ false
          → ltb_ℤ (pos 4_838_400) elapsed ≡ false
          → pos (clamp_duration elapsed) ≡ elapsed)
unfolding clamp_duration
clamp_duration_bounds elapsed = (ground arith, ground arith, λ h k. ground arith)

abbrev pub limit_number : ℕ
limit_number = 2 ^ 224 - 1

limit_value : (value pow_target_limit ≡ limit_number) × IsWords pow_target_limit
unfolding value
limit_value = (omega arith, (omega arith, (omega arith, (omega arith, (omega arith, tt)))))

abbrev pub min_ℕ : ℕ → ℕ → ℕ
min_ℕ a b = if ltb b a then b else a

min_words_value :
    (a b : Words)
    → IsWords a
    → IsWords b
    → length a ≡ length b
    → (value (min_words a b) ≡ min_ℕ (value a) (value b)) × IsWords (min_words a b)
min_words_value a b ha hb e =
    rw (lt-value b a hb ha (sym e)) (elim (Bool-cases (ltb (value b) (value a))) [
      | inl less ↦ rw less (refl, hb)
      | inr least ↦ rw least (refl, ha)
    ])

limited :
    (quotient : Words) (n : ℕ)
    → IsWords quotient
    → length quotient ≡ 4
    → value quotient ≡ n
    → (value (min_words quotient pow_target_limit) ≡ min_ℕ n limit_number)
      × IsWords (min_words quotient pow_target_limit)
limited quotient n h size e =
    let (least, in_range) = min_words_value quotient pow_target_limit h limit_value.1 size in
    (least ∙ rw (limit_value.0, e) refl, in_range)

no_wrap :
    (t d : ℕ)
    → t ≤ limit_number
    → d ≤ 4_838_400
    → t * d < word_mod * (word_mod * (word_mod * (word_mod * 1)))
no_wrap t d h k = omega (arith, mul-le-mul_left t k)

-- The adjusted target of a target of four words that is at most 2 ^ 224 - 1 is defined, for any
-- elapsed time, and is the target times the clamped duration over two weeks, rounded down, or 2 ^
-- 224 - 1 where that is less: the product does not wrap at 2 ^ 256.
pub adjust_target_value :
    (target : Words) (elapsed : ℤ)
    → IsWords target
    → length target ≡ 4
    → value target ≤ limit_number
    → (next : Words) × (adjust_target target (clamp_duration elapsed) ≡ some next)
      × (value next ≡ min_ℕ (value target * clamp_duration elapsed / 1_209_600) limit_number)
      × IsWords next
unfolding adjust_target
adjust_target_value target elapsed h four below =
    let d = clamp_duration elapsed in
    let (low, high, _) = clamp_duration_bounds elapsed in
    let (product, words) = value-mul_word target d h (omega (arith, high)) in
    let exact : value (mul_word target d) ≡ value target * d =
      product
      ∙ mod-eq_of_lt (rw (capacity_four target four) (no_wrap (value target) d below high)) in
    let (quotient, found, divided, fits) =
      value-div_word (mul_word target d) 1_209_600 words (omega arith) (omega arith) in
    let size =
      length-div_word (mul_word target d) quotient 1_209_600 found
      ∙ length-mul_word target d h
      ∙ four in
    let (least, in_range) =
      limited quotient _ fits size (divided ∙ ap (λ (t : ℕ). t / 1_209_600) exact) in
    (min_words quotient pow_target_limit, rw found refl, least, in_range)
  where
    capacity_four :
        (xs : Words)
        → length xs ≡ 4
        → capacity xs ≡ word_mod * (word_mod * (word_mod * (word_mod * 1)))
    capacity_four xs e = capacity-eq xs pow_target_limit e ∙ (unfold capacity in refl)
