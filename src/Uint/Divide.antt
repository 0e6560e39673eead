-- ===== src/Uint/Divide.antt =====
-- Division by a word in src/hornetlib/util/big_uint.h.
use hornet.Common.{
  ℕ, zero, suc, ◌+◌, ◌-◌, ◌*◌, ◌/◌, ◌%◌, ◌^◌, ◌<◌, ◌≤◌, ◌≡◌, length, refl, sym, ap, ◌∙◌, [], ◌∷◌,
  arith, leb, leb→le, ◌==◌, if◌then◌else◌, Bool-cases, dec_lt, ==_iff, inl, inr, some,
}
use hornet.Common.Bits.{bit_or_disjoint, pow_pos}
use mathlib.Core.Option.{some-injective}
use hornet.Uint.{Words, word_mod, value, IsWords, div_bits, div_double_word, div_loop, div_word}
use hornet.Uint.Add.{mod_of_sum}
use native.Mathlib.Nat.{div-add-mod, mod-lt, div-eq_of_lt-le}
use Prim.Native.Nat.{bit_or}

-- The lowest i + 1 bits are bit i and the bits below it.
low_bits_split : (lo i : ℕ) → lo / 2 ^ i % 2 * 2 ^ i + lo % 2 ^ i ≡ lo % 2 ^ suc i
low_bits_split lo i = split (2 ^ i) (2 ^ suc i) (omega arith) (pow_pos i)
  where
    split : (p p2 : ℕ) → p2 ≡ 2 * p → 0 < p → lo / p % 2 * p + lo % p ≡ lo % p2
    split p p2 e h =
        mod_of_sum _ (lo / p / 2) p2 lo (bounded (lo / p % 2) (lo % p) (omega arith) (mod-lt lo h))
          (regroup (lo / p) (lo / p / 2) (lo / p % 2) (lo % p) (omega arith) (div-add-mod lo p))
      where
        bounded : (b m : ℕ) → b < 2 → m < p → b * p + m < p2
        bounded zero m hb hm = omega arith
        bounded (suc zero) m hb hm = omega arith
        bounded (suc (suc b)) m hb hm = absurd (omega arith)

        regroup : (q q2 b m : ℕ) → q ≡ 2 * q2 + b → p * q + m ≡ lo → b * p + m + q2 * p2 ≡ lo
        regroup q q2 b m e1 e2 = rw (e) (omega (arith, e2, ap (λ (t : ℕ). p * t) e1))

-- The arithmetic of a round, with p for the weight of bit i, b for the bit, and low for those below.
keep_total :
    (q r d p p2 b low low2 : ℕ)
    → p2 ≡ 2 * p
    → b * p + low ≡ low2
    → q * d + (r * 2 + b) * p + low ≡ q * d + r * p2 + low2
keep_total q r d p p2 b low low2 e e2 = omega (arith, ap (λ (t : ℕ). r * t) e)

take_total :
    (q r d p p2 b low low2 : ℕ)
    → p2 ≡ 2 * p
    → b * p + low ≡ low2
    → d ≤ r * 2 + b
    → (q + p) * d + (r * 2 + b - d) * p + low ≡ q * d + r * p2 + low2
take_total q r d p p2 b low low2 e e2 h =
    omega (arith, ap (λ (t : ℕ). r * t) e, ap (λ (t : ℕ). t * p) whole)
  where
    whole : r * 2 + b - d + d ≡ r * 2 + b
    whole = omega arith

-- One round: the remainder takes in bit i, and the quotient gets bit i where the divisor fits.
div_round :
    (i q r lo d h : ℕ)
    → r < d
    → d ≤ 2 ^ 63
    → q ≡ h * 2 ^ suc i
    → let r' = bit_or (r * 2 % word_mod) (lo / 2 ^ i % 2) in
      let q'' = if leb d r' then bit_or q (2 ^ i) else q in
      let r'' = if leb d r' then r' - d else r' in
      (q'' * d + r'' * 2 ^ i + lo % 2 ^ i ≡ q * d + r * 2 ^ suc i + lo % 2 ^ suc i)
      × (r'' < d)
      × ((h' : ℕ) × (q'' ≡ h' * 2 ^ i))
div_round i q r lo d h hr hd e =
    rw (shifted, bit_or_disjoint 1 r (lo / 2 ^ i % 2) (omega arith))
      (elim (Bool-cases (leb d (r * 2 ^ 1 + lo / 2 ^ i % 2))) [
        | inl fits ↦
            rw (fits, joined)
              (
                take_total q r d (2 ^ i) (2 ^ suc i) _ _ _ double split (leb→le _ _ fits),
                omega arith,
                (h * 2 + 1, rw e (omega (arith, half))),
              )
        | inr less ↦ rw less (
          keep_total q r d (2 ^ i) (2 ^ suc i) _ _ _ double split,
          ground arith,
          (h * 2, rw e (omega (arith, half))),
        )
      ])
  where
    shifted : r * 2 % word_mod ≡ r * 2 ^ 1
    shifted = omega arith

    double : 2 ^ suc i ≡ 2 * 2 ^ i
    double = omega arith

    half : h * 2 ^ suc i ≡ h * (2 * 2 ^ i)
    half = ap (λ (t : ℕ). h * t) double

    split : lo / 2 ^ i % 2 * 2 ^ i + lo % 2 ^ i ≡ lo % 2 ^ suc i
    split = low_bits_split lo i

    joined : bit_or q (2 ^ i) ≡ q + 2 ^ i
    joined = rw e (bit_or_disjoint (suc i) h (2 ^ i) (omega (arith, pow_pos i)))

div_bits_lem :
    (i q r lo d h : ℕ)
    → r < d
    → d ≤ 2 ^ 63
    → q ≡ h * 2 ^ i
    → ((div_bits i q r lo d).0 * d + (div_bits i q r lo d).1 ≡ q * d + r * 2 ^ i + lo % 2 ^ i)
      × ((div_bits i q r lo d).1 < d)
unfolding div_bits
div_bits_lem zero q r lo d h hr hd e = (omega arith, hr)
div_bits_lem (suc i) q r lo d h hr hd e =
    let r' = bit_or (r * 2 % word_mod) (lo / 2 ^ i % 2) in
    let q'' = if leb d r' then bit_or q (2 ^ i) else q in
    let r'' = if leb d r' then r' - d else r' in
    let (here, small, (h', e')) = div_round i q r lo d h hr hd e in
    let (rest, last) = div_bits_lem i q'' r'' lo d h' small hd e' in (rest ∙ here, last)

-- For a divisor of at most 2 ^ 63 and a high word less than the divisor, the long division of two
-- words by one gives the quotient, which fits in a word, and the remainder.
div_double_word_lem :
    (hi lo d : ℕ)
    → hi < d
    → d ≤ 2 ^ 63
    → lo < word_mod
    → ((div_double_word hi lo d).0 * d + (div_double_word hi lo d).1 ≡ hi * word_mod + lo)
      × ((div_double_word hi lo d).1 < d)
      × ((div_double_word hi lo d).0 < word_mod)
unfolding div_double_word
div_double_word_lem hi lo d hr hd hl =
    let (whole, last) = div_bits_lem 64 0 hi lo d 0 hr hd refl in
    let total : (div_bits 64 0 hi lo d).0 * d + (div_bits 64 0 hi lo d).1 ≡ hi * word_mod + lo =
      omega (arith, whole) in
    (total, last, quotient_fits _ _ total)
  where
    quotient_fits : (q r : ℕ) → q * d + r ≡ hi * word_mod + lo → q < word_mod
    quotient_fits q r e = elim (dec_lt q word_mod) [
      | yes h ↦ h
      | no h ↦ absurd (omega (arith, ap (λ (t : ℕ). t * d) (above q (omega arith))))
    ]
      where
        above : (q : ℕ) → word_mod ≤ q → q ≡ word_mod + (q - word_mod)
        above q h = omega arith

-- The quotient and the remainder of all the words together.
div_loop_value :
    (ws : Words) (d : ℕ)
    → IsWords ws
    → 0 < d
    → d ≤ 2 ^ 63
    → (value (div_loop ws d).0 * d + (div_loop ws d).1 ≡ value ws)
      × ((div_loop ws d).1 < d)
      × IsWords (div_loop ws d).0
unfolding value div_loop
div_loop_value [] d h pos hd = (omega arith, pos, tt)
div_loop_value (w ∷ ws) d h pos hd =
    let (whole, last, fits) = div_loop_value ws d h.1 pos hd in
    let (here, last', fits') = div_double_word_lem (div_loop ws d).1 w d last hd h.0 in
    (omega (arith, whole, here), last', (fits', fits))

-- Division of an integer whose words are in range by a word from 1 to 2 ^ 63 does not throw, and
-- gives the quotient of the numbers, in words that are in range.
pub value-div_word :
    (xs : Words) (d : ℕ)
    → IsWords xs
    → 0 < d
    → d ≤ 2 ^ 63
    → (qs : Words) × (div_word xs d ≡ some qs) × (value qs ≡ value xs / d) × IsWords qs
unfolding div_word
value-div_word xs d h pos hd = elim (Bool-cases (d == 1)) [
  | inl e ↦ (xs, ground arith, rw ((==_iff d 1).0 e) (omega arith), h)
  | inr e ↦
      let (whole, last, fits) = div_loop_value xs d h pos hd in
      (
        (div_loop xs d).0,
        ground arith,
        sym (div-eq_of_lt-le d (omega (arith, whole)) (omega (arith, whole, last))),
        fits,
      )
]

length-div_loop : (xs : Words) (d : ℕ) → length (div_loop xs d).0 ≡ length xs
unfolding div_loop
length-div_loop [] d = refl
length-div_loop (x ∷ xs) d = ap suc (length-div_loop xs d)

pub length-div_word : (xs qs : Words) (d : ℕ) → div_word xs d ≡ some qs → length qs ≡ length xs
unfolding div_word
length-div_word xs qs d e = elim (Bool-cases (d == 0)) [
  | inl zero_divisor ↦ ground arith
  | inr f ↦ elim (Bool-cases (d == 1)) [
    | inl one ↦ let same = some-injective _ _ (rw (f, one) at e) in rw (sym same) refl
    | inr other ↦
        let same = some-injective _ _ (rw (f, other) at e) in rw (sym same) (length-div_loop xs d)
  ]
]
