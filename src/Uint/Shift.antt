-- ===== src/Uint/Shift.antt =====
-- The shifts of src/hornetlib/util/big_uint.h, on the numbers, and where they are defined.
pub mod Left
use hornet.Common.{
  ℕ, zero, suc, ◌+◌, ◌-◌, ◌*◌, ◌/◌, ◌%◌, ◌^◌, ◌<◌, ◌≤◌, ◌≡◌, refl, sym, ap, ◌∙◌, [], ◌∷◌, ◌++◌,
  length, arith, some, drop, replicate, length-append, length-drop, length-replicate,
}
use hornet.Common.Bits.{bit_or_disjoint, bit_or_comm, pow_add, pow_pos}
use hornet.Uint.{
  Words, word_mod, value, capacity, IsWords, shl_bits, shl_first, shr_bits, shift_right,
}
use hornet.Uint.Add.{mod_of_sum}
use native.Mathlib.Nat.{
  div-add-mod, mod-lt, div-eq_of_lt-le, div-lt_iff_lt-mul, add_comm, div-le_self, zero-div,
  mul_comm, div-div-eq-div-mul,
}
use Prim.Native.Nat.{bit_or}

-- The two powers of a shift by `s` bits within a word make up the word.
power_split : (s : ℕ) → s ≤ 64 → 2 ^ s * 2 ^ (64 - s) ≡ word_mod
power_split s h = pow_add s (64 - s) ∙ sixty_four s h
  where
    sixty_four : (s : ℕ) → s ≤ 64 → 2 ^ (s + (64 - s)) ≡ word_mod
    sixty_four s h = rw (sum) refl
      where
        sum : s + (64 - s) ≡ 64
        sum = omega arith

module _ (p k : ℕ) (whole : p * 2 ^ k ≡ word_mod) (p_pos : 0 < p) where
  scaled_bound : (m : ℕ) → m < p → m * 2 ^ k + 2 ^ k ≤ word_mod
  scaled_bound m h = omega (arith, whole, ap (λ (t : ℕ). t * 2 ^ k) above)
    where
      above : p ≡ m + 1 + (p - (m + 1))
      above = omega arith

  -- The low bits of a word, moved to its top.
  moved_up : (y : ℕ) → y % p * 2 ^ k ≡ y * 2 ^ k % word_mod
  moved_up y =
      mod_of_sum (y % p * 2 ^ k) (y / p) word_mod (y * 2 ^ k)
        (omega (arith, scaled_bound (y % p) (mod-lt y p_pos), pow_pos k))
        (omega
          (arith, ap (λ (t : ℕ). t * 2 ^ k) (div-add-mod y p), ap (λ (t : ℕ). y / p * t) whole))

  quotient_bound : (x : ℕ) → x < word_mod → x / p < 2 ^ k
  quotient_bound x h = (div-lt_iff_lt-mul p_pos).1 (omega (arith, whole))

  -- A word of a right shift: the high bits of its own word, below the low bits of the next.
  joined_right :
      (x y : ℕ) → x < word_mod → bit_or (x / p) (y * 2 ^ k % word_mod) ≡ x / p + y % p * 2 ^ k
  joined_right x y h =
      rw (← moved_up y, bit_or_comm (x / p) (y % p * 2 ^ k))
        (bit_or_disjoint k (y % p) (x / p) (quotient_bound x h) ∙ add_comm _ _)

  low_part : (y v : ℕ) → y % p ≡ (y + word_mod * v) % p
  low_part y v =
      mod_of_sum (y % p) (y / p + 2 ^ k * v) p (y + word_mod * v) (mod-lt y p_pos)
        (omega (arith, div-add-mod y p, ap (λ (t : ℕ). t * v) whole))

  shift_right_sum : (x v : ℕ) → x / p + 2 ^ k * v ≡ (x + word_mod * v) / p
  shift_right_sum x v = sym (
      div-eq_of_lt-le p (omega (arith, div-add-mod x p, ap (λ (t : ℕ). t * v) whole))
        (omega (arith, div-add-mod x p, mod-lt x p_pos, ap (λ (t : ℕ). t * v) whole)))

  shr_total :
      (x y v : ℕ)
      → x / p + y % p * 2 ^ k + word_mod * ((y + word_mod * v) / p)
        ≡ (x + word_mod * (y + word_mod * v)) / p
  shr_total x y v =
      rw (low_part y v) (grouped (y + word_mod * v) ∙ shift_right_sum x (y + word_mod * v))
    where
      grouped : (u : ℕ) → x / p + u % p * 2 ^ k + word_mod * (u / p) ≡ x / p + 2 ^ k * u
      grouped u =
          omega
            (arith, ap (λ (t : ℕ). t * 2 ^ k) (div-add-mod u p), ap (λ (t : ℕ). t * (u / p)) whole)

-- A right shift within the words, by at least one bit.
le_lt : (w p : ℕ) → w < word_mod → w / p < word_mod
le_lt w p h = omega (arith, div-le_self w p)

module _ (s : ℕ) (small : s < 64) (some_bits : 0 < s) where
  right_whole : 2 ^ s * 2 ^ (64 - s) ≡ word_mod
  right_whole = power_split s (omega arith)

  shr_word_fits :
      (w y : ℕ) → w < word_mod → bit_or (w / 2 ^ s) (y * 2 ^ (64 - s) % word_mod) < word_mod
  shr_word_fits w y h = rw (joined_right (2 ^ s) (64 - s) right_whole (pow_pos s) w y h) (
      omega (
        arith,
        quotient_bound (2 ^ s) (64 - s) right_whole (pow_pos s) w h,
        scaled_bound (2 ^ s) (64 - s) right_whole (pow_pos s) (y % 2 ^ s) (mod-lt y (pow_pos s)),
      ))

  pub shr_bits_value :
      (xs : Words)
      → IsWords xs
      → (ys : Words) × (shr_bits s xs ≡ some ys)
        × (value ys ≡ value xs / 2 ^ s)
        × IsWords ys
        × (length ys ≡ length xs)
  unfolding value shr_bits
  shr_bits_value [] h = ([], refl, sym (zero-div (2 ^ s)), tt, refl)
  shr_bits_value (w ∷ []) h =
      ((w / 2 ^ s) ∷ [], ground arith, rw (plain w) (omega arith), (le_lt w (2 ^ s) h.0, tt), refl)
    where
      plain : (n : ℕ) → n + word_mod * 0 ≡ n
      plain n = omega arith
  shr_bits_value (w ∷ (y ∷ ws)) h =
      let (ys, run, number, fits, len) = shr_bits_value (y ∷ ws) h.1 in
      (
        bit_or (w / 2 ^ s) (y * 2 ^ (64 - s) % word_mod) ∷ ys,
        ground (arith, run),
        rw (joined_right (2 ^ s) (64 - s) right_whole (pow_pos s) w y h.0, number)
            (shr_total (2 ^ s) (64 - s) right_whole (pow_pos s) w y (value ws)),
        (shr_word_fits w y h.0, fits),
        ap suc len,
      )

pub word_power : (m : ℕ) → 2 ^ (64 * suc m) ≡ word_mod * 2 ^ (64 * m)
word_power m = sym (pow_add 64 (64 * m) ∙ ap (λ (t : ℕ). 2 ^ t) next)
  where
    next : 64 + 64 * m ≡ 64 * suc m
    next = omega arith

value-drop : (m : ℕ) (xs : Words) → IsWords xs → value (drop m xs) ≡ value xs / 2 ^ (64 * m)
unfolding value
value-drop zero xs h = omega arith
value-drop (suc m) [] h = sym (zero-div (2 ^ (64 * suc m)))
value-drop (suc m) (x ∷ xs) h =
    value-drop m xs h.1
    ∙ ap (λ (t : ℕ). t / 2 ^ (64 * m)) shifted
    ∙ div-div-eq-div-mul (x + word_mod * value xs) word_mod (2 ^ (64 * m))
    ∙ ap (λ (t : ℕ). (x + word_mod * value xs) / t) (sym (word_power m))
  where
    shifted : value xs ≡ (x + word_mod * value xs) / word_mod
    shifted = omega (arith, h.0)

IsWords-drop : (m : ℕ) (xs : Words) → IsWords xs → IsWords (drop m xs)
IsWords-drop zero xs h = h
IsWords-drop (suc m) [] h = tt
IsWords-drop (suc m) (x ∷ xs) h = IsWords-drop m xs h.1

value-append_zeros :
    (ws : Words) (m : ℕ)
    → IsWords ws
    → (value (ws ++ replicate m 0) ≡ value ws) × IsWords (ws ++ replicate m 0)
unfolding value
value-append_zeros [] zero h = (refl, tt)
value-append_zeros [] (suc m) h =
    let (v, w) = value-append_zeros [] m h in (omega (arith, v), (omega arith, w))
value-append_zeros (x ∷ ws) m h =
    let (v, w) = value-append_zeros ws m h.1 in (omega (arith, v), (h.0, w))

-- A right shift by less than the width and by no whole number of words, of an integer whose words
-- are in range, is defined, and divides the number by the power of two, rounded down, in words
-- that are in range and as many.
pub value-shift_right :
    (xs : Words) (n : ℕ)
    → IsWords xs
    → 0 < n % 64
    → n < 64 * length xs
    → (ys : Words) × (shift_right xs n ≡ some ys)
      × (value ys ≡ value xs / 2 ^ n)
      × IsWords ys
      × (length ys ≡ length xs)
unfolding shift_right
value-shift_right xs n h bits fits =
    let m = n / 64 in
    let s = n - m * 64 in
    let (ws, run, number, words, len) =
      shr_bits_value s (omega arith) (omega arith) (drop m xs) (IsWords-drop m xs h) in
    let (v, w) = value-append_zeros ws m words in
    (
      ws ++ replicate m 0,
      ground (arith, run),
      v
          ∙ number
          ∙ ap (λ (t : ℕ). t / 2 ^ s) (value-drop m xs h)
          ∙ div-div-eq-div-mul (value xs) (2 ^ (64 * m)) (2 ^ s)
          ∙ ap (λ (t : ℕ). value xs / t) (pow_add (64 * m) s ∙ ap (λ (t : ℕ). 2 ^ t) exponent),
      w,
      omega (
        arith,
        len,
        length-append ws (replicate m 0),
        length-drop m xs,
        length-replicate {A = ℕ} m 0,
      ),
    )
  where
    exponent : 64 * (n / 64) + (n - n / 64 * 64) ≡ n
    exponent = omega arith

-- A left shift within the words, by at least one bit.
module _ (s : ℕ) (small : s < 64) (some_bits : 0 < s) where
  left_whole : 2 ^ (64 - s) * 2 ^ s ≡ word_mod
  left_whole = mul_comm (2 ^ (64 - s)) (2 ^ s) ∙ power_split s (omega arith)

  joined_left :
      (w below : ℕ)
      → below < word_mod
      → bit_or (w * 2 ^ s % word_mod) (below / 2 ^ (64 - s))
        ≡ w % 2 ^ (64 - s) * 2 ^ s + below / 2 ^ (64 - s)
  joined_left w below h = rw (← moved_up (2 ^ (64 - s)) s left_whole (pow_pos (64 - s)) w) (
      bit_or_disjoint s (w % 2 ^ (64 - s)) (below / 2 ^ (64 - s))
        (quotient_bound (2 ^ (64 - s)) s left_whole (pow_pos (64 - s)) below h))

  left_step :
      (w below : ℕ)
      → below < word_mod
      → (bit_or (w * 2 ^ s % word_mod) (below / 2 ^ (64 - s)) + word_mod * (w / 2 ^ (64 - s))
          ≡ w * 2 ^ s + below / 2 ^ (64 - s))
        × (bit_or (w * 2 ^ s % word_mod) (below / 2 ^ (64 - s)) < word_mod)
  left_step w below h = rw (joined_left w below h) (
    omega (
      arith,
      ap (λ (t : ℕ). t * 2 ^ s) (div-add-mod w (2 ^ (64 - s))),
      ap (λ (t : ℕ). t * (w / 2 ^ (64 - s))) left_whole,
    ),
    omega (
      arith,
      quotient_bound (2 ^ (64 - s)) s left_whole (pow_pos (64 - s)) below h,
      scaled_bound (2 ^ (64 - s)) s left_whole (pow_pos (64 - s)) (w % 2 ^ (64 - s))
          (mod-lt w (pow_pos (64 - s))),
    ),
  )

  shl_bits_value :
      (below : ℕ) (xs : Words)
      → below < word_mod
      → IsWords xs
      → (ys : Words) × (k : ℕ) × (shl_bits s below xs ≡ some ys)
        × (value ys + k * capacity xs ≡ value xs * 2 ^ s + below / 2 ^ (64 - s))
        × IsWords ys
        × (length ys ≡ length xs)
  unfolding value capacity shl_bits
  shl_bits_value below [] hb h = ([], below / 2 ^ (64 - s), refl, omega arith, tt, refl)
  shl_bits_value below (w ∷ ws) hb h =
      let (ys, k, run, number, fits, len) = shl_bits_value w ws h.0 h.1 in
      let (here, small_word) = left_step w below hb in
      (
        bit_or (w * 2 ^ s % word_mod) (below / 2 ^ (64 - s)) ∷ ys,
        k,
        ground (arith, run),
        omega (arith, here, number),
        (small_word, fits),
        ap suc len,
      )

  pub shl_first_value :
      (xs : Words)
      → IsWords xs
      → (ys : Words) × (k : ℕ) × (shl_first s xs ≡ some ys)
        × (value ys + k * capacity xs ≡ value xs * 2 ^ s)
        × IsWords ys
        × (length ys ≡ length xs)
  unfolding value capacity shl_first
  shl_first_value [] h = ([], 0, refl, omega arith, tt, refl)
  shl_first_value (w ∷ ws) h =
      let (ys, k, run, number, fits, len) = shl_bits_value w ws h.0 h.1 in
      let (here, small_word) = left_step w 0 (omega arith) in
      (
        (w * 2 ^ s % word_mod) ∷ ys,
        k,
        ground (arith, run),
        omega (
          arith,
          number,
          moved_up (2 ^ (64 - s)) s left_whole (pow_pos (64 - s)) w,
          ap (λ (t : ℕ). t * 2 ^ s) (div-add-mod w (2 ^ (64 - s))),
          ap (λ (t : ℕ). t * (w / 2 ^ (64 - s))) left_whole,
        ),
        (omega arith, fits),
        ap suc len,
      )
