-- ===== src/Uint/Shift/Left.antt =====
-- Whole left shifts, and the shifts that are undefined.
use hornet.Common.{
  ◌⊎◌, inl, inr, ℕ, zero, suc, ◌+◌, ◌-◌, ◌*◌, ◌/◌, ◌%◌, ◌^◌, ◌<◌, ◌≤◌, ◌≡◌, refl, sym, ap, ◌∙◌, [],
  ◌∷◌, ◌++◌, length, arith, some, none, drop, take, replicate, length-append, length-drop,
  length-take, length-replicate,
}
use hornet.Common.Bits.{pow_add}
use hornet.Uint.{
  Words, word_mod, value, capacity, IsWords, shl_first, shl_bits, shift_left, shr_bits, shift_right,
}
use hornet.Uint.Add.{mod_of_sum, value-lt-capacity, capacity-eq}
use hornet.Uint.Shift.{shl_first_value, word_power}

value-zeros_append :
    (m : ℕ) (ws : Words)
    → IsWords ws
    → (value (replicate m 0 ++ ws) ≡ 2 ^ (64 * m) * value ws) × IsWords (replicate m 0 ++ ws)
unfolding value
value-zeros_append zero ws h = (omega arith, h)
value-zeros_append (suc m) ws h =
    let (v, w) = value-zeros_append m ws h in
    (omega (arith, v, ap (λ (t : ℕ). t * value ws) (word_power m)), (omega arith, w))

IsWords-take : (m : ℕ) (xs : Words) → IsWords xs → IsWords (take m xs)
IsWords-take zero xs h = tt
IsWords-take (suc m) [] h = tt
IsWords-take (suc m) (x ∷ xs) h = (h.0, IsWords-take m xs h.1)

value-take :
    (j : ℕ) (xs : Words) → value (take j xs) + value (drop j xs) * capacity (take j xs) ≡ value xs
unfolding value capacity
value-take zero xs = omega arith
value-take (suc j) [] = omega arith
value-take (suc j) (x ∷ xs) = omega (arith, value-take j xs)

capacity-take :
    (j m : ℕ) (xs : Words) → j + m ≡ length xs → capacity (take j xs) * 2 ^ (64 * m) ≡ capacity xs
unfolding capacity
capacity-take zero zero [] e = omega arith
capacity-take zero (suc m) [] e = absurd (omega arith)
capacity-take zero zero (x ∷ xs) e = absurd (omega arith)
capacity-take zero (suc m) (x ∷ xs) e =
    omega (arith, word_power m, capacity-take zero m xs (omega arith))
capacity-take (suc j) m [] e = absurd (omega arith)
capacity-take (suc j) m (x ∷ xs) e = omega (arith, capacity-take j m xs (omega arith))

-- A shift of the lowest word alone needs no bits from below.
shl_first_defined :
    (s : ℕ) (xs : Words)
    → s < 64
    → (0 < s) ⊎ ((s ≡ 0) × (length xs ≡ 1))
    → IsWords xs
    → (ys : Words) × (k : ℕ) × (shl_first s xs ≡ some ys)
      × (value ys + k * capacity xs ≡ value xs * 2 ^ s)
      × IsWords ys
      × (length ys ≡ length xs)
shl_first_defined s xs small (inl bits) h = shl_first_value s small bits xs h
shl_first_defined s [] small (inr (none_left, one)) h = absurd (omega arith)
shl_first_defined s (w ∷ (y ∷ ws)) small (inr (none_left, one)) h = absurd (omega arith)
shl_first_defined s (w ∷ []) small (inr (none_left, one)) h = rw none_left (
  (w * 1 % word_mod) ∷ [],
  0,
  unfold shl_first shl_bits in refl,
  unfold value capacity in omega (arith, h.0),
  (omega arith, tt),
  refl,
)

-- A left shift by at least one bit and by less than the width, by no whole number of words or so
-- that one word is left, of an integer whose words are in range, is defined, and multiplies the
-- number by the power of two, modulo the capacity, in words that are in range and as many.
pub value-shift_left :
    (xs : Words) (n : ℕ)
    → IsWords xs
    → 0 < n
    → (0 < n % 64) ⊎ (n + 64 ≡ 64 * length xs)
    → n < 64 * length xs
    → (ys : Words) × (shift_left xs n ≡ some ys)
      × (value ys ≡ value xs * 2 ^ n % capacity xs)
      × IsWords ys
      × (length ys ≡ length xs)
unfolding shift_left
value-shift_left xs n h pos bits fits =
    let m = n / 64 in
    let s = n - m * 64 in
    let j = length xs - m in
    let (ws, k, run, number, words, len) =
      shl_first_defined s (take j xs) (omega arith) (way bits) (IsWords-take j xs h) in
    let (v, w) = value-zeros_append m ws words in
    let same : length (replicate m 0 ++ ws) ≡ length xs = omega (
      arith,
      len,
      length-append (replicate m 0) ws,
      length-take j xs,
      length-replicate {A = ℕ} m 0,
    ) in
    let below =
      rw (capacity-eq (replicate m 0 ++ ws) xs same) at
        (value-lt-capacity (replicate m 0 ++ ws) w) in
    (
      replicate m 0 ++ ws,
      ground (arith, run),
      mod_of_sum (value (replicate m 0 ++ ws)) (k + value (drop j xs) * 2 ^ s) (capacity xs)
          (value xs * 2 ^ n) below
          (total _ _ _ _ _ _ _ _ _ v number (value-take j xs) (capacity-take j m xs (omega arith))
            (sym (pow_add (64 * m) s ∙ ap (λ (t : ℕ). 2 ^ t) exponent))),
      w,
      same,
    )
  where
    way :
        (0 < n % 64) ⊎ (n + 64 ≡ 64 * length xs)
        → (0 < n - n / 64 * 64)
          ⊎ ((n - n / 64 * 64 ≡ 0) × (length (take (length xs - n / 64) xs) ≡ 1))
    way (inl b) = inl (omega arith)
    way (inr e) = inr (omega arith, omega (arith, length-take (length xs - n / 64) xs))

    exponent : 64 * (n / 64) + (n - n / 64 * 64) ≡ n
    exponent = omega arith

    total :
        (y a v k c low b high x : ℕ)
        → y ≡ a * v
        → v + k * c ≡ low * b
        → low + high * c ≡ x
        → c * a ≡ capacity xs
        → 2 ^ n ≡ a * b
        → y + (k + high * b) * capacity xs ≡ x * 2 ^ n
    total y a v k c low b high x e1 e2 e3 e4 e5 =
        rw (e1, ← e4, e5, ← e3) (omega (arith, ap (λ (t : ℕ). t * a) e2))

shr_bits_zero : (xs : Words) → 2 ≤ length xs → shr_bits 0 xs ≡ none
unfolding shr_bits
shr_bits_zero [] h = absurd (omega arith)
shr_bits_zero (w ∷ []) h = absurd (omega arith)
shr_bits_zero (w ∷ (y ∷ ws)) h = refl

shl_first_zero : (xs : Words) → 2 ≤ length xs → shl_first 0 xs ≡ none
unfolding shl_first shl_bits
shl_first_zero [] h = absurd (omega arith)
shl_first_zero (w ∷ []) h = absurd (omega arith)
shl_first_zero (w ∷ (y ∷ ws)) h = refl

-- A shift by a whole number of words, at least one, that leaves at least two words shifts a word
-- by its own width: to the left and to the right it is undefined.
pub shift_undefined :
    (xs : Words) (m : ℕ)
    → 0 < m
    → m + 2 ≤ length xs
    → (shift_left xs (64 * m) ≡ none) × (shift_right xs (64 * m) ≡ none)
unfolding shift_left shift_right
shift_undefined xs m pos fits = (
  rw (no_bits, words)
      (ground (
        arith,
        shl_first_zero (take (length xs - m) xs) (omega (arith, length-take (length xs - m) xs)),
      )),
  rw (no_bits, words) (ground (arith, shr_bits_zero (drop m xs) (omega (arith, length-drop m xs)))),
)
  where
    words : 64 * m / 64 ≡ m
    words = omega arith

    no_bits : 64 * m - 64 * m / 64 * 64 ≡ 0
    no_bits = omega arith
