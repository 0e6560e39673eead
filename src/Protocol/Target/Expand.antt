-- ===== src/Protocol/Target/Expand.antt =====
-- What a compact target stands for.
use hornet.Common.{
  ℕ, zero, suc, ◌+◌, ◌-◌, ◌*◌, ◌/◌, ◌%◌, ◌^◌, ◌<◌, ◌≤◌, ◌≡◌, refl, sym, ap, ◌∙◌, [], ◌∷◌, none,
  some, false, ltb, leb, ◌==◌, if◌then◌else◌, drop, length, Bytes, arith, ◌⊎◌, inl, inr, ◌≢◌,
  dec_lt, ℕ_discrete,
}
use native.Mathlib.Nat.{mod-eq_of_lt}
use hornet.Common.Bits.{pow_add, pow_pos}
use hornet.Encoding.Endian.{from_le}
use hornet.Uint.{Words, value, capacity, IsWords, of_word, shift_left}
use hornet.Uint.Order.{lt-value}
use hornet.Uint.Shift.{value-shift_right}
use hornet.Uint.Shift.Left.{value-shift_left, shift_undefined}
use hornet.Protocol.Target.{
  Target, words_of_bytes, of_hash, meets, expand, mantissa_of, exponent_of, is_negative,
  is_overflow,
}

-- The number that a compact target stands for.
abbrev pub target_number : ℕ → ℕ
target_number bits =
    if ltb (exponent_of bits) 3
    then mantissa_of bits / 2 ^ (8 * (3 - exponent_of bits))
    else mantissa_of bits * 2 ^ (8 * (exponent_of bits - 3))

-- The compact targets that stand for a target.
pub record HasTarget (bits : ℕ) : Type 0 where
  pub positive : is_negative bits ≡ false
  pub nonzero : (mantissa_of bits == 0) ≡ false
  pub in_range : is_overflow bits ≡ false

-- The bytes of a hash that are words make up the number of its bytes.
pub value-words_of_bytes :
    (k : ℕ) (bs : Bytes) → length bs ≡ 8 * k → value (words_of_bytes k bs) ≡ from_le bs
unfolding value words_of_bytes from_le
value-words_of_bytes zero [] e = refl
value-words_of_bytes zero (b ∷ bs) e = absurd (omega arith)
value-words_of_bytes (suc k) (b0 ∷ b1 ∷ b2 ∷ b3 ∷ b4 ∷ b5 ∷ b6 ∷ b7 ∷ bs) e =
    omega (arith, value-words_of_bytes k bs (omega arith))
value-words_of_bytes (suc k) bs e = absurd (omega arith)

-- The mantissa shifted by `n` bits, where the product has room in 256 bits.
mantissa_room : (m n room : ℕ) → m < 2 ^ room → n + room ≤ 256 → m * 2 ^ n < 2 ^ 256
mantissa_room m n room h fits = omega (
  arith,
  pow_add n room,
  pow_add (n + room) (256 - (n + room)),
  ap (λ (t : ℕ). t * 2 ^ n) above,
  top,
  grow (2 ^ (n + room)) (2 ^ (256 - (n + room))) (pow_pos (256 - (n + room))),
  pow_pos n,
)
  where
    above : 2 ^ room ≡ m + 1 + (2 ^ room - (m + 1))
    above = omega arith

    all_bits : n + room + (256 - (n + room)) ≡ 256
    all_bits = omega arith

    top : 2 ^ (n + room + (256 - (n + room))) ≡ 2 ^ 256
    top = ap (λ (t : ℕ). 2 ^ t) all_bits

    grow : (a b : ℕ) → 0 < b → a ≤ a * b
    grow a zero h = absurd (omega arith)
    grow a (suc b) h = omega arith

abbrev Expands : ℕ → Words → Type 0
Expands bits ws =
    (expand bits ≡ some (some ws)) × (value ws ≡ target_number bits) × IsWords ws × (length ws ≡ 4)

abbrev mantissa_words : ℕ → Words
mantissa_words bits = mantissa_of bits ∷ 0 ∷ 0 ∷ 0 ∷ []

value-mantissa_words :
    (bits : ℕ) → (value (mantissa_words bits) ≡ mantissa_of bits) × IsWords (mantissa_words bits)
unfolding value
value-mantissa_words bits = (omega arith, omega arith)

-- The three ways of the shift.
expand_small : (bits : ℕ) → HasTarget bits → exponent_of bits < 3 → (ws : Words) × Expands bits ws
unfolding expand of_word
expand_small bits h small =
    let (v, w) = value-mantissa_words bits in
    let (ws, run, number, fits, len) =
      value-shift_right (mantissa_words bits) (8 * (3 - exponent_of bits)) w (omega arith)
        (omega arith) in
    (
      ws,
      (
        ground (arith, run, h.positive, h.nonzero, h.in_range),
        ground (arith, number, v),
        fits,
        len,
      ),
    )

expand_same : (bits : ℕ) → HasTarget bits → exponent_of bits ≡ 3 → (ws : Words) × Expands bits ws
unfolding expand of_word shift_left
expand_same bits h same =
    let (v, w) = value-mantissa_words bits in
    let none_left : 8 * (exponent_of bits - 3) ≡ 0 = omega arith in
    (
      mantissa_words bits,
      (
        ground (arith, none_left, h.positive, h.nonzero, h.in_range),
        rw (v, same) (omega arith),
        w,
        refl,
      ),
    )

-- What the overflow test leaves.
exponent_cases :
    (bits : ℕ)
    → HasTarget bits
    → (exponent_of bits ≤ 32)
      ⊎ ((exponent_of bits ≡ 33) × (mantissa_of bits < 2 ^ 16))
      ⊎ ((exponent_of bits ≡ 34) × (mantissa_of bits < 2 ^ 8))
exponent_cases bits h = ground (arith, h.nonzero, h.in_range)

target_room :
    (bits : ℕ)
    → HasTarget bits
    → (exponent_of bits ≤ 34) × (mantissa_of bits * 2 ^ (8 * (exponent_of bits - 3)) < 2 ^ 256)
target_room bits h = elim (exponent_cases bits h) [
  | inl e ↦ (omega arith, mantissa_room _ _ 24 (omega arith) (omega arith))
  | inr (inl (e, m)) ↦ (omega arith, mantissa_room _ _ 16 m (omega arith))
  | inr (inr (e, m)) ↦ (omega arith, mantissa_room _ _ 8 m (omega arith))
]

left_shift_ways :
    (e : ℕ)
    → 3 < e
    → e ≤ 34
    → e ≢ 11
    → e ≢ 19
    → (0 < 8 * (e - 3) % 64) ⊎ (8 * (e - 3) + 64 ≡ 64 * 4)
left_shift_ways e large small not_eleven not_nineteen = elim (dec_lt 0 (8 * (e - 3) % 64)) [
  | yes h ↦ inl h
  | no h ↦ inr (omega arith)
]

expand_large :
    (bits : ℕ)
    → HasTarget bits
    → 3 < exponent_of bits
    → exponent_of bits ≢ 11
    → exponent_of bits ≢ 19
    → (ws : Words) × Expands bits ws
unfolding expand of_word capacity
expand_large bits h large not_eleven not_nineteen =
    let (v, w) = value-mantissa_words bits in
    let n = 8 * (exponent_of bits - 3) in
    let (below, room) = target_room bits h in
    let (ws, run, number, fits, len) =
      value-shift_left (mantissa_words bits) n w (omega arith)
        (left_shift_ways (exponent_of bits) large below not_eleven not_nineteen) (omega arith) in
    (
      ws,
      (
        ground (arith, run, h.positive, h.nonzero, h.in_range),
        number ∙ rw v (mod-eq_of_lt room ∙ ground arith),
        fits,
        len,
      ),
    )

-- A compact target that is positive, not zero and not too large, with an exponent other than 11
-- and 19, expands to four words in range whose number is the one that its mantissa and exponent
-- stand for.
pub expand-target_number :
    (bits : ℕ)
    → HasTarget bits
    → exponent_of bits ≢ 11
    → exponent_of bits ≢ 19
    → (ws : Words) × (expand bits ≡ some (some ws))
      × (value ws ≡ target_number bits)
      × IsWords ws
      × (length ws ≡ 4)
expand-target_number bits h not_eleven not_nineteen = elim (dec_lt (exponent_of bits) 3) [
  | yes small ↦ flat (expand_small bits h small)
  | no large ↦ elim (ℕ_discrete (exponent_of bits) 3) [
    | yes same ↦ flat (expand_same bits h same)
    | no other ↦ flat (expand_large bits h (omega arith) not_eleven not_nineteen)
  ]
]
  where
    flat :
        ((ws : Words) × Expands bits ws)
        → (ws : Words) × (expand bits ≡ some (some ws))
          × (value ws ≡ target_number bits)
          × IsWords ws
          × (length ws ≡ 4)
    flat (ws, (run, number, fits, len)) = (ws, run, number, fits, len)

undefined_at :
    (bits m : ℕ)
    → HasTarget bits
    → 0 < m
    → m ≤ 2
    → exponent_of bits ≡ 8 * m + 3
    → expand bits ≡ none
unfolding expand of_word
undefined_at bits m h pos small e = ground (arith, h.positive, h.nonzero, h.in_range, shifted)
  where
    distance : 8 * (exponent_of bits - 3) ≡ 64 * m
    distance = omega arith

    shifted : shift_left (mantissa_words bits) (8 * (exponent_of bits - 3)) ≡ none
    shifted = rw distance (shift_undefined (mantissa_words bits) m pos (omega arith)).0

-- A compact target that is positive, not zero and not too large, with the exponent 11 or 19, does
-- not expand: the left shift moves a word by its whole width, which C++ leaves undefined.
pub expand_undefined :
    (bits : ℕ)
    → HasTarget bits
    → (exponent_of bits ≡ 11) ⊎ (exponent_of bits ≡ 19)
    → expand bits ≡ none
expand_undefined bits h (inl e) = undefined_at bits 1 h (omega arith) (omega arith) e
expand_undefined bits h (inr e) = undefined_at bits 2 h (omega arith) (omega arith) e

abbrev pub IsBytes : Bytes → Type 0
IsBytes [] = Unit {0}
IsBytes (b ∷ bs) = (b < 256) × IsBytes bs

IsWords-words_of_bytes :
    (k : ℕ) (bs : Bytes) → IsBytes bs → length bs ≡ 8 * k → IsWords (words_of_bytes k bs)
unfolding words_of_bytes from_le
IsWords-words_of_bytes zero bs h e = tt
IsWords-words_of_bytes (suc k) (b0 ∷ b1 ∷ b2 ∷ b3 ∷ b4 ∷ b5 ∷ b6 ∷ b7 ∷ bs) h e =
    (omega arith, IsWords-words_of_bytes k bs h.1.1.1.1.1.1.1.1 (omega arith))
IsWords-words_of_bytes (suc k) bs h e = absurd (omega arith)

length-words_of_bytes : (k : ℕ) (bs : Bytes) → length (words_of_bytes k bs) ≡ k
unfolding words_of_bytes
length-words_of_bytes zero bs = refl
length-words_of_bytes (suc k) bs = ap suc (length-words_of_bytes k (drop 8 bs))

-- A compact target that is positive, not zero and not too large, with an exponent other than 11
-- and 19, expands to a target that a hash of 32 bytes meets exactly when the hash, as a little-
-- endian number, is at most the number that the compact target stands for.
pub meets-expand :
    (hash : Bytes) (bits : ℕ)
    → length hash ≡ 32
    → IsBytes hash
    → HasTarget bits
    → exponent_of bits ≢ 11
    → exponent_of bits ≢ 19
    → (t : Target) × (expand bits ≡ some t)
      × (meets hash t ≡ leb (from_le hash) (target_number bits))
unfolding meets
meets-expand hash bits len bytes h not_eleven not_nineteen =
    let (ws, run, number, fits, four) = expand-target_number bits h not_eleven not_nineteen in
    (
      some ws,
      run,
      rw
          (
            lt-value ws (of_hash hash) fits (IsWords-words_of_bytes 4 hash bytes len)
                (four ∙ sym (length-words_of_bytes 4 hash)),
            number,
            value-words_of_bytes 4 hash len,
          )
          (ground arith),
    )
