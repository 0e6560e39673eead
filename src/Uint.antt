-- ===== src/Uint.antt =====
-- src/hornetlib/util/big_uint.h: unsigned integers of several 64-bit words, least significant first.
-- The template is read at T = uint64_t, and the word count is the length of the list. `none` is a
-- throw, or a shift of a word by its whole width, which
-- C++ leaves undefined. Masks by 2 ^ k - 1 are written as remainders.
pub mod Add
pub mod Multiply
pub mod Divide
pub mod Order
pub mod Shift
mod Tests
use hornet.Common.{
  ◌<◌, ℕ, zero, suc, ◌+◌, ◌-◌, ◌*◌, ◌/◌, ◌%◌, ◌^◌, List, [], ◌∷◌, ◌++◌, map, length, take, drop,
  replicate, Option, none, some, Bool, ◌||◌, not, ltb, leb, ◌==◌, if◌then◌else◌, bytes_lt, get_or,
  set,
}
use Prim.Native.Nat.{bit_or}
use mathlib.Core.List.{reverse}

abbrev pub word_mod : ℕ
word_mod = 0x1_0000_0000_0000_0000

abbrev pub Words : Type 0
Words = List ℕ

-- The number that the words stand for, and the first number that has no room in them.
unfoldable pub value : Words → ℕ
value [] = 0
value (w ∷ ws) = w + word_mod * value ws

unfoldable pub capacity : Words → ℕ
capacity [] = 1
capacity (w ∷ ws) = word_mod * capacity ws

-- Every word is a uint64_t.
abbrev pub IsWords : Words → Type 0
IsWords [] = Unit {0}
IsWords (w ∷ ws) = (w < word_mod) × IsWords ws

abbrev pub bit : Bool → ℕ
bit b = if b then 1 else 0

abbrev pub zeros : Words → Words
zeros = map (λ _. 0)

-- `words_ = {}; words_[0] = word`.
unfoldable pub of_word : Words → ℕ → Words
of_word [] word = []
of_word (w ∷ ws) word = word ∷ zeros ws

unfoldable pub add_loop : ℕ → Words → Words → Words
add_loop carry [] ys = []
add_loop carry (x ∷ xs) [] = x ∷ xs
add_loop carry (x ∷ xs) (y ∷ ys) =
    let partial = (x + carry) % word_mod in
    let word = (partial + y) % word_mod in
    word ∷ add_loop (bit (ltb partial carry || ltb word partial)) xs ys

unfoldable pub add : Words → Words → Words
add = add_loop 0

unfoldable pub sub_loop : ℕ → Words → Words → Words
sub_loop borrow [] ys = []
sub_loop borrow (x ∷ xs) [] = x ∷ xs
sub_loop borrow (x ∷ xs) (y ∷ ys) =
    let partial = (x + word_mod - borrow) % word_mod in
    let word = (partial + word_mod - y) % word_mod in
    word ∷ sub_loop (bit (ltb x borrow || ltb partial word)) xs ys

unfoldable pub sub : Words → Words → Words
sub = sub_loop 0

-- operator+=(T), and the loop that takes a carry forward in operator*.
unfoldable pub add_word : Words → ℕ → Words
add_word [] carry = []
add_word (x ∷ xs) carry =
    let word = (x + carry) % word_mod in
    let rest = add_word xs (bit (ltb word carry)) in if carry == 0 then x ∷ xs else word ∷ rest

unfoldable pub complement : Words → Words
complement = map (λ w. word_mod - 1 - w)

abbrev pub half_mod : ℕ
half_mod = 0x1_0000_0000

-- The two words of a product, low word first.
unfoldable pub mul_wide : ℕ → ℕ → ℕ × ℕ
mul_wide a b =
    let a_lo = a % half_mod in
    let a_hi = a / half_mod in
    let b_lo = b % half_mod in
    let b_hi = b / half_mod in
    let p0 = a_lo * b_lo % word_mod in
    let p1 = a_lo * b_hi % word_mod in
    let p2 = a_hi * b_lo % word_mod in
    let p3 = a_hi * b_hi % word_mod in
    let mid = (p0 / half_mod + p1 % half_mod + p2 % half_mod) % word_mod in
    (
      bit_or (mid * half_mod % word_mod) (p0 % half_mod),
      (p3 + p1 / half_mod + p2 / half_mod + mid / half_mod) % word_mod,
    )

-- The rounds that are left, on the words of the result from the current one on.
unfoldable pub mul_loop : Words → Words → ℕ → Words
mul_loop [] ws rhs = []
mul_loop (r ∷ rs) [] rhs = r ∷ rs
mul_loop (r ∷ rs) (w ∷ ws) rhs =
    let product = mul_wide w rhs in
    let word = (r + product.0) % word_mod in
    let carry = (product.1 + bit (ltb word product.0)) % word_mod in
    word ∷ mul_loop (add_word rs carry) ws rhs

unfoldable pub mul_word : Words → ℕ → Words
mul_word xs rhs = if rhs == 0 then zeros xs else if rhs == 1 then xs else mul_loop (zeros xs) xs rhs

-- The manual long division: `i` bits of the low word are left, `q` and `r` are what is found so far.
unfoldable pub div_bits : ℕ → ℕ → ℕ → ℕ → ℕ → ℕ × ℕ
div_bits zero q r lo divisor = (q, r)
div_bits (suc i) q r lo divisor =
    let r' = bit_or (r * 2 % word_mod) (lo / 2 ^ i % 2) in
    div_bits i (if leb divisor r' then bit_or q (2 ^ i) else q)
      (if leb divisor r' then r' - divisor else r') lo divisor

unfoldable pub div_double_word : ℕ → ℕ → ℕ → ℕ × ℕ
unfolding div_bits
div_double_word hi lo divisor = div_bits 64 0 hi lo divisor

-- From the highest word down: the words of the quotient, and the remainder.
unfoldable pub div_loop : Words → ℕ → Words × ℕ
div_loop [] rhs = ([], 0)
div_loop (w ∷ ws) rhs =
    let above = div_loop ws rhs in
    let digit = div_double_word above.1 w rhs in (digit.0 ∷ above.0, digit.1)

unfoldable pub div_word : Words → ℕ → Option Words
div_word xs rhs = if rhs == 0 then none else if rhs == 1 then some xs else some (div_loop xs rhs).0

-- std::lexicographical_compare from the highest word down.
unfoldable pub lt : Words → Words → Bool
lt xs ys = bytes_lt (reverse xs) (reverse ys)

abbrev pub le : Words → Words → Bool
le xs ys = not (lt ys xs)

-- A shift of one word; by 64 or more it is undefined.
unfoldable pub shift_left_word : ℕ → ℕ → Option ℕ
shift_left_word w s = if ltb s 64 then some (w * 2 ^ s % word_mod) else none

unfoldable pub shift_right_word : ℕ → ℕ → Option ℕ
shift_right_word w s = if ltb s 64 then some (w / 2 ^ s) else none

infixl 5 ◌>>=◌
abbrev pub ◌>>=◌ : {A B : Type 0} → Option A → (A → Option B) → Option B
none >>= f = none
some a >>= f = f a

-- Words `i ≥ lshift_words + 1` of a left shift: each takes the high bits of the word below it.
unfoldable pub shl_bits : ℕ → ℕ → Words → Option Words
unfolding shift_left_word shift_right_word
shl_bits s below [] = some []
shl_bits s below (w ∷ ws) = do
  high ← shift_left_word w s
  low ← shift_right_word below (64 - s)
  rest ← shl_bits s w ws
  some (bit_or high low ∷ rest)

unfoldable pub shl_first : ℕ → Words → Option Words
unfolding shift_left_word
shl_first s [] = some []
shl_first s (w ∷ ws) = do word ← shift_left_word w s; rest ← shl_bits s w ws; some (word ∷ rest)

-- The source runs from the highest word down, so each word that it reads is still the old one.
unfoldable pub shift_left : Words → ℕ → Option Words
shift_left xs n =
    if n == 0
    then some xs
    else if leb (64 * length xs) n
    then some (zeros xs)
    else (let lshift_words = n / 64 in
        shl_first (n - lshift_words * 64) (take (length xs - lshift_words) xs) >>= λ ws.
        some (replicate lshift_words 0 ++ ws))

unfoldable pub shr_bits : ℕ → Words → Option Words
unfolding shift_left_word shift_right_word
shr_bits s [] = some []
shr_bits s (w ∷ []) = do word ← shift_right_word w s; some (word ∷ [])
shr_bits s (w ∷ (above ∷ ws)) = do
  low ← shift_right_word w s
  high ← shift_left_word above (64 - s)
  rest ← shr_bits s (above ∷ ws)
  some (bit_or low high ∷ rest)

unfoldable pub shift_right : Words → ℕ → Option Words
shift_right xs n =
    if n == 0
    then some xs
    else if leb (64 * length xs) n
    then some (zeros xs)
    else (let rshift_words = n / 64 in
        shr_bits (n - rshift_words * 64) (drop rshift_words xs) >>= λ ws.
        some (ws ++ replicate rshift_words 0))

-- std::countl_zero of a 64-bit word: `i` is the number of bits still to look at.
unfoldable pub countl_zero_from : ℕ → ℕ → ℕ
countl_zero_from zero w = 0
countl_zero_from (suc i) w =
    let rest = countl_zero_from i w in if leb (2 ^ i) w then 0 else suc rest

abbrev pub countl_zero : ℕ → ℕ
countl_zero = countl_zero_from 64

-- The words from the highest down.
unfoldable pub significant_scan : Words → ℕ
significant_scan [] = 0
significant_scan (w ∷ below) =
    let rest = significant_scan below in
    if w == 0 then rest else (length below + 1) * 64 - countl_zero_from 64 w

unfoldable pub significant_bits : Words → ℕ
unfolding significant_scan countl_zero_from
significant_bits xs = significant_scan (reverse xs)

unfoldable pub set_bit : Words → ℕ → Option Words
set_bit xs index =
    if leb (64 * length xs) index
    then none
    else some (set xs (index / 64) (bit_or (get_or xs (index / 64) 0) (2 ^ (index % 64))))

-- The shift-and-subtract rounds; `left` is divisor_lshift + 1. The last round shifts the divisor
-- once more, as the loop's step does.
unfoldable pub div_rounds : ℕ → Words → Words → Words → Option Words
div_rounds zero quotient remainder divisor = some quotient
div_rounds (suc shift) quotient remainder divisor =
    (if le divisor remainder then set_bit quotient shift else some quotient) >>= λ quotient'.
    shift_right divisor 1 >>= λ divisor'.
    div_rounds shift quotient' (if le divisor remainder then sub remainder divisor else remainder)
      divisor'

unfoldable pub div : Words → Words → Option Words
div xs rhs =
    if significant_bits rhs == 0
    then none
    else if ltb (significant_bits xs) (significant_bits rhs)
    then some (zeros xs)
    else (let lshift = significant_bits xs - significant_bits rhs in
        shift_left rhs lshift >>= λ divisor. div_rounds (suc lshift) (zeros xs) xs divisor)
