-- ===== src/Common/Bits.antt =====
-- The inclusive or of two numbers, where it joins fields of bits that do not overlap.
use Prim.Native.Nat.{
  ℕ, zero, suc, ◌+◌, ◌*◌, ◌/◌, ◌%◌, ◌^◌, ◌≤◌, ◌<◌, max, bit_or, digits, bit_or-bitwise,
}
use mathlib.Core.Path.{◌≡◌, refl, ap}
use native.Mathlib.Omega.{arith}

-- The recursion behind `bit_or`, on a count of digits.
abbrev joined : ℕ → ℕ → ℕ → ℕ
joined count a b = digits (λ y. y) max count a b

joined_enough : (m n a b : ℕ) → a ≤ m → a ≤ n → joined m a b ≡ joined n a b
joined_enough zero zero a b p q = refl
joined_enough zero (suc n) zero b p q = refl
joined_enough zero (suc n) (suc a) b p q = absurd (omega arith)
joined_enough (suc m) zero zero b p q = refl
joined_enough (suc m) zero (suc a) b p q = absurd (omega arith)
joined_enough (suc m) (suc n) zero b p q = refl
joined_enough (suc m) (suc n) (suc a) b p q =
    omega (arith, joined_enough m n (suc a / 2) (b / 2) (omega arith) (omega arith))

pub zero-bit_or : (b : ℕ) → bit_or 0 b ≡ b
zero-bit_or b = bit_or-bitwise 0 b

pub bit_or_digit : (a b : ℕ) → bit_or a b ≡ bit_or (a / 2) (b / 2) * 2 + max (a % 2) (b % 2)
bit_or_digit zero b = omega (arith, zero-bit_or b, zero-bit_or (b / 2))
bit_or_digit (suc a) b = omega (
  arith,
  bit_or-bitwise (suc a) b,
  bit_or-bitwise (suc a / 2) (b / 2),
  joined_enough a (suc a / 2) (suc a / 2) (b / 2) (omega arith) (omega arith),
)

or_zero_below : (bound a : ℕ) → a ≤ bound → bit_or a 0 ≡ a
or_zero_below bound zero h = zero-bit_or 0
or_zero_below zero (suc a) h = absurd (omega arith)
or_zero_below (suc bound) (suc a) h =
    omega (arith, bit_or_digit (suc a) 0, or_zero_below bound (suc a / 2) (omega arith))

pub bit_or-zero : (a : ℕ) → bit_or a 0 ≡ a
bit_or-zero a = or_zero_below a a (omega arith)

-- A field above `k` bits joined to a field of `k` bits is their sum.
pub bit_or_disjoint :
    (k high low : ℕ) → low < 2 ^ k → bit_or (high * 2 ^ k) low ≡ high * 2 ^ k + low
bit_or_disjoint zero high low h = rw (none_below, bit_or-zero (high * 2 ^ 0)) (omega arith)
  where
    none_below : low ≡ 0
    none_below = omega arith
bit_or_disjoint (suc k) high low h =
    omega (
      arith,
      bit_or_digit (high * 2 ^ suc k) low,
      bit_or_disjoint k high (low / 2),
      halved,
      doubled,
    )
  where
    power : 2 ^ suc k ≡ 2 * 2 ^ k
    power = omega arith

    doubled : high * 2 ^ suc k ≡ high * (2 * 2 ^ k)
    doubled = ap (λ (t : ℕ). high * t) power

    halved : bit_or (high * 2 ^ suc k / 2) (low / 2) ≡ bit_or (high * 2 ^ k) (low / 2)
    halved = ap (λ (t : ℕ). bit_or t (low / 2)) (omega (arith, doubled))

or_comm_below : (bound a b : ℕ) → a ≤ bound → bit_or a b ≡ bit_or b a
or_comm_below bound zero b h = rw (zero-bit_or b, bit_or-zero b)
or_comm_below zero (suc a) b h = absurd (omega arith)
or_comm_below (suc bound) (suc a) b h = omega (
  arith,
  bit_or_digit (suc a) b,
  bit_or_digit b (suc a),
  or_comm_below bound (suc a / 2) (b / 2) (omega arith),
)

pub bit_or_comm : (a b : ℕ) → bit_or a b ≡ bit_or b a
bit_or_comm a b = or_comm_below a a b (omega arith)

pub pow_add : (a b : ℕ) → 2 ^ a * 2 ^ b ≡ 2 ^ (a + b)
pow_add zero b = rw (sum) (omega arith)
  where
    sum : zero + b ≡ b
    sum = omega arith
pow_add (suc a) b = rw (sum) (omega (arith, pow_add a b, ap (λ (t : ℕ). t * 2 ^ b) power))
  where
    sum : suc a + b ≡ suc (a + b)
    sum = omega arith

    power : 2 ^ suc a ≡ 2 * 2 ^ a
    power = omega arith

pub pow_pos : (i : ℕ) → 0 < 2 ^ i
pow_pos zero = omega arith
pow_pos (suc i) = omega (arith, pow_pos i)
