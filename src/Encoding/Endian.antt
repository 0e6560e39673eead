-- ===== src/Encoding/Endian.antt =====
-- src/hornetlib/encoding/endian.h: integers as bytes in little-endian order, and the checked cast.
use hornet.Common.{
  ℕ, zero, suc, ◌+◌, ◌*◌, ◌/◌, ◌%◌, ◌^◌, ◌<◌, ◌≡◌, refl, arith, [], ◌∷◌, length, Bytes, Option,
  some, none, true, ◌==◌, if◌then◌else◌, ltb,
}
use hornet.Common.Int.{ℤ, pos, negsuc}
use Prim.Native.Nat.{◌-◌}

-- The `n` low bytes of `x`, least significant first: the memory of an n-byte integer.
unfoldable pub le_bytes : ℕ → ℕ → Bytes
le_bytes zero x = []
le_bytes (suc n) x = (x % 256) ∷ le_bytes n (x / 256)

-- The integer that a little-endian byte string stands for.
unfoldable pub from_le : Bytes → ℕ
from_le [] = 0
from_le (b ∷ bs) = b + 256 * from_le bs

-- The bits of a signed value at width `w`, as static_cast to the unsigned type gives them.
abbrev pub to_unsigned : ℕ → ℤ → ℕ
to_unsigned w (pos n) = n % 2 ^ w
to_unsigned w (negsuc n) = (2 ^ w - 1) - n % 2 ^ w

-- The signed value of w bits, as static_cast to the signed type of that width gives it.
abbrev pub to_signed : ℕ → ℕ → ℤ
to_signed w x = if ltb (2 * x) (2 ^ w) then pos x else negsuc (2 ^ w - x - 1)

-- The conversion of a size to an int of 32 bits.
abbrev pub to_int : ℕ → ℤ
to_int n = to_signed 32 (n % 2 ^ 32)

-- A cast to an unsigned type of `w` bits that throws when the value changes.
unfoldable pub narrow_or_throw : ℕ → ℕ → Option ℕ
narrow_or_throw w x = let convert = x % 2 ^ w in if convert == x then some convert else none

-- The cast of an unsigned value of `from` bits to a signed type of `w` bits, with the same test.
unfoldable pub narrow_signed : ℕ → ℕ → ℕ → Option ℤ
narrow_signed w from x =
    let convert = to_signed w (x % 2 ^ w) in
    if to_unsigned from convert == x then some convert else none

pub length-le_bytes : (n x : ℕ) → length (le_bytes n x) ≡ n
unfolding le_bytes
length-le_bytes zero x = refl
length-le_bytes (suc n) x = omega (arith, length-le_bytes n (x / 256))

-- An int holds a size below 2^31 as it is.
pub to_int_small : (n : ℕ) → n < 2 ^ 31 → to_int n ≡ pos n
to_int_small n h =
    let same : n % 2 ^ 32 ≡ n = omega arith in
    let below : ltb (2 * n) (2 ^ 32) ≡ true = ground arith in rw (same, below) refl
