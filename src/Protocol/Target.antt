-- ===== src/Protocol/Target.antt =====
-- src/hornetlib/protocol/{target,compact_target,work,hash}.h: a hash is compared with a target of
-- 256 bits, which a header holds in a compact form of 32 bits. A `none` is a failed assertion, a
-- throw, or a shift that C++ leaves undefined.
pub mod Expand
use hornet.Common.{
  ℕ, zero, suc, ◌+◌, ◌-◌, ◌*◌, ◌/◌, ◌%◌, ◌^◌, [], ◌∷◌, Option, none, some, Bool, false, ◌&&◌, ◌||◌,
  ltb, ◌==◌, if◌then◌else◌, take, drop, replicate, Bytes, get_or,
}
use hornet.Encoding.Endian.{from_le}
use hornet.Uint.{
  Words, of_word, le, complement, add, sub, add_word, div, significant_bits, shift_left,
  shift_right, ◌>>=◌,
}
use Prim.Native.Nat.{bit_or}

abbrev pub zero_256 : Words
zero_256 = replicate 4 0

-- Uint256{hash}: each word takes eight bytes, the first lowest.
unfoldable pub words_of_bytes : ℕ → Bytes → Words
words_of_bytes zero bs = []
words_of_bytes (suc k) bs = from_le (take 8 bs) ∷ words_of_bytes k (drop 8 bs)

abbrev pub of_hash : Bytes → Words
of_hash = words_of_bytes 4

-- A target whose value may be missing.
abbrev pub Target : Type 0
Target = Option Words

-- kMaximumTarget: 224 bits set.
abbrev pub maximum_target : Words
maximum_target =
    0xffff_ffff_ffff_ffff ∷ 0xffff_ffff_ffff_ffff ∷ 0xffff_ffff_ffff_ffff ∷ 0xffff_ffff ∷ []

unfoldable pub target_is_valid : Target → Bool
target_is_valid none = false
target_is_valid (some value) = le value maximum_target

-- operator<=(Hash, Target): no hash meets a missing target.
unfoldable pub meets : Bytes → Target → Bool
meets hash none = false
meets hash (some value) = le (of_hash hash) value

-- A work is the expected number of hashes.
unfoldable pub get_work : Target → Option Words
get_work none = some zero_256
get_work (some value) = div (complement value) (add_word value 1) >>= λ q. some (add_word q 1)

abbrev pub work_add : Words → Words → Words
work_add = add

abbrev pub work_sub : Words → Words → Words
work_sub = sub

abbrev pub exponent_of : ℕ → ℕ
exponent_of bits = bits / 2 ^ 24

abbrev pub mantissa_of : ℕ → ℕ
mantissa_of bits = bits % 2 ^ 23

abbrev pub is_negative : ℕ → Bool
is_negative bits = ltb 0 (mantissa_of bits) && (bits / 2 ^ 23 % 2 == 1)

abbrev pub is_overflow : ℕ → Bool
is_overflow bits =
    ltb 0 (mantissa_of bits)
    && (ltb 34 (exponent_of bits)
        || ((exponent_of bits == 34) && ltb 0xFF (mantissa_of bits))
        || ((exponent_of bits == 33) && ltb 0xFFFF (mantissa_of bits)))

-- CompactTarget::Expand: the outer option is the shift's, the inner one the missing target.
unfoldable pub expand : ℕ → Option Target
expand bits =
    if is_negative bits || (mantissa_of bits == 0) || is_overflow bits
    then some none
    else ((if ltb (exponent_of bits) 3
          then shift_right (of_word zero_256 (mantissa_of bits)) (8 * (3 - exponent_of bits))
          else shift_left (of_word zero_256 (mantissa_of bits)) (8 * (exponent_of bits - 3)))
        >>= λ rv. some (some rv))

-- The lower 32 bits of the first word, which is what the cast to int keeps.
abbrev first_word : Words → ℕ
first_word ws = get_or ws 0 0 % 2 ^ 32

unfoldable pub pack_bits : ℕ → ℕ → ℕ
pack_bits exponent mantissa = bit_or (exponent * 2 ^ 24) mantissa

-- The mantissa has 23 bits: from 24 it is cut to 16, and the exponent takes the byte.
unfoldable pub pack : ℕ → ℕ → Option ℕ
unfolding pack_bits
pack exponent mantissa =
    if mantissa / 2 ^ 23 % 2 == 1
    then (if ltb (mantissa / 2 ^ 8) (2 ^ 23) && ltb (exponent + 1) 256
        then some (pack_bits (exponent + 1) (mantissa / 2 ^ 8))
        else none)
    else (if ltb mantissa (2 ^ 23) && ltb exponent 256
        then some (pack_bits exponent mantissa)
        else none)

unfoldable pub compress_value : Words → Option ℕ
unfolding pack
compress_value value =
    let significant_bytes = (significant_bits value + 7) / 8 in
    (if ltb significant_bytes 3
      then shift_left value (8 * (3 - significant_bytes))
      else shift_right value (8 * (significant_bytes - 3)))
    >>= λ shifted. pack significant_bytes (first_word shifted)

unfoldable pub compress : Target → Option ℕ
compress none = none
compress (some value) = if le value maximum_target then compress_value value else none
