-- ===== src/Script/Minimal.antt =====
-- src/hornetlib/protocol/script/lang/minimal.h: integers in the fewest bytes, lowest first, with the
-- sign in the highest bit. The bits of a byte are read by division: `b / 128` is `b & 0x80`.
use hornet.Common.{
  ℕ, zero, suc, ◌-◌, ◌*◌, ◌/◌, ◌%◌, ◌^◌, [], ◌∷◌, Bytes, Bool, true, false, ◌&&◌, ◌||◌, not, leb,
  ◌==◌, if◌then◌else◌,
}
use hornet.Common.Int.{ℤ, pos, negsuc}
use hornet.Encoding.Endian.{to_signed}
use Prim.Native.Nat.{bit_or}
use mathlib.Core.List.{reverse}

-- The unsigned absolute value, as Abs gives it for every value of the type.
unfoldable pub abs_value : ℤ → ℕ
abs_value (pos n) = n
abs_value (negsuc n) = suc n

unfoldable pub is_negative : ℤ → Bool
is_negative (pos n) = false
is_negative (negsuc n) = true

-- The loop over the remainder; an integer of w bytes takes at most w rounds.
unfoldable pub magnitude_bytes : ℕ → ℕ → Bytes
magnitude_bytes zero remainder = []
magnitude_bytes (suc rounds) remainder =
    let rest = magnitude_bytes rounds (remainder / 256) in
    if remainder == 0 then [] else (remainder % 256) ∷ rest

-- `if (bytes[size - 1] & 0x80) Append(0)`.
unfoldable pub append_sign_byte : Bytes → Bytes
append_sign_byte [] = []
append_sign_byte (b ∷ []) = if b / 128 % 2 == 1 then b ∷ 0 ∷ [] else b ∷ []
append_sign_byte (b ∷ (c ∷ bs)) = b ∷ append_sign_byte (c ∷ bs)

-- `bytes[size - 1] |= 0x80`.
unfoldable pub set_sign : Bytes → Bytes
set_sign [] = []
set_sign (b ∷ []) = bit_or b 0x80 ∷ []
set_sign (b ∷ (c ∷ bs)) = b ∷ set_sign (c ∷ bs)

-- EncodeMinimalInt for an integer type of `width` bytes.
unfoldable pub encode_minimal_int : ℕ → ℤ → Bytes
unfolding abs_value is_negative magnitude_bytes append_sign_byte set_sign
encode_minimal_int width value =
    if abs_value value == 0
    then []
    else (let bytes = append_sign_byte (magnitude_bytes width (abs_value value)) in
        if is_negative value then set_sign bytes else bytes)

pub record MinimalIntDecoded : Type 0 where
  pub value : ℤ
  pub minimal : Bool
  pub overflow : Bool

-- The loop of DecodeMinimalInt over the bytes from the highest down; `bits` is the type's width.
unfoldable pub decode_loop : ℕ → Bytes → ℕ → Bool → ℕ × Bool
decode_loop bits [] absval overflow = (absval, overflow)
decode_loop bits (b ∷ below) absval overflow =
    decode_loop bits below (bit_or (absval * 256 % 2 ^ bits) b)
      (overflow || not (absval / 2 ^ (bits - 8) == 0))

-- Negate: the two's complement of the magnitude, as a signed value of the width.
unfoldable pub negate : ℕ → ℕ → ℤ
negate bits absval = to_signed bits ((2 ^ bits - absval) % 2 ^ bits)

unfoldable pub decode_value : ℕ → Bool → ℕ × Bool → Bool → MinimalIntDecoded
unfolding negate
decode_value bits negative r minimal = record {
  value = if negative then negate bits r.0 else to_signed bits r.0;
  minimal = minimal;
  overflow = r.1;
}

-- The bytes from the highest down. A highest byte that holds the sign alone is passed over, and
-- stands in a minimal encoding only above a byte whose highest bit is set.
unfoldable pub decode_reversed : ℕ → Bytes → MinimalIntDecoded
unfolding decode_loop decode_value
decode_reversed bits [] = record { value = pos 0; minimal = true; overflow = false }
decode_reversed bits (top ∷ []) =
    if top % 128 == 0
    then decode_value bits (leb 128 top) (0, false) false
    else decode_value bits (leb 128 top) (decode_loop bits (top % 128 ∷ []) 0 false) true
decode_reversed bits (top ∷ (next ∷ below)) =
    if top % 128 == 0
    then decode_value bits (leb 128 top) (decode_loop bits (next ∷ below) 0 false) (leb 128 next)
    else decode_value bits (leb 128 top) (decode_loop bits (top % 128 ∷ next ∷ below) 0 false) true

unfoldable pub decode_minimal_int : ℕ → Bytes → MinimalIntDecoded
unfolding decode_reversed
decode_minimal_int bits bytes = decode_reversed bits (reverse bytes)

-- Every byte is zero but for the sign bit of the last.
unfoldable pub is_encoded_zero : Bytes → Bool
is_encoded_zero [] = true
is_encoded_zero (b ∷ []) = b % 128 == 0
is_encoded_zero (b ∷ (c ∷ bs)) = (b == 0) && is_encoded_zero (c ∷ bs)
