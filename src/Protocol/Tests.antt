-- ===== src/Protocol/Tests.antt =====
-- The compact targets of src/hornetlib/protocol/compact_target.h at concrete targets.
use hornet.Common.{ℕ, zero, suc, ◌≡◌, refl, none, some, leb, length, replicate, Bytes, arith, inl}
use hornet.Uint.{Words, value, IsWords}
use hornet.Encoding.Endian.{from_le}
use hornet.Protocol.Target.{Target, expand, meets}
use hornet.Protocol.Target.Expand.{
  HasTarget, IsBytes, target_number, expand-target_number, expand_undefined, meets-expand,
}

genesis_bits-HasTarget : HasTarget 0x1d00_ffff
genesis_bits-HasTarget = record { positive = refl; nonzero = refl; in_range = refl }

expand-target_number_example :
    (ws : Words) × (expand 0x1d00_ffff ≡ some (some ws))
    × (value ws ≡ target_number 0x1d00_ffff)
    × IsWords ws
    × (length ws ≡ 4)
expand-target_number_example =
    expand-target_number 0x1d00_ffff genesis_bits-HasTarget (omega arith) (omega arith)

bits_with_exponent_11-HasTarget : HasTarget 0x0b00_ffff
bits_with_exponent_11-HasTarget = record { positive = refl; nonzero = refl; in_range = refl }

expand_undefined_example : expand 0x0b00_ffff ≡ none
expand_undefined_example = expand_undefined 0x0b00_ffff bits_with_exponent_11-HasTarget (inl refl)

abbrev low_hash : Bytes
low_hash = replicate 32 0

low_hash-IsBytes : (n : ℕ) → IsBytes (replicate n 0)
low_hash-IsBytes zero = tt
low_hash-IsBytes (suc n) = (omega arith, low_hash-IsBytes n)

meets-expand_example :
    (t : Target) × (expand 0x1d00_ffff ≡ some t)
    × (meets low_hash t ≡ leb (from_le low_hash) (target_number 0x1d00_ffff))
meets-expand_example =
    meets-expand low_hash 0x1d00_ffff refl (low_hash-IsBytes 32) genesis_bits-HasTarget
      (omega arith) (omega arith)
