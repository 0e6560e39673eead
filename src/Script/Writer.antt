-- ===== src/Script/Writer.antt =====
-- src/hornetlib/protocol/script/writer.h: instructions appended to a script.
use hornet.Common.{
  ℕ, ◌+◌, ◌-◌, [], ◌∷◌, ◌++◌, length, Bytes, Option, none, some, ltb, leb, ◌==◌, if◌then◌else◌,
}
use hornet.Common.Int.{ℤ}
use hornet.Encoding.Endian.{le_bytes}
use hornet.Script.Op.{
  push_const_0, push_size_1, push_size_max, push_data_1, push_data_2, push_data_4, is_immediate,
  immediate_to_op,
}
use hornet.Script.Minimal.{encode_minimal_int}

-- What PushData appends, behind its assertion.
unfoldable pub push_data_instruction : Bytes → Bytes
push_data_instruction payload =
    if length payload == 0
    then push_const_0 ∷ []
    else if leb (length payload) push_size_max
    then (push_size_1 + (length payload - 1)) ∷ payload
    else if leb (length payload) 0xFF
    then push_data_1 ∷ (le_bytes 1 (length payload) ++ payload)
    else if leb (length payload) 0xFFFF
    then push_data_2 ∷ (le_bytes 2 (length payload) ++ payload)
    else push_data_4 ∷ (le_bytes 4 (length payload) ++ payload)

-- PushData, which asserts a size below 2 ^ 32 - 1.
unfoldable pub push_data : Bytes → Bytes → Option Bytes
unfolding push_data_instruction
push_data script payload =
    if ltb (length payload) 0xFFFF_FFFF
    then some (script ++ push_data_instruction payload)
    else none

-- An int32_t: an opcode where it has one, and otherwise the push of its minimal encoding, whose few
-- bytes PushData's assertion accepts.
unfoldable pub push_int : Bytes → ℤ → Bytes
unfolding push_data_instruction
push_int script value =
    if is_immediate value
    then script ++ (immediate_to_op value ∷ [])
    else script ++ push_data_instruction (encode_minimal_int 4 value)

unfoldable pub then_op : Bytes → ℕ → Bytes
then_op script opcode = script ++ (opcode ∷ [])
