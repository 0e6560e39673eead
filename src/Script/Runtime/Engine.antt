-- ===== src/Script/Runtime/Engine.antt =====
-- src/hornetlib/protocol/script/runtime/engine.cpp, decode.h and ops: one instruction of a script.
-- The script of a machine, which no operation reads, is left out.
use hornet.Common.{
  ℕ, ◌+◌, ◌-◌, ◌^◌, get_or, [], ◌∷◌, length, Bytes, bytes_eq, Bool, not, ◌&&◌, ltb, leb, ◌==◌,
  if◌then◌else◌,
}
use hornet.Common.Int.{ℤ, pos, ◌+ℤ◌}
use hornet.Script.Minimal.{
  encode_minimal_int, MinimalIntDecoded, decode_minimal_int, is_encoded_zero,
}
use hornet.Script.Op.{
  is_push, push_const_0, push_size_1, push_size_max, push_data_1, push_data_2, push_data_4,
  push_const_negative_1, push_const_16, immediate_to_op,
}
use hornet.Script.Parser.{Instruction}
use hornet.Script.Runtime.Stack.{
  non_minimal_number, non_minimal_push, number_overflow, op_count_excessive, Result, ok, fault,
  aborts, Stack, push, pop, peek_at,
}

pub data Version : Type 0 where
  legacy segwit_v0 tapscript : Version

abbrev drop_op : ℕ
drop_op = 0x75

abbrev duplicate_op : ℕ
duplicate_op = 0x76

abbrev equal_op : ℕ
equal_op = 0x87

abbrev add_op : ℕ
add_op = 0x93

abbrev max_non_push_ops : ℕ
max_non_push_ops = 201

infixl 5 ◌>>=◌
abbrev pub ◌>>=◌ : {A B : Type 0} → Result A → (A → Result B) → Result B
ok a >>= f = f a
fault e >>= f = fault e
aborts >>= f = aborts

-- DecodeInt32.
unfoldable pub decode_checked : Bool → MinimalIntDecoded → Result ℤ
decode_checked require_minimal decoded =
    if require_minimal && not decoded.minimal
    then fault non_minimal_number
    else if decoded.overflow
    then aborts
    else ok decoded.value

unfoldable pub decode_int32 : Bytes → Bool → Result ℤ
unfolding decode_checked
decode_int32 bytes require_minimal =
    if ltb 4 (length bytes)
    then fault number_overflow
    else decode_checked require_minimal (decode_minimal_int 32 bytes)

-- The first byte, where there is one.
abbrev first_byte : Bytes → ℕ
first_byte bytes = get_or bytes 0 0

-- The opcode that VerifyMinimal wants for a payload.
unfoldable pub minimal_op : Bytes → ℕ
minimal_op payload =
    if is_encoded_zero payload
    then push_const_0
    else if (length payload == 1) && (leb 1 (first_byte payload) && leb (first_byte payload) 16)
    then immediate_to_op (pos (first_byte payload))
    else if (length payload == 1) && (first_byte payload == 0x81)
    then push_const_negative_1
    else if leb (length payload) push_size_max
    then push_size_1 + (length payload - 1)
    else if leb (length payload) 0xFF
    then push_data_1
    else if leb (length payload) 0xFFFF
    then push_data_2
    else push_data_4

-- The operations of a stack, of which the handlers use no other.
pub record StackOps (S : Type 0) : Type 0 where
  pub push_item : Bytes → S → Result S
  pub pop_items : ℕ → S → Result S
  pub item_at : ℕ → S → Result Bytes

abbrev pub stack_ops : StackOps Stack
stack_ops = record { push_item = push; pop_items = pop; item_at = peek_at }

-- The state of execution, with the policy and the version, which stay.
pub record Machine (S : Type 0) : Type 0 where
  pub stack : S
  pub non_push_op_count : ℕ
  pub require_minimal : Bool
  pub version : Version

-- The handlers that are registered; an unknown one throws an exception that is not the runtime's.
pub data Handler : Type 0 where
  push_empty_handler push_data_handler drop_handler duplicate_handler equal_handler : Handler
  add_handler unknown_handler : Handler
  push_const_handler : ℕ → Handler

-- The dispatch table, which is the same for each version.
unfoldable pub get_handler : ℕ → Handler
get_handler op =
    if op == push_const_0
    then push_empty_handler
    else if leb op push_data_4
    then push_data_handler
    else if op == push_const_negative_1
    then push_const_handler 0x81
    else if leb 0x51 op && leb op push_const_16
    then push_const_handler (op - 0x50)
    else if op == drop_op
    then drop_handler
    else if op == duplicate_op
    then duplicate_handler
    else if op == equal_op
    then equal_handler
    else if op == add_op
    then add_handler
    else unknown_handler

-- Whether the count has reached the limit of the version, if it has one.
abbrev pub is_op_limit : Version → ℕ → Bool
is_op_limit legacy n = leb max_non_push_ops n
is_op_limit segwit_v0 n = leb max_non_push_ops n
is_op_limit tapscript n = leb (2 ^ 31 - 1) n

-- The machine after an instruction that left the stack.
abbrev pub counted : {S : Type 0} → ℕ → Machine S → S → Machine S
counted op m s = record m {
  stack = s;
  non_push_op_count = if is_push op then m.non_push_op_count else m.non_push_op_count + 1;
}

module _ {S : Type 0} (ops : StackOps S) where
  unfoldable pub on_add : Bool → S → Result S
  unfolding decode_int32
  on_add require_minimal s = ops.item_at 1 s >>= λ a. decode_int32 a require_minimal >>= λ x1.
      ops.item_at 0 s >>= λ b. decode_int32 b require_minimal >>= λ x2.
      ops.pop_items 2 s >>= λ s'. ops.push_item (encode_minimal_int 8 (x1 +ℤ x2)) s'

  -- The flag is pushed as one byte.
  unfoldable pub on_equal : S → Result S
  on_equal s = ops.item_at 1 s >>= λ x1. ops.item_at 0 s >>= λ x2.
      ops.pop_items 2 s >>= λ s'. ops.push_item ((if bytes_eq x1 x2 then 1 else 0) ∷ []) s'

  unfoldable pub on_push_data : Bool → Instruction → S → Result S
  unfolding minimal_op
  on_push_data require_minimal instruction s =
      if require_minimal && not (instruction.opcode == minimal_op instruction.payload)
      then fault non_minimal_push
      else ops.push_item instruction.payload s

  unfoldable pub on_push_empty : Bool → Instruction → S → Result S
  unfolding minimal_op
  on_push_empty require_minimal instruction s =
      if require_minimal && not (instruction.opcode == minimal_op instruction.payload)
      then fault non_minimal_push
      else ops.push_item [] s

  unfoldable pub on_duplicate : S → Result S
  on_duplicate s = ops.item_at 0 s >>= λ payload. ops.push_item payload s

  unfoldable pub run_handler : Handler → Bool → Instruction → S → Result S
  unfolding on_add on_equal on_push_data on_push_empty on_duplicate
  run_handler push_empty_handler require_minimal instruction s =
      on_push_empty require_minimal instruction s
  run_handler push_data_handler require_minimal instruction s =
      on_push_data require_minimal instruction s
  run_handler (push_const_handler byte) require_minimal instruction s = ops.push_item (byte ∷ []) s
  run_handler drop_handler require_minimal instruction s = ops.pop_items 1 s
  run_handler duplicate_handler require_minimal instruction s = on_duplicate s
  run_handler equal_handler require_minimal instruction s = on_equal s
  run_handler add_handler require_minimal instruction s = on_add require_minimal s
  run_handler unknown_handler require_minimal instruction s = aborts

  unfoldable pub execute : Bool → Instruction → S → Result S
  unfolding run_handler get_handler
  execute require_minimal instruction s =
      run_handler (get_handler instruction.opcode) require_minimal instruction s

  unfoldable pub step_execution : Instruction → Machine S → Result (Machine S)
  unfolding execute
  step_execution instruction m =
      let op = instruction.opcode in
      if not (is_push op) && is_op_limit m.version m.non_push_op_count
      then fault op_count_excessive
      else (execute m.require_minimal instruction m.stack >>= λ s. ok (counted op m s))
