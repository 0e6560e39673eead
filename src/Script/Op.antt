-- ===== src/Script/Op.antt =====
-- src/hornetlib/protocol/script/lang/op.h: opcodes are bytes.
use hornet.Common.{ℕ, ◌+◌, ◌-◌, Bool, ◌&&◌, leb, ◌==◌, if◌then◌else◌}
use hornet.Common.Int.{ℤ, pos, negsuc}

abbrev pub push_const_0 : ℕ
push_const_0 = 0x00

abbrev pub push_size_1 : ℕ
push_size_1 = 0x01

abbrev pub push_size_max : ℕ
push_size_max = 0x4b

abbrev pub push_data_1 : ℕ
push_data_1 = 0x4c

abbrev pub push_data_2 : ℕ
push_data_2 = 0x4d

abbrev pub push_data_4 : ℕ
push_data_4 = 0x4e

abbrev pub push_const_negative_1 : ℕ
push_const_negative_1 = 0x4f

abbrev pub push_const_16 : ℕ
push_const_16 = 0x60

abbrev pub op_return : ℕ
op_return = 0x6a

abbrev pub check_sig : ℕ
check_sig = 0xac

abbrev pub check_sig_verify : ℕ
check_sig_verify = 0xad

abbrev pub check_multi_sig : ℕ
check_multi_sig = 0xae

abbrev pub check_multi_sig_verify : ℕ
check_multi_sig_verify = 0xaf

-- The integers from -1 to 16 have an opcode of their own.
unfoldable pub is_immediate : ℤ → Bool
is_immediate (pos n) = leb n 16
is_immediate (negsuc n) = n == 0

unfoldable pub immediate_to_op : ℤ → ℕ
immediate_to_op (pos n) = if n == 0 then push_const_0 else push_const_negative_1 + (n + 1)
immediate_to_op (negsuc n) = push_const_negative_1

-- op_to_immediate of an opcode that is_immediate_op accepts.
unfoldable pub is_immediate_op : ℕ → Bool
is_immediate_op op = leb push_const_negative_1 op && leb op push_const_16

unfoldable pub op_to_immediate : ℕ → ℤ
op_to_immediate op =
    if op == push_const_negative_1 then negsuc 0 else pos (op - push_const_negative_1 - 1)

unfoldable pub is_push : ℕ → Bool
is_push op = leb op push_const_16
