-- ===== src/Script/Parser.antt =====
-- src/hornetlib/protocol/script/{parser,view}.h: the instructions of a script. The cursor is the
-- script from it on, with its offset; an instruction that is cut short ends the script.
use hornet.Common.{
  ℕ, zero, suc, ◌+◌, List, [], ◌∷◌, length, take, drop, Bytes, Option, none, some, ltb, ◌==◌,
  if◌then◌else◌,
}
use hornet.Common.Int.{ℤ}
use hornet.Encoding.Endian.{from_le, to_int}
use hornet.Script.Op.{push_data_1, push_data_2, push_data_4}

pub record Instruction : Type 0 where
  pub opcode : ℕ
  pub payload : Bytes
  pub offset : ℤ

pub record Parser : Type 0 where
  pub rest : Bytes
  pub offset : ℕ

abbrev pub parse_from : Bytes → Parser
parse_from script = record { rest = script; offset = 0 }

-- The size field of `width` bytes behind the opcode, and the number in it.
unfoldable pub read_push_size_variable : ℕ → Bytes → Option (ℕ × ℕ)
read_push_size_variable width push =
    if ltb (length push) width then none else some (width, from_le (take width push))

-- How many bytes the size field and the payload take.
unfoldable pub read_instruction_size : ℕ → Bytes → Option (ℕ × ℕ)
unfolding read_push_size_variable
read_instruction_size opcode push =
    if ltb opcode push_data_1
    then some (0, opcode)
    else if opcode == push_data_1
    then read_push_size_variable 1 push
    else if opcode == push_data_2
    then read_push_size_variable 2 push
    else if opcode == push_data_4
    then read_push_size_variable 4 push
    else some (0, 0)

abbrev at_end : Parser → Parser
at_end p = record { rest = []; offset = p.offset + length p.rest }

unfoldable pub take_instruction : Parser → ℕ → Bytes → Option (ℕ × ℕ) → Option Instruction × Parser
take_instruction p opcode push none = (none, at_end p)
take_instruction p opcode push (some (size_bytes, payload_bytes)) =
    if ltb (length push) (size_bytes + payload_bytes) then (none, at_end p) else (
      some (record {
        opcode = opcode;
        payload = take payload_bytes (drop size_bytes push);
        offset = to_int p.offset;
      }),
      record {
        rest = drop payload_bytes (drop size_bytes push);
        offset = p.offset + 1 + size_bytes + payload_bytes;
      },
    )

unfoldable pub next : Parser → Option Instruction × Parser
unfolding take_instruction
next p = elim p.rest [
  | [] ↦ (none, p)
  | opcode ∷ push ↦ take_instruction p opcode push (read_instruction_size opcode push)
]

unfoldable pub peek : Parser → Option ℕ
peek p = elim p.rest [ [] ↦ none | opcode ∷ push ↦ some opcode ]

-- The range of View::Instructions, by at most `rounds` calls of Next.
unfoldable pub instructions_from : ℕ → Parser → List Instruction
instructions_from zero p = []
instructions_from (suc rounds) p = elim (next p).0 [
  | none ↦ []
  | some instruction ↦ instruction ∷ instructions_from rounds (next p).1
]

-- Each instruction takes a byte at least; see RoundTrip.
unfoldable pub instructions : Bytes → List Instruction
unfolding instructions_from next
instructions script = instructions_from (length script + 1) (parse_from script)
