-- ===== src/Script/RoundTrip.antt =====
-- What the parser makes of a script, and of what the writer wrote.
use hornet.Common.{
  ℕ, zero, suc, ◌+◌, ◌^◌, ◌<◌, ◌≤◌, ◌≡◌, refl, ap, [], ◌∷◌, ◌++◌, length, Bytes, Option, some, none,
  true, ltb, ◌-◌, Option-cases, inl, inr, leb, if◌then◌else◌, arith, drop, length-append,
  length-drop,
}
use hornet.Encoding.Endian.{to_int, le_bytes, length-le_bytes}
use hornet.Encoding.RoundTrip.{from_le-le_bytes, take-append, drop-append}
use hornet.Script.Writer.{push_data_instruction, push_data}
use hornet.Script.Parser.{
  Parser, Instruction, read_push_size_variable, read_instruction_size, take_instruction, next,
  instructions_from,
}
use mathlib.Core.List.{append_assoc}

-- A size field that was written is read back with its width.
read_size :
    (width n : ℕ) (tail : Bytes)
    → n < 256 ^ width
    → read_push_size_variable width (le_bytes width n ++ tail) ≡ some (width, n)
unfolding read_push_size_variable
read_size width n tail h = ground (
  arith,
  length-append (le_bytes width n) tail,
  length-le_bytes width n,
  take-append (le_bytes width n) tail,
  from_le-le_bytes width n h,
)

take_sized :
    (p : Parser) (opcode width : ℕ) (payload tail : Bytes)
    → take_instruction p opcode
        (le_bytes width (length payload) ++ (payload ++ tail))
        (some (width, length payload))
      ≡ (
        some (record { opcode = opcode; payload = payload; offset = to_int p.offset }),
        record { rest = tail; offset = p.offset + 1 + width + length payload },
      )
unfolding take_instruction
take_sized p opcode width payload tail = ground (
  arith,
  length-append (le_bytes width (length payload)) (payload ++ tail),
  length-append payload tail,
  length-le_bytes width (length payload),
  drop-append (le_bytes width (length payload)) (payload ++ tail),
  take-append payload tail,
  drop-append payload tail,
)

-- The opcode of the push and the bytes of its size field.
abbrev pub push_opcode : Bytes → ℕ
push_opcode payload =
    if leb (length payload) 75
    then length payload
    else if leb (length payload) 0xFF
    then 0x4c
    else if leb (length payload) 0xFFFF
    then 0x4d
    else 0x4e

next-push_data_instruction :
    (payload tail : Bytes) (offset : ℕ)
    → length payload < 2 ^ 32
    → next (record { rest = push_data_instruction payload ++ tail; offset = offset }) ≡ (
      some (record { opcode = push_opcode payload; payload = payload; offset = to_int offset }),
      record { rest = tail; offset = offset + length (push_data_instruction payload) },
    )
unfolding next push_data_instruction read_instruction_size
next-push_data_instruction [] tail offset h = unfold take_instruction in ground arith
next-push_data_instruction (b ∷ bs) tail offset h = ground (
  arith,
  sized 1,
  sized 2,
  sized 4,
  take_sized at_push (length payload) 0 payload tail,
  take_sized at_push 0x4c 1 payload tail,
  take_sized at_push 0x4d 2 payload tail,
  take_sized at_push 0x4e 4 payload tail,
  append_assoc (le_bytes 1 (length payload)) payload tail,
  append_assoc (le_bytes 2 (length payload)) payload tail,
  append_assoc (le_bytes 4 (length payload)) payload tail,
  no_size_bytes,
  lengths 1,
  lengths 2,
  lengths 4,
)
  where
    payload : Bytes
    payload = b ∷ bs

    at_push : Parser
    at_push = record { rest = push_data_instruction payload ++ tail; offset = offset }

    sized :
        (width : ℕ)
        → length payload < 256 ^ width
        → read_push_size_variable width (le_bytes width (length payload) ++ (payload ++ tail))
          ≡ some (width, length payload)
    sized width small = read_size width (length payload) (payload ++ tail) small

    no_size_bytes : le_bytes 0 (length payload) ≡ []
    no_size_bytes = unfold le_bytes in refl

    lengths :
        (width : ℕ) → length (le_bytes width (length payload) ++ payload) ≡ width + length payload
    lengths width = omega (
      arith,
      length-append (le_bytes width (length payload)) payload,
      length-le_bytes width (length payload),
    )

-- PushData of less than 2 ^ 32 - 1 bytes, which is what it asserts, succeeds and appends one
-- instruction. Next at that instruction gives back the data pushed, at the offset of the push as an
-- int, and leaves the parser at what follows it.
pub next-push_data :
    (script payload tail : Bytes)
    → length payload < 2 ^ 32 - 1
    → (pushed : Bytes) × (push_data script payload ≡ some (script ++ pushed))
      × (next (record { rest = pushed ++ tail; offset = length script }) ≡ (
        some (record {
          opcode = push_opcode payload;
          payload = payload;
          offset = to_int (length script);
        }),
        record { rest = tail; offset = length (script ++ pushed) },
      ))
unfolding push_data
next-push_data script payload tail h =
    let asserted : ltb (length payload) 0xFFFF_FFFF ≡ true = ground (arith, h) in
    (
      push_data_instruction payload,
      rw asserted refl,
      rw (length-append script (push_data_instruction payload))
          (next-push_data_instruction payload tail (length script) (omega (arith, h))),
    )

take_instruction_shorter :
    (p : Parser) (opcode : ℕ) (push : Bytes) (size : Option (ℕ × ℕ)) (instruction : Instruction)
    → (take_instruction p opcode push size).0 ≡ some instruction
    → length (take_instruction p opcode push size).1.rest ≤ length push
unfolding take_instruction
take_instruction_shorter p opcode push none instruction h = ground arith
take_instruction_shorter p opcode push (some (s, n)) instruction h =
    ground (arith, length-drop n (drop s push), length-drop s push)

-- Next takes bytes off the script whenever it returns an instruction.
pub next_shorter :
    (rest : Bytes) (offset : ℕ) (instruction : Instruction)
    → (next (record { rest = rest; offset = offset })).0 ≡ some instruction
    → length (next (record { rest = rest; offset = offset })).1.rest < length rest
unfolding next
next_shorter [] offset instruction h = cc
next_shorter (opcode ∷ push) offset instruction h =
    let p : Parser = record { rest = opcode ∷ push; offset = offset } in
    omega (
      arith,
      take_instruction_shorter p opcode push (read_instruction_size opcode push) instruction h,
    )

-- Two counts of calls of Next that are both above the number of bytes left give the same
-- instructions.
instructions_enough :
    (m n : ℕ) (p : Parser)
    → length p.rest < m
    → length p.rest < n
    → instructions_from m p ≡ instructions_from n p
unfolding instructions_from
instructions_enough zero n p h k = absurd (omega arith)
instructions_enough (suc m) zero p h k = absurd (omega arith)
instructions_enough (suc m) (suc n) p h k = elim (Option-cases (next p).0) [
  | inl e ↦ rw (e, instructions_from)
  | inr (i, e) ↦
      let shorter = next_shorter p.rest p.offset i e in
      rw (e, instructions_from)
        (ap (◌∷◌ i) (instructions_enough m n (next p).1 (omega arith) (omega arith)))
]
