-- ===== src/Script/Tests.antt =====
-- The parser of src/hornetlib/protocol/script at concrete scripts.
use hornet.Common.{◌≡◌, [], ◌∷◌, ◌++◌, some, length, Bytes, arith}
use hornet.Encoding.Endian.{to_int}
use hornet.Script.Writer.{push_data}
use hornet.Script.Parser.{next}
use hornet.Script.RoundTrip.{push_opcode, next-push_data}

abbrev payload : Bytes
payload = 5 ∷ 6 ∷ 7 ∷ []

abbrev script : Bytes
script = 0x51 ∷ 0x52 ∷ []

next-push_data_example :
    (pushed : Bytes) × (push_data script payload ≡ some (script ++ pushed))
    × (next (record { rest = pushed ++ (0xac ∷ []); offset = 2 }) ≡ (
      some (record { opcode = push_opcode payload; payload = payload; offset = to_int 2 }),
      record { rest = 0xac ∷ []; offset = length (script ++ pushed) },
    ))
next-push_data_example = next-push_data script payload (0xac ∷ []) (omega arith)
