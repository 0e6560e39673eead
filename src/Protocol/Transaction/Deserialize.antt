-- ===== src/Protocol/Transaction/Deserialize.antt =====
-- Deserialize of src/hornetlib/protocol/transaction.h, into a fresh transaction: the arrays that it
-- fills are the lists of the transaction.
use hornet.Common.{
  ℕ, ◌-◌, List, [], length, Bytes, Option, none, some, Bool, true, false, ◌==◌, if◌then◌else◌,
}
use hornet.Common.Int.{ℤ, pos, ◌+ℤ◌, ◌-ℤ◌}
use hornet.Common.Int32.{int_result}
use hornet.Encoding.Endian.{to_signed, to_int}
use hornet.Encoding.Reader.{
  Read, ◌>>=◌, ◌>>◌, return, throw, or_throw, get_pos, seek, read_byte, read_bytes, read_le,
  read_var_int, read_each,
}
use hornet.Protocol.Transaction.{OutPoint, Input, Output, Witness, Transaction}

unfoldable pub read_out_point : Read OutPoint
read_out_point = do
  hash ← read_bytes 32
  index ← read_le 4
  return (record { hash = hash; index = index })

-- A length in an int, and so many bytes.
unfoldable pub read_script : Read Bytes
read_script = do size ← read_var_int 31 true; read_bytes size

unfoldable pub read_input : Read Input
unfolding read_out_point read_script
read_input = do
  previous_output ← read_out_point
  script ← read_script
  sequence ← read_le 4
  return
      (record { previous_output = previous_output; signature_script = script; sequence = sequence })

unfoldable pub read_output : Read Output
unfolding read_script
read_output = do
  value ← read_le 8
  script ← read_script
  return (record { value = to_signed 64 value; pk_script = script })

unfoldable pub read_witness : Read Witness
unfolding read_script
read_witness = do size ← read_var_int 31 true; read_each read_script size

-- The byte behind the version: zero opens the two bytes of the witness flag, and any other is put back.
unfoldable pub read_marker : Read Bool
read_marker = do
  byte ← read_byte
  if byte == 0
      then (read_byte >>= λ second. if second == 1 then return true else throw)
      else (get_pos >>= λ pos. seek (pos - 1) >> return false)

unfoldable pub read_inputs : Read (List Input)
unfolding read_input
read_inputs = do size ← read_var_int 64 true; read_each read_input size

unfoldable pub read_outputs : Read (List Output)
unfolding read_output
read_outputs = do size ← read_var_int 64 true; read_each read_output size

-- As many witnesses as there are inputs, behind the flag alone.
unfoldable pub read_witnesses : Bool → ℕ → Read (List Witness)
unfolding read_witness
read_witnesses witness count = if witness then read_each read_witness count else return []

-- The witness data between two positions and the two bytes of its flag, as an int; `none` where the
-- sum overflows.
abbrev pub witness_size_bytes : Bool → ℕ → ℕ → Option ℤ
witness_size_bytes witness start end =
    if witness then int_result (pos 2 +ℤ to_int (end - start)) else some (pos 0)

-- What stands behind the version and the witness flag.
unfoldable pub deserialize_body : ℕ → ℕ → Bool → Read (Transaction × ℤ)
unfolding read_inputs read_outputs read_witnesses
deserialize_body start version witness = do
  inputs ← read_inputs
  outputs ← read_outputs
  witness_start ← get_pos
  witnesses ← read_witnesses witness (length inputs)
  witness_end ← get_pos
  witness_size ← or_throw (witness_size_bytes witness witness_start witness_end)
  lock_time ← read_le 4
  end ← get_pos
  or_throw (elim (int_result (to_int (end - start) -ℤ witness_size)) [
    | none ↦ none
    | some size ↦ some (
      record {
        version = version;
        inputs = inputs;
        outputs = outputs;
        witnesses = witnesses;
        lock_time = lock_time;
        no_witness_size_bytes = size;
      },
      witness_size,
    )
  ])

-- The transaction, and the bytes of its witness data, which the source adds to those of its block.
unfoldable pub deserialize : Read (Transaction × ℤ)
unfolding read_marker deserialize_body
deserialize = do
  start ← get_pos
  version ← read_le 4
  witness ← read_marker
  deserialize_body start version witness
