-- ===== src/Protocol/Block/Serialize.antt =====
-- Serialize and Deserialize of src/hornetlib/protocol/block.h.
use hornet.Common.{
  ℕ, ◌-◌, List, [], ◌∷◌, map, length, Option, none, some, Bool, true, ltb, if◌then◌else◌,
}
use hornet.Common.Int.{ℤ, pos, ◌+ℤ◌}
use hornet.Common.Int32.{int_result}
use hornet.Encoding.Endian.{to_int}
use hornet.Encoding.Reader.{◌>>=◌, Read, throw, or_throw, get_pos, read_var_int, read_each}
use hornet.Encoding.Writer.{Writer, write_var_int}
use hornet.Protocol.Block.{Block}
use hornet.Protocol.Header.{BlockHeader}
use hornet.Protocol.Header
use hornet.Protocol.Header.Deserialize.{read_header}
use hornet.Protocol.Transaction.{Transaction}
use hornet.Protocol.Transaction
use hornet.Protocol.Transaction.Deserialize.{deserialize}

-- The loop over the transactions, which ends where one throws.
unfoldable pub write_transactions : Writer → List Transaction → Bool → Option Writer
write_transactions w [] include_witness = some w
write_transactions w (tx ∷ txs) include_witness =
    elim (Transaction.serialize w tx include_witness) [
      | none ↦ none
      | some w' ↦ write_transactions w' txs include_witness
    ]

unfoldable pub write_block : Writer → Block → Bool → Option Writer
unfolding write_transactions
write_block w b include_witness =
    write_transactions (write_var_int (Header.serialize w b.header) (length b.transactions))
      b.transactions include_witness

abbrev pub max_transactions : ℕ
max_transactions = 100_000

-- The bytes that the transactions add to the witness data of their block, which is an int, with the
-- total so far; `none` where a sum overflows.
unfoldable pub total_witness_bytes : ℤ → List (Transaction × ℤ) → Option ℤ
total_witness_bytes total [] = some total
total_witness_bytes total ((tx, witness_bytes) ∷ rest) =
    elim (int_result (total +ℤ witness_bytes)) [
      | none ↦ none
      | some next ↦ total_witness_bytes next rest
    ]

-- What stands behind the count, in a block that starts at `start`.
unfoldable pub read_counted : ℕ → BlockHeader → ℕ → Read Block
unfolding total_witness_bytes
read_counted start header count = do
  read ← read_each deserialize count
  end ← get_pos
  or_throw (elim (total_witness_bytes (pos 0) read) [
    | none ↦ none
    | some witness_bytes ↦ some (record {
      header = header;
      transactions = map (λ (p : Transaction × ℤ). p.0) read;
      serialized_bytes = to_int (end - start);
      witness_bytes = witness_bytes;
    })
  ])

unfoldable pub read_block : Read Block
unfolding read_header read_counted
read_block = do
  start ← get_pos
  header ← read_header
  count ← read_var_int 64 true
  if ltb max_transactions count then throw else read_counted start header count
