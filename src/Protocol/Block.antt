-- ===== src/Protocol/Block.antt =====
-- src/hornetlib/protocol/block.h: a block with the byte counts that Deserialize leaves in it.
pub mod Serialize
pub mod RoundTrip
pub mod Sizes
use hornet.Common.{ℕ, List, [], ◌∷◌, length, Bytes, Bool, true, false, Option, none, some}
use hornet.Common.Int.{ℤ, pos, ◌-ℤ◌, ◌*ℤ◌}
use hornet.Common.Int32.{int_result}
use hornet.Protocol.Header.{BlockHeader}
use hornet.Protocol.Transaction.{Transaction}

pub record Block : Type 0 where
  pub header : BlockHeader
  pub transactions : List Transaction
  pub serialized_bytes : ℤ
  pub witness_bytes : ℤ

abbrev pub transaction_count : Block → ℕ
transaction_count b = length b.transactions

unfoldable pub block_is_empty : Block → Bool
block_is_empty b = elim b.transactions [ [] ↦ true | tx ∷ txs ↦ false ]

-- Transaction(0).SignatureScript(0); `none` where either index is out of range.
unfoldable pub coinbase_signature : Block → Option Bytes
coinbase_signature b = elim b.transactions [
  | [] ↦ none
  | tx ∷ txs ↦ elim tx.inputs [ [] ↦ none | input ∷ rest ↦ some input.signature_script ]
]

-- Both compute in int: `none` where a product or the difference overflows.
unfoldable pub get_weight_units : Block → Option ℤ
get_weight_units b = elim (int_result (pos 4 *ℤ b.serialized_bytes)) [
  | none ↦ none
  | some total ↦ elim (int_result (pos 3 *ℤ b.witness_bytes)) [
    | none ↦ none
    | some discount ↦ int_result (total -ℤ discount)
  ]
]

unfoldable pub get_stripped_size : Block → Option ℤ
get_stripped_size b = int_result (b.serialized_bytes -ℤ b.witness_bytes)
