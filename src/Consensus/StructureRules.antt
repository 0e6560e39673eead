-- ===== src/Consensus/StructureRules.antt =====
-- src/hornetlib/consensus/rules/validate_block_structure.h and ValidateStructural of validate.h.
pub mod Valid
use hornet.Common.{
  ℕ, ◌+◌, List, [], ◌∷◌, none, some, not, ◌||◌, ltb, ◌==◌, if◌then◌else◌, Bytes, bytes_eq,
}
use hornet.Common.Int.{pos, ltb_ℤ}
use hornet.Protocol.Transaction.{Input, Output, Transaction, is_coin_base}
use hornet.Protocol.Block.{Block, transaction_count, get_stripped_size}
use hornet.Script.Op.{check_sig, check_sig_verify, check_multi_sig, check_multi_sig_verify}
use hornet.Script.Parser.{Instruction, instructions}
use hornet.Consensus.Types.{Error, Result, success, failure, aborts, and_then, error_if}
use hornet.Consensus.Rule.{rule, validate_rules}
use hornet.Consensus.Env.{Env}
use hornet.Consensus.Merkle.{compute_merkle_root}
use hornet.Consensus.TransactionRules.{validate_transaction}

-- The table kSigOpCosts.
unfoldable pub sig_op_cost : ℕ → ℕ
sig_op_cost op =
    if (op == check_sig) || (op == check_sig_verify)
    then 1
    else (if (op == check_multi_sig) || (op == check_multi_sig_verify) then 20 else 0)

unfoldable pub sum_costs : List Instruction → ℕ
unfolding sig_op_cost
sum_costs [] = 0
sum_costs (instruction ∷ rest) = sig_op_cost instruction.opcode + sum_costs rest

unfoldable pub get_sig_op_count : Bytes → ℕ
unfolding sum_costs
get_sig_op_count script = sum_costs (instructions script)

unfoldable pub input_sig_ops : List Input → ℕ
input_sig_ops [] = 0
input_sig_ops (input ∷ rest) = get_sig_op_count input.signature_script + input_sig_ops rest

unfoldable pub output_sig_ops : List Output → ℕ
output_sig_ops [] = 0
output_sig_ops (output ∷ rest) = get_sig_op_count output.pk_script + output_sig_ops rest

unfoldable pub get_legacy_sig_op_count : Transaction → ℕ
unfolding input_sig_ops output_sig_ops
get_legacy_sig_op_count tx = input_sig_ops tx.inputs + output_sig_ops tx.outputs

unfoldable pub validate_non_empty : Block → Result
validate_non_empty block =
    error_if (ltb (transaction_count block) 1) Error.structure_bad_transaction_count

unfoldable pub validate_original_size_limit : Block → Result
validate_original_size_limit block = elim (get_stripped_size block) [
  | none ↦ aborts
  | some size ↦ error_if (ltb_ℤ (pos 1_000_000) size) Error.structure_bad_size
]

-- The loop over the transactions from the index on.
unfoldable pub check_coinbase : ℕ → List Transaction → Result
check_coinbase index [] = success
check_coinbase index (tx ∷ txs) =
    let rest = check_coinbase (index + 1) txs in
    let first = index == 0 in
    if (if is_coin_base tx then not first else first)
    then failure Error.structure_bad_coin_base
    else rest

unfoldable pub validate_coinbase : Block → Result
unfolding check_coinbase
validate_coinbase block = check_coinbase 0 block.transactions

unfoldable pub block_sig_ops : List Transaction → ℕ
block_sig_ops [] = 0
block_sig_ops (tx ∷ txs) = get_legacy_sig_op_count tx + block_sig_ops txs

unfoldable pub validate_signature_ops : Block → Result
unfolding block_sig_ops
validate_signature_ops block =
    error_if (ltb 20_000 (block_sig_ops block.transactions)) Error.structure_bad_sig_op_count

module _ (env : Env) where
  unfoldable pub validate_merkle_root : Block → Result
  validate_merkle_root block = elim (compute_merkle_root env.double_sha256 block) [
    | none ↦ aborts
    | some root ↦
        error_if (not root.unique || not (bytes_eq root.hash block.header.merkle_root))
          Error.structure_bad_merkle_root
  ]

  -- The first transaction that is not valid decides.
  unfoldable pub check_transactions : List Transaction → Result
  check_transactions [] = success
  check_transactions (tx ∷ txs) = and_then (validate_transaction env tx) (check_transactions txs)

  unfoldable pub validate_transactions : Block → Result
  unfolding check_transactions
  validate_transactions block = check_transactions block.transactions

  unfoldable pub validate_structural : Block → Result
  validate_structural =
      validate_rules
        (rule validate_non_empty
          ∷ rule validate_merkle_root
          ∷ rule validate_original_size_limit
          ∷ rule validate_coinbase
          ∷ rule validate_transactions
          ∷ rule validate_signature_ops
          ∷ [])
        0
