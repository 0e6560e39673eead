-- ===== src/Consensus/Tests/Transactions.antt =====
-- The theorems on single transactions at the sample transactions.
use hornet.Common.{◌<◌, ◌≡◌, ◌≢◌, ◌↔◌, [], ◌∷◌, ◌++◌, length}
use hornet.Common.Int.{pos, ◌≤ℤ◌}
use hornet.Protocol.Transaction.{Output}
use hornet.Consensus.Types.{success, aborts}
use hornet.Consensus.TransactionRules.{
  validate_output_values, validate_unique_inputs, validate_transaction, previous_outputs,
  money_supply_limit,
}
use hornet.Consensus.TransactionRules.Values.{InMoneyRange, total_value, validate_output_values_iff}
use hornet.Consensus.TransactionRules.Unique.{validate_unique_inputs_iff}
use hornet.Consensus.TransactionRules.Valid.{InputsWellFormed, validate_transaction_iff}
use hornet.Consensus.ContextRules.{witness_commitment_bytes}
use hornet.Consensus.Tests.Samples.{
  sample_env, insertion_sort-Sorts, coinbase_transaction, spend_transaction,
}
use mathlib.Core.List.{Nodup}

validate_output_values_iff_example :
    ((validate_output_values coinbase_transaction ≡ success) ↔ (
      InMoneyRange coinbase_transaction.outputs
      × (total_value coinbase_transaction.outputs ≤ℤ pos money_supply_limit)))
    × (validate_output_values coinbase_transaction ≢ aborts)
validate_output_values_iff_example = validate_output_values_iff coinbase_transaction

validate_unique_inputs_iff_example :
    (validate_unique_inputs sample_env spend_transaction ≡ success)
    ↔ Nodup (previous_outputs spend_transaction)
validate_unique_inputs_iff_example =
    validate_unique_inputs_iff sample_env spend_transaction insertion_sort-Sorts

validate_transaction_iff_example : (validate_transaction sample_env spend_transaction ≡ success) ↔ (
    (0 < length spend_transaction.inputs)
    × (0 < length spend_transaction.outputs)
    × (spend_transaction.no_witness_size_bytes ≤ℤ pos 1_000_000)
    × (InMoneyRange spend_transaction.outputs
        × (total_value spend_transaction.outputs ≤ℤ pos money_supply_limit))
    × Nodup (previous_outputs spend_transaction)
    × InputsWellFormed spend_transaction)
validate_transaction_iff_example =
    validate_transaction_iff sample_env spend_transaction insertion_sort-Sorts

abbrev commitment_output : Output
commitment_output = record { value = pos 0; pk_script = witness_commitment_bytes ++ (1 ∷ 2 ∷ []) }
