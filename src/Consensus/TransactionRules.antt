-- ===== src/Consensus/TransactionRules.antt =====
-- src/hornetlib/consensus/rules/validate_transaction.h and ValidateTransaction of validate.h.
pub mod Values
pub mod Unique
pub mod Valid
use hornet.Common.{
  ℕ, ◌*◌, ◌-◌, ◌^◌, ◌&&◌, not, List, [], ◌∷◌, length, Bool, false, ◌||◌, ltb, if◌then◌else◌, map,
}
use hornet.Common.Int.{ℤ, pos, negsuc, ◌+ℤ◌, ltb_ℤ}
use hornet.Protocol.Transaction.{
  OutPoint, Input, Output, Transaction, out_point_eq, out_point_is_null, is_coin_base,
}
use hornet.Consensus.Types.{Error, Result, success, failure, aborts, error_if}
use hornet.Consensus.Rule.{rule, validate_rules}
use hornet.Consensus.Env.{Env}

unfoldable pub validate_input_count : Transaction → Result
validate_input_count tx = error_if (ltb (length tx.inputs) 1) Error.transaction_empty_inputs

unfoldable pub validate_output_count : Transaction → Result
validate_output_count tx = error_if (ltb (length tx.outputs) 1) Error.transaction_empty_outputs

unfoldable pub validate_transaction_size : Transaction → Result
validate_transaction_size tx =
    error_if (ltb_ℤ (pos 1_000_000) tx.no_witness_size_bytes) Error.transaction_oversized_byte_count

abbrev pub money_supply_limit : ℕ
money_supply_limit = 21_000_000 * 100_000_000

-- What an int64_t holds. A sum beyond it is undefined: `aborts`.
abbrev pub is_int64 : ℤ → Bool
is_int64 z = ltb_ℤ z (pos (2 ^ 63)) && not (ltb_ℤ z (negsuc (2 ^ 63 - 1)))

-- The loop over the outputs with the total so far.
unfoldable pub check_values : ℤ → List Output → Result
check_values total [] = success
check_values total (output ∷ outputs) =
    let next = total +ℤ output.value in
    let rest = check_values next outputs in
    if ltb_ℤ output.value (pos 0)
    then failure Error.transaction_negative_output_value
    else if ltb_ℤ (pos money_supply_limit) output.value
    then failure Error.transaction_oversized_output_value
    else if not (is_int64 next)
    then aborts
    else if ltb_ℤ (pos money_supply_limit) next
    then failure Error.transaction_oversized_total_output_values
    else rest

unfoldable pub validate_output_values : Transaction → Result
unfolding check_values
validate_output_values tx = check_values (pos 0) tx.outputs

-- std::adjacent_find finds two equal neighbours.
unfoldable pub has_adjacent : List OutPoint → Bool
has_adjacent [] = false
has_adjacent (a ∷ []) = false
has_adjacent (a ∷ (b ∷ rest)) = out_point_eq a b || has_adjacent (b ∷ rest)

abbrev pub previous_outputs : Transaction → List OutPoint
previous_outputs tx = map (λ input. input.previous_output) tx.inputs

unfoldable pub validate_unique_inputs : Env → Transaction → Result
unfolding has_adjacent
validate_unique_inputs env tx =
    error_if (has_adjacent (env.sort_out_points (previous_outputs tx)))
      Error.transaction_duplicated_input

-- The size of the first input's script; a coinbase transaction has an input.
abbrev pub first_script_size : List Input → ℕ
first_script_size [] = 0
first_script_size (input ∷ rest) = length input.signature_script

unfoldable pub validate_coinbase_signature_size : Transaction → Result
validate_coinbase_signature_size tx =
    if is_coin_base tx
    then error_if (ltb (first_script_size tx.inputs) 2 || ltb 100 (first_script_size tx.inputs))
        Error.transaction_bad_coin_base_sig_script_size
    else success

unfoldable pub check_prevouts : List Input → Result
check_prevouts [] = success
check_prevouts (input ∷ inputs) =
    if out_point_is_null input.previous_output
    then failure Error.transaction_null_previous_output
    else check_prevouts inputs

unfoldable pub validate_inputs_prevout : Transaction → Result
unfolding check_prevouts
validate_inputs_prevout tx = if is_coin_base tx then success else check_prevouts tx.inputs

unfoldable pub validate_transaction : Env → Transaction → Result
validate_transaction env =
    validate_rules
      (rule validate_input_count
        ∷ rule validate_output_count
        ∷ rule validate_transaction_size
        ∷ rule validate_output_values
        ∷ rule (validate_unique_inputs env)
        ∷ rule validate_coinbase_signature_size
        ∷ rule validate_inputs_prevout
        ∷ [])
      0
