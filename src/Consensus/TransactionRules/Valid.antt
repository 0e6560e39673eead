-- ===== src/Consensus/TransactionRules/Valid.antt =====
-- What the rules of a single transaction accept.
use hornet.Common.{
  ◌<◌, ◌≤◌, ◌≡◌, refl, ◌↔◌, inl, inr, List, [], ◌∷◌, length, true, false, arith, Bool-cases,
}
use hornet.Common.Int.{pos, ◌≤ℤ◌}
use hornet.Protocol.Transaction.{Input, Transaction, out_point_is_null, out_point_lt, is_coin_base}
use hornet.Consensus.Types.{success}
use hornet.Consensus.Rule.{is_enabled, validate_rules_iff}
use hornet.Consensus.Env.{Env, Sorts}
use hornet.Consensus.TransactionRules.{
  validate_transaction, validate_input_count, validate_output_count, validate_transaction_size,
  validate_coinbase_signature_size, validate_inputs_prevout, check_prevouts, first_script_size,
  previous_outputs, money_supply_limit,
}
use hornet.Consensus.TransactionRules.Values.{InMoneyRange, total_value, validate_output_values_iff}
use hornet.Consensus.TransactionRules.Unique.{validate_unique_inputs_iff}
use mathlib.Core.List.{Nodup}

-- No input of the list spends the null outpoint.
abbrev pub NoNullPrevout : List Input → Type 0
NoNullPrevout [] = Unit {0}
NoNullPrevout (input ∷ inputs) =
    (out_point_is_null input.previous_output ≡ false) × NoNullPrevout inputs

prevouts_iff : (inputs : List Input) → (check_prevouts inputs ≡ success) ↔ NoNullPrevout inputs
unfolding check_prevouts
prevouts_iff [] = (λ _. tt, λ _. refl)
prevouts_iff (input ∷ inputs) =
    let (sound, complete) = prevouts_iff inputs in
    (
      λ h. (ground arith, sound (ground arith)),
      λ h. let here = h.0 in let rest = complete h.1 in ground arith,
    )

-- A coinbase transaction has a script of 2 to 100 bytes; another transaction has no null input.
abbrev pub InputsWellFormed : Transaction → Type 0
InputsWellFormed tx =
    (is_coin_base tx ≡ true
      → (2 ≤ first_script_size tx.inputs) × (first_script_size tx.inputs ≤ 100))
    × (is_coin_base tx ≡ false → NoNullPrevout tx.inputs)

coinbase_size_iff :
    (tx : Transaction)
    → (validate_coinbase_signature_size tx ≡ success) ↔ (
        is_coin_base tx ≡ true
        → (2 ≤ first_script_size tx.inputs) × (first_script_size tx.inputs ≤ 100))
unfolding validate_coinbase_signature_size
coinbase_size_iff tx = elim (Bool-cases (is_coin_base tx)) [
  | inl coinbase ↦ (λ h _. ground arith, λ h. let size = h coinbase in ground arith)
  | inr other ↦ (λ _ coinbase. cc, λ _. ground arith)
]

inputs_iff :
    (tx : Transaction)
    → (validate_inputs_prevout tx ≡ success) ↔ (is_coin_base tx ≡ false → NoNullPrevout tx.inputs)
unfolding validate_inputs_prevout
inputs_iff tx =
    let (sound, complete) = prevouts_iff tx.inputs in
    elim (Bool-cases (is_coin_base tx)) [
      | inl coinbase ↦ (λ _ other. cc, λ _. ground arith)
      | inr other ↦
          (λ h _. sound (ground arith), λ h. let rest = complete (h other) in ground arith)
    ]

-- Where std::sort sorts the outpoints, a transaction is valid exactly when it has inputs and outputs,
-- its size without witness data is at most 1,000,000 bytes, its output values and their sum are in the
-- range of the money supply, no two inputs spend one outpoint, and either it is a coinbase transaction
-- with a script of 2 to 100 bytes or none of its inputs is null.
pub validate_transaction_iff :
    (env : Env) (tx : Transaction)
    → Sorts out_point_lt env.sort_out_points
    → (validate_transaction env tx ≡ success) ↔ (
        (0 < length tx.inputs)
        × (0 < length tx.outputs)
        × (tx.no_witness_size_bytes ≤ℤ pos 1_000_000)
        × (InMoneyRange tx.outputs × (total_value tx.outputs ≤ℤ pos money_supply_limit))
        × Nodup (previous_outputs tx)
        × InputsWellFormed tx)
unfolding validate_transaction is_enabled validate_input_count validate_output_count
    validate_transaction_size
validate_transaction_iff env tx sorts =
    let (sound, complete) = validate_rules_iff _ 0 tx in
    let values = (validate_output_values_iff tx).0 in
    let spent = validate_unique_inputs_iff env tx sorts in
    let coinbase = coinbase_size_iff tx in
    let inputs = inputs_iff tx in
    (
      λ h.
          let (some_in, (some_out, (size, (value, (once, (script, (null, done))))))) = sound h in
          (
            ground (arith, some_in refl),
            ground (arith, some_out refl),
            ground (arith, size refl),
            values.0 (value refl),
            spent.0 (once refl),
            (coinbase.0 (script refl), inputs.0 (null refl)),
          ),
      λ h.
          let (some_in, some_out, size, value, once, script) = h in
          complete (
            λ _. ground (arith, some_in),
            (
              λ _. ground (arith, some_out),
              (
                λ _. ground (arith, size),
                (
                  λ _. values.1 value,
                  (λ _. spent.1 once, (λ _. coinbase.1 script.0, (λ _. inputs.1 script.1, tt))),
                ),
              ),
            ),
          ),
    )
