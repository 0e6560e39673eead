-- ===== src/Consensus/Types.antt =====
-- src/hornetlib/consensus/types.h: the errors of validation, and results.
use mathlib.Core.Option.{some-injective}
use mathlib.Core.Path.{subst}
use hornet.Common.{sym, Option, none, some, ◌≡◌, ◌↔◌, refl, Bool, true, false}

pub data Error : Type 0 where
  header_parent_not_found header_invalid_proof_of_work header_bad_timestamp
        header_bad_difficulty_transition header_bad_version :
      Error
  structure_bad_size structure_bad_transaction_count structure_bad_coin_base
        structure_bad_coin_base_height structure_bad_merkle_root structure_bad_transaction
        structure_bad_sig_op_count structure_non_final_transaction structure_bad_witness_nonce
        structure_bad_witness_merkle structure_unexpected_witness structure_bad_block_weight :
      Error
  transaction_empty_inputs transaction_empty_outputs transaction_oversized_byte_count
        transaction_negative_output_value transaction_oversized_output_value
        transaction_oversized_total_output_values transaction_duplicated_input
        transaction_null_previous_output transaction_bad_coin_base_sig_script_size
        transaction_not_unspent :
      Error

-- A result is success or an error. `aborts` is no result of the source: it is an exception that
-- leaves the validation, or an access or a shift that C++ leaves undefined.
pub data Result : Type 0 where
  success : Result
  failure : Error → Result
  aborts : Result

-- AndThen runs the function in the success state only; what aborts runs nothing more.
unfoldable pub and_then : Result → Result → Result
and_then success next = next
and_then (failure e) next = failure e
and_then aborts next = aborts

unfoldable pub is_success : Result → Bool
is_success success = true
is_success (failure e) = false
is_success aborts = false

-- `if (broken) return error; return {};`
abbrev pub error_if : Bool → Error → Result
error_if true e = failure e
error_if false e = success

pub and_then_iff : (x y : Result) → (and_then x y ≡ success) ↔ ((x ≡ success) × (y ≡ success))
unfolding and_then
and_then_iff success y = (λ h. (refl, h), λ h. h.1)
and_then_iff (failure e) y = (λ h. cc, λ h. cc (h.0))
and_then_iff aborts y = (λ h. cc, λ h. cc (h.0))

-- A rule of one test accepts exactly when the test fails.
pub error_if_iff : (b : Bool) (e : Error) → (error_if b e ≡ success) ↔ (b ≡ false)
error_if_iff true e = (λ h. cc, λ h. cc)
error_if_iff false e = (λ _. refl, λ _. refl)

-- A rule that asks for a value first, and aborts where there is none, accepts exactly when there is a
-- value and the rule accepts it.
pub found_iff {ℓ} :
    {A : Type ℓ} {P : A → Type 0} (o : Option A) (then_rule : A → Result)
    → ((a : A) → (then_rule a ≡ success) ↔ P a)
    → (elim o [ none ↦ aborts | some a ↦ then_rule a ] ≡ success) ↔ ((a : A) × (o ≡ some a) × P a)
found_iff none then_rule h = (λ e. cc, λ e. cc)
found_iff {P} (some a) then_rule h =
    (λ e. (a, refl, (h a).0 e), λ e. (h a).1 (subst P (sym (some-injective _ _ e.1)) e.2))
