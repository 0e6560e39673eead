-- ===== src/Consensus/TransactionRules/Values.antt =====
-- What the output values of an accepted transaction satisfy.
use hornet.Common.{◌≡◌, ◌≢◌, if_split, true, refl, ◌↔◌, List, [], ◌∷◌, arith, false}
use hornet.Common.Int.{ℤ, pos, ◌+ℤ◌, ◌≤ℤ◌, ltb_ℤ, +ℤ_assoc, +ℤ_parts}
use hornet.Protocol.Transaction.{Output, Transaction}
use hornet.Consensus.Types.{Result, success, aborts}
use hornet.Consensus.TransactionRules.{
  is_int64, check_values, validate_output_values, money_supply_limit,
}

-- The sum of the values as an unbounded integer.
abbrev pub total_value : List Output → ℤ
total_value [] = pos 0
total_value (output ∷ outputs) = output.value +ℤ total_value outputs

-- Every value is from 0 to the supply limit.
abbrev pub InMoneyRange : List Output → Type 0
InMoneyRange [] = Unit {0}
InMoneyRange (output ∷ outputs) =
    (pos 0 ≤ℤ output.value) × (output.value ≤ℤ pos money_supply_limit) × InMoneyRange outputs

total_nonneg : (outputs : List Output) → InMoneyRange outputs → pos 0 ≤ℤ total_value outputs
unfolding ◌+ℤ◌
total_nonneg [] h = omega arith
total_nonneg (output ∷ outputs) h = ground (arith, total_nonneg outputs h.2)

check_values_sound :
    (total : ℤ) (outputs : List Output)
    → total ≤ℤ pos money_supply_limit
    → check_values total outputs ≡ success
    → InMoneyRange outputs × (total +ℤ total_value outputs ≤ℤ pos money_supply_limit)
unfolding check_values ◌+ℤ◌
check_values_sound total [] h e = (tt, ground arith)
check_values_sound total (output ∷ outputs) h e =
    let next = total +ℤ output.value in
    let (small, safe, rest) = step in
    let (range, sum) = check_values_sound next outputs safe rest in
    ((small.0, small.1, range), ground arith)
  where
    step :
        ((pos 0 ≤ℤ output.value) × (output.value ≤ℤ pos money_supply_limit))
        × (total +ℤ output.value ≤ℤ pos money_supply_limit)
        × (check_values (total +ℤ output.value) outputs ≡ success)
    step = ground arith

not_lt_ℤ : (a b : ℤ) → b ≤ℤ a → ltb_ℤ a b ≡ false
not_lt_ℤ a b h = ground arith

abbrev Defined : Result → Type 0
Defined r = r ≢ aborts

non_negative : (a b : ℤ) → pos 0 ≤ℤ a → pos 0 ≤ℤ b → pos 0 ≤ℤ a +ℤ b
non_negative a b h k = omega (arith, +ℤ_parts a b)

-- A sum of two amounts that are each from 0 to the supply limit.
within_int64 :
    (total value : ℤ)
    → pos 0 ≤ℤ total
    → total ≤ℤ pos money_supply_limit
    → pos 0 ≤ℤ value
    → value ≤ℤ pos money_supply_limit
    → is_int64 (total +ℤ value) ≡ true
unfolding ◌+ℤ◌
within_int64 total value h k h' k' = ground arith

check_values_complete :
    (total : ℤ) (outputs : List Output)
    → pos 0 ≤ℤ total
    → total ≤ℤ pos money_supply_limit
    → InMoneyRange outputs
    → total +ℤ total_value outputs ≤ℤ pos money_supply_limit
    → check_values total outputs ≡ success
unfolding check_values
check_values_complete total [] from to h e = refl
check_values_complete total (output ∷ outputs) from to h e =
    let moved = +ℤ_assoc total output.value (total_value outputs) in
    let nonneg = total_nonneg outputs h.2 in
    let inside : total +ℤ output.value ≤ℤ pos money_supply_limit = omega (
      arith,
      nonneg,
      +ℤ_parts total (total_value (output ∷ outputs)),
      +ℤ_parts output.value (total_value outputs),
      +ℤ_parts total output.value,
    ) in
    rw
      (
        not_lt_ℤ output.value (pos 0) h.0,
        not_lt_ℤ (pos money_supply_limit) output.value h.1,
        within_int64 total output.value from to h.0 h.1,
        not_lt_ℤ (pos money_supply_limit) (total +ℤ output.value) inside,
      )
      (check_values_complete (total +ℤ output.value) outputs
        (non_negative total output.value from h.0) inside h.2 (rw moved e))

-- The running total stays in its 64 bits, whatever the outputs are.
check_values_defined :
    (total : ℤ) (outputs : List Output)
    → pos 0 ≤ℤ total
    → total ≤ℤ pos money_supply_limit
    → check_values total outputs ≢ aborts
unfolding check_values
check_values_defined total [] from to = λ e. cc
check_values_defined total (output ∷ outputs) from to =
    if_split Defined (ltb_ℤ output.value (pos 0)) _ _ (λ _ e. cc)
      (λ low.
        if_split Defined (ltb_ℤ (pos money_supply_limit) output.value) _ _ (λ _ e. cc)
          (λ high.
            let a : pos 0 ≤ℤ output.value = ground (arith, low) in
            let b : output.value ≤ℤ pos money_supply_limit = ground (arith, high) in
            let inside = within_int64 total output.value from to a b in
            rw inside (
              if_split Defined (ltb_ℤ (pos money_supply_limit) (total +ℤ output.value)) _ _
                (λ _ e. cc)
                (λ next.
                  check_values_defined (total +ℤ output.value) outputs
                    (non_negative total output.value from a) (ground (arith, next))))))

-- The output values of a transaction are accepted exactly when each of them, and their sum as an
-- unbounded integer, is from 0 to 21 million coins; and whatever 64-bit values they have, the running
-- total never leaves its 64 bits.
pub validate_output_values_iff :
    (tx : Transaction)
    → ((validate_output_values tx ≡ success)
        ↔ (InMoneyRange tx.outputs × (total_value tx.outputs ≤ℤ pos money_supply_limit)))
      × (validate_output_values tx ≢ aborts)
unfolding validate_output_values ◌+ℤ◌
validate_output_values_iff tx = (
  (
    λ h.
        let (range, sum) = check_values_sound (pos 0) tx.outputs (omega arith) h in
        (range, ground arith),
    λ h. check_values_complete (pos 0) tx.outputs (omega arith) (omega arith) h.0 (ground arith),
  ),
  check_values_defined (pos 0) tx.outputs (omega arith) (omega arith),
)
