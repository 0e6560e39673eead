-- ===== src/Consensus/ContextRules/Final.antt =====
-- The finality of transactions.
use hornet.Common.{ℕ, ◌<◌, ◌≤◌, ◌≡◌, refl, ◌↔◌, ◌⊎◌, inl, inr, List, [], ◌∷◌, true, arith}
use hornet.Protocol.Transaction.{Input, Transaction}
use hornet.Consensus.ContextRules.{
  is_transaction_final_at, is_lock_time_a_block_height, all_sequences_final, sequence_final,
}

-- Every input has the final sequence number.
abbrev pub AllFinal : List Input → Type 0
AllFinal [] = Unit {0}
AllFinal (input ∷ inputs) = (input.sequence ≡ sequence_final) × AllFinal inputs

sequences_iff : (inputs : List Input) → (all_sequences_final inputs ≡ true) ↔ AllFinal inputs
unfolding all_sequences_final
sequences_iff [] = (λ _. tt, λ _. refl)
sequences_iff (input ∷ inputs) =
    let (sound, complete) = sequences_iff inputs in
    (
      λ h. (ground arith, sound (ground arith)),
      λ h. let rest = complete h.1 in let here = h.0 in ground arith,
    )

-- The lock time is over: it is a height below 500,000,000 and less than the block's, or it is a time
-- and less than the block's.
abbrev pub LockTimeOver : ℕ → ℕ → ℕ → Type 0
LockTimeOver lock_time height timestamp =
    ((lock_time < 500_000_000) × (lock_time < height))
    ⊎ ((500_000_000 ≤ lock_time) × (lock_time < timestamp))

final_cases :
    (tx : Transaction) (height timestamp : ℕ)
    → is_transaction_final_at tx height timestamp ≡ true
    → (tx.lock_time ≡ 0)
      ⊎ LockTimeOver tx.lock_time height timestamp
      ⊎ (all_sequences_final tx.inputs ≡ true)
unfolding is_transaction_final_at is_lock_time_a_block_height
final_cases tx height timestamp h = ground arith

final_of :
    (tx : Transaction) (height timestamp : ℕ)
    → (tx.lock_time ≡ 0)
      ⊎ LockTimeOver tx.lock_time height timestamp
      ⊎ (all_sequences_final tx.inputs ≡ true)
    → is_transaction_final_at tx height timestamp ≡ true
unfolding is_transaction_final_at is_lock_time_a_block_height
final_of tx height timestamp h = ground arith

-- A transaction is final at a height and time exactly when it has no lock time, or its lock time
-- is below 500,000,000 and below the height, or it is another one and below the time, or all its
-- inputs have the final sequence number.
is_transaction_final_at_iff :
    (tx : Transaction) (height timestamp : ℕ)
    → (is_transaction_final_at tx height timestamp ≡ true)
      ↔ ((tx.lock_time ≡ 0) ⊎ LockTimeOver tx.lock_time height timestamp ⊎ AllFinal tx.inputs)
is_transaction_final_at_iff tx height timestamp =
    let (sound, complete) = sequences_iff tx.inputs in
    (
      λ h. elim (final_cases tx height timestamp h) [
        | inl unlocked ↦ inl unlocked
        | inr (inl over) ↦ inr (inl over)
        | inr (inr all_final) ↦ inr (inr (sound all_final))
      ],
      λ h. elim h [
        | inl unlocked ↦ final_of tx height timestamp (inl unlocked)
        | inr (inl over) ↦ final_of tx height timestamp (inr (inl over))
        | inr (inr all_final) ↦ final_of tx height timestamp (inr (inr (complete all_final)))
      ],
    )
