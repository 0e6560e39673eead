-- ===== src/Consensus/ContextRules/Valid.antt =====
-- What the contextual rules of a block accept.
use hornet.Common.{
  ℕ, ◌≤◌, ◌≡◌, refl, ◌↔◌, List, [], ◌∷◌, Option, some, true, false, leb, if◌then◌else◌, Bytes,
  starts_with, Bool-cases, inl, inr, arith,
}
use hornet.Common.Int.{ℤ, pos, ◌-ℤ◌, ◌*ℤ◌, ◌≤ℤ◌, ltb_ℤ}
use hornet.Common.Int32.{InInt, int_result, int_result_iff, then_result_iff}
use hornet.Protocol.Transaction.{Transaction}
use hornet.Protocol.Block.{Block, coinbase_signature, get_weight_units}
use hornet.Script.Writer.{push_int}
use hornet.Consensus.Types.{success, error_if_iff, found_iff}
use hornet.Consensus.Rule.{
  activation_height, is_enabled, is_bip_enabled_at_height, validate_rules_iff,
}
use hornet.Consensus.Env.{Env}
use hornet.Consensus.Ancestry.{median_time_past}
use hornet.Consensus.ContextRules.{
  BlockEnvironmentContext, is_transaction_final_at, check_final, validate_transaction_finality,
  validate_coinbase_height, validate_witness_commitment, validate_block_weight, validate_contextual,
}

-- Every transaction of the list is final at the height and the time.
abbrev pub AllFinalAt : ℕ → ℕ → List Transaction → Type 0
AllFinalAt height timestamp [] = Unit {0}
AllFinalAt height timestamp (tx ∷ txs) =
    (is_transaction_final_at tx height timestamp ≡ true) × AllFinalAt height timestamp txs

check_final_iff :
    (height timestamp : ℕ) (txs : List Transaction)
    → (check_final height timestamp txs ≡ success) ↔ AllFinalAt height timestamp txs
unfolding check_final
check_final_iff height timestamp [] = (λ _. tt, λ _. refl)
check_final_iff height timestamp (tx ∷ txs) =
    let (sound, complete) = check_final_iff height timestamp txs in
    (
      λ h. (ground arith, sound (ground arith)),
      λ h. let here = h.0 in let rest = complete h.1 in ground arith,
    )

-- The time that lock times are compared with: the block's own, and from BIP 113 on the median of the
-- ancestors' times.
abbrev pub lock_time_cutoff : Env → BlockEnvironmentContext → Option ℕ
lock_time_cutoff env c =
    if leb 419_328 c.height then median_time_past env c.view else some c.block.header.timestamp

-- Four times the serialized size less three times the witness data is at most 4,000,000, where an int
-- holds both products and the difference.
abbrev pub WeightWithin : Block → Type 0
WeightWithin block =
    let total = pos 4 *ℤ block.serialized_bytes in
    let discount = pos 3 *ℤ block.witness_bytes in
    InInt total × InInt discount × InInt (total -ℤ discount) × (total -ℤ discount ≤ℤ pos 4_000_000)

not_over : (weight : ℤ) → (ltb_ℤ (pos 4_000_000) weight ≡ false) ↔ (weight ≤ℤ pos 4_000_000)
not_over weight = (λ h. ground arith, λ h. ground arith)

weight_units_iff :
    (block : Block)
    → ((weight : ℤ) × (get_weight_units block ≡ some weight) × (weight ≤ℤ pos 4_000_000))
      ↔ WeightWithin block
unfolding get_weight_units
weight_units_iff block =
    let total = pos 4 *ℤ block.serialized_bytes in
    let discount = pos 3 *ℤ block.witness_bytes in
    let (sound, complete) = then_result_iff total _ (
      then_result_iff discount (λ d. int_result (total -ℤ d))
        (int_result_iff {P = λ weight. weight ≤ℤ pos 4_000_000} (total -ℤ discount))) in
    (
      λ h. let (first, (second, (result, within))) = sound h in (first, second, result, within),
      λ h. complete (h.0, (h.1, (h.2, h.3))),
    )

weight_iff :
    (c : BlockEnvironmentContext) → (validate_block_weight c ≡ success) ↔ WeightWithin c.block
unfolding validate_block_weight
weight_iff c =
    let (sound, complete) = found_iff (get_weight_units c.block) _ (λ weight. (
      λ h. (not_over weight).0 ((error_if_iff _ _).0 h),
      λ h. (error_if_iff _ _).1 ((not_over weight).1 h),
    )) in
    let (counted, summed) = weight_units_iff c.block in
    (λ h. counted (sound h), λ h. complete (summed h))

module _ (env : Env) (c : BlockEnvironmentContext) where
  finality_iff : (validate_transaction_finality env c ≡ success) ↔ (
      (cutoff : ℕ) × (lock_time_cutoff env c ≡ some cutoff)
      × AllFinalAt c.height cutoff c.block.transactions)
  unfolding validate_transaction_finality is_bip_enabled_at_height activation_height
  finality_iff = elim (Bool-cases (leb 419_328 c.height)) [
    | inl on ↦ rw on (
        found_iff (median_time_past env c.view) _
          (λ median. check_final_iff c.height median c.block.transactions))
    | inr off ↦ rw off (
        found_iff (some c.block.header.timestamp) _
          (λ time. check_final_iff c.height time c.block.transactions))
  ]

  height_iff : (validate_coinbase_height c ≡ success) ↔ (
      (script : Bytes) × (coinbase_signature c.block ≡ some script)
      × (starts_with script (push_int [] (pos c.height)) ≡ true))
  unfolding validate_coinbase_height
  height_iff =
      found_iff (coinbase_signature c.block) _ (λ script. (λ h. ground arith, λ h. ground arith))

  -- The contextual rules accept a block exactly when the cutoff time exists and all
  -- transactions are final at the block's height and that time, from the height 227,931 on the
  -- coinbase script starts with the push of the height, from the height 481,824 on the witness
  -- commitment rule accepts the block, and its weight, four times its serialized size less three
  -- times its witness data, is at most 4,000,000, where an int holds both products and the result.
  pub validate_contextual_iff : (validate_contextual env c ≡ success) ↔ (
      ((cutoff : ℕ) × (lock_time_cutoff env c ≡ some cutoff)
        × AllFinalAt c.height cutoff c.block.transactions)
      × (227_931 ≤ c.height
          → (script : Bytes) × (coinbase_signature c.block ≡ some script)
            × (starts_with script (push_int [] (pos c.height)) ≡ true))
      × (481_824 ≤ c.height → validate_witness_commitment env c ≡ success)
      × WeightWithin c.block)
  unfolding validate_contextual is_enabled is_bip_enabled_at_height activation_height
  validate_contextual_iff =
      let (sound, complete) = validate_rules_iff _ c.height c in
      (
        λ h.
            let (final, (height, (witness, (weight, done)))) = sound h in
            (
              finality_iff.0 (final refl),
              λ on. height_iff.0 (height (ground (arith, on))),
              λ on. witness (ground (arith, on)),
              (weight_iff c).0 (weight refl),
            ),
        λ h. complete (
          λ _. finality_iff.1 h.0,
          (
            λ on. height_iff.1 (h.1 (ground (arith, on))),
            (λ on. h.2 (ground (arith, on)), (λ _. (weight_iff c).1 h.3, tt)),
          ),
        ),
      )
