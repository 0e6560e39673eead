-- ===== src/Consensus/ContextRules.antt =====
-- src/hornetlib/consensus/rules/validate_block_context.h and ValidateContextual of validate.h.
pub mod Final
pub mod Valid
pub mod Commitment
use hornet.Common.{
  ℕ, List, [], ◌∷◌, ◌++◌, length, drop, Option, none, some, Bool, true, false, not, ltb, ◌==◌,
  if◌then◌else◌, Bytes, starts_with,
}
use hornet.Common.Int.{pos, ltb_ℤ}
use hornet.Protocol.Transaction.{Input, Output, Transaction, Witness, is_witness}
use hornet.Protocol.Block.{Block, coinbase_signature, get_weight_units}
use hornet.Script.Writer.{push_int}
use hornet.Consensus.Types.{Error, Result, success, failure, aborts, error_if}
use hornet.Consensus.Rule.{Bip, is_bip_enabled_at_height, rule, rule_bip, validate_rules}
use hornet.Consensus.Env.{Env}
use hornet.Consensus.Ancestry.{HeaderAncestryView, median_time_past}
use hornet.Consensus.Merkle.{compute_witness_merkle_root}

pub record BlockEnvironmentContext : Type 0 where
  pub block : Block
  pub view : HeaderAncestryView
  pub height : ℕ

unfoldable pub is_lock_time_a_block_height : ℕ → Bool
is_lock_time_a_block_height locktime = ltb locktime 500_000_000

abbrev pub sequence_final : ℕ
sequence_final = 0xFFFF_FFFF

unfoldable pub all_sequences_final : List Input → Bool
all_sequences_final [] = true
all_sequences_final (input ∷ inputs) =
    if input.sequence == sequence_final then all_sequences_final inputs else false

-- The height is an int and the timestamp an int64_t, neither negative here.
unfoldable pub is_transaction_final_at : Transaction → ℕ → ℕ → Bool
unfolding is_lock_time_a_block_height all_sequences_final
is_transaction_final_at tx height timestamp =
    if tx.lock_time == 0
    then true
    else (let compare_time =
          if is_lock_time_a_block_height tx.lock_time then height else timestamp in
        if ltb tx.lock_time compare_time then true else all_sequences_final tx.inputs)

unfoldable pub check_final : ℕ → ℕ → List Transaction → Result
check_final height timestamp [] = success
check_final height timestamp (tx ∷ txs) =
    if is_transaction_final_at tx height timestamp
    then check_final height timestamp txs
    else failure Error.structure_non_final_transaction

unfoldable pub validate_coinbase_height : BlockEnvironmentContext → Result
validate_coinbase_height c = elim (coinbase_signature c.block) [
  | none ↦ aborts
  | some script ↦
      error_if (not (starts_with script (push_int [] (pos c.height))))
        Error.structure_bad_coin_base_height
]

abbrev pub witness_commitment_bytes : Bytes
witness_commitment_bytes = 0x6a ∷ 0x24 ∷ 0xaa ∷ 0x21 ∷ 0xa9 ∷ 0xed ∷ []

-- The script of the last output that starts with the commitment's bytes.
unfoldable pub find_commitment : List Output → Option Bytes
find_commitment [] = none
find_commitment (output ∷ outputs) = elim (find_commitment outputs) [
  | some script ↦ some script
  | none ↦
      if starts_with output.pk_script witness_commitment_bytes then some output.pk_script else none
]

unfoldable pub check_no_witness : List Transaction → Result
check_no_witness [] = success
check_no_witness (tx ∷ txs) =
    if is_witness tx then failure Error.structure_unexpected_witness else check_no_witness txs

unfoldable pub validate_block_weight : BlockEnvironmentContext → Result
validate_block_weight c = elim (get_weight_units c.block) [
  | none ↦ aborts
  | some weight ↦ error_if (ltb_ℤ (pos 4_000_000) weight) Error.structure_bad_block_weight
]

module _ (env : Env) where
  unfoldable pub validate_transaction_finality : BlockEnvironmentContext → Result
  unfolding check_final
  validate_transaction_finality c =
      if is_bip_enabled_at_height Bip.lock_time_median_past c.height
      then elim (median_time_past env c.view) [
        | none ↦ aborts
        | some median ↦ check_final c.height median c.block.transactions
      ]
      else check_final c.height c.block.header.timestamp c.block.transactions

  -- With a commitment in `script`. A coinbase transaction that has no witnesses is indexed out of
  -- range by `coinbase.Witness(0)`.
  unfoldable pub check_commitment : Block → List Witness → Bytes → Result
  check_commitment block [] script = aborts
  check_commitment block ((salt ∷ []) ∷ witnesses) script =
      if length salt == 32
      then elim (compute_witness_merkle_root env.double_sha256 block) [
        | none ↦ aborts
        | some root ↦
            error_if (not (starts_with (drop 6 script) (env.double_sha256 (root.hash ++ salt))))
              Error.structure_bad_witness_merkle
      ]
      else failure Error.structure_bad_witness_nonce
  check_commitment block (other ∷ witnesses) script = failure Error.structure_bad_witness_nonce

  unfoldable pub validate_witness_commitment : BlockEnvironmentContext → Result
  unfolding check_commitment check_no_witness find_commitment
  validate_witness_commitment c = elim c.block.transactions [
    | [] ↦ success
    | coinbase ∷ rest ↦ elim (find_commitment coinbase.outputs) [
      | some script ↦ check_commitment c.block coinbase.witnesses script
      | none ↦ check_no_witness c.block.transactions
    ]
  ]

  unfoldable pub validate_contextual : BlockEnvironmentContext → Result
  validate_contextual c =
      validate_rules
        (rule validate_transaction_finality
          ∷ rule_bip validate_coinbase_height Bip.height_in_coinbase
          ∷ rule_bip validate_witness_commitment Bip.seg_wit
          ∷ rule validate_block_weight
          ∷ [])
        c.height c
