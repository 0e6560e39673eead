-- ===== src/Consensus/Tests/Blocks.antt =====
-- The theorems on blocks at a sample block.
use hornet.Common.{refl, ◌∷◌, ℕ, some, true, [], Bytes, starts_with, ◌≤◌, ◌≡◌, ◌↔◌}
use hornet.Common.Int.{pos}
use hornet.Protocol.Block.{coinbase_signature}
use hornet.Consensus.Types.{success}
use hornet.Consensus.StructureRules.{validate_structural}
use hornet.Consensus.HeaderRules.{validate_header}
use hornet.Consensus.ContextRules.{
  BlockEnvironmentContext, validate_contextual, validate_witness_commitment,
}
use hornet.Consensus.ContextRules.Commitment.{IsWitnessCommitted, validate_witness_commitment_iff}
use hornet.Consensus.ContextRules.Valid.{
  AllFinalAt, WeightWithin, lock_time_cutoff, validate_contextual_iff,
}
use hornet.Script.Writer.{push_int}
use hornet.Consensus.BlockRules.{
  UnspentOutputsView, BlockValidationContext, make_header_context, make_environment_context,
  make_block_spending_context, validate_spending, validate_block,
}
use hornet.Consensus.BlockRules.Valid.{validate_block_iff}
use hornet.Consensus.Tests.Samples.{
  coinbase_transaction, spend_transaction, sample_env, sample_block, sample_parent, sample_view,
}

abbrev environment_context : BlockEnvironmentContext
environment_context = record { block = sample_block; view = sample_view; height = 500_001 }

validate_contextual_iff_example : (validate_contextual sample_env environment_context ≡ success) ↔ (
    ((cutoff : ℕ) × (lock_time_cutoff sample_env environment_context ≡ some cutoff)
      × AllFinalAt environment_context.height cutoff environment_context.block.transactions)
    × (227_931 ≤ environment_context.height
        → (script : Bytes) × (coinbase_signature environment_context.block ≡ some script)
          × (starts_with script (push_int [] (pos environment_context.height)) ≡ true))
    × (481_824 ≤ environment_context.height
        → validate_witness_commitment sample_env environment_context ≡ success)
    × WeightWithin environment_context.block)
validate_contextual_iff_example = validate_contextual_iff sample_env environment_context

validate_witness_commitment_iff_example :
    (validate_witness_commitment sample_env environment_context ≡ success)
    ↔ IsWitnessCommitted sample_env environment_context coinbase_transaction
validate_witness_commitment_iff_example =
    validate_witness_commitment_iff sample_env environment_context coinbase_transaction
      (spend_transaction ∷ []) refl

abbrev nothing_spent : UnspentOutputsView
nothing_spent = record {
  query_prevouts_unspent = λ block. success;
  enumerate_spends = λ block on_spend. success;
}

abbrev block_context : BlockValidationContext
block_context = record {
  block = sample_block;
  parent = sample_parent;
  view = sample_view;
  current_time = pos 0;
  unspent = nothing_spent;
}

validate_block_iff_example : (validate_block sample_env block_context ≡ success) ↔ (
    (validate_header sample_env (make_header_context block_context) ≡ success)
    × (validate_structural sample_env block_context.block ≡ success)
    × (validate_contextual sample_env (make_environment_context block_context) ≡ success)
    × (validate_spending (make_block_spending_context block_context) ≡ success))
validate_block_iff_example = validate_block_iff sample_env block_context
