-- ===== src/Consensus/BlockRules.antt =====
-- src/hornetlib/consensus/rules/{validate_compositions,validate_spending}.h, consensus/utxo.h, and
-- ValidateInputSpend of validate.h: the validation of a whole block.
pub mod Valid
use hornet.Common.{ℕ, [], ◌∷◌, Bytes}
use hornet.Common.Int.{ℤ}
use hornet.Protocol.Block.{Block}
use hornet.Protocol.Header.{BlockHeader}
use hornet.Protocol.Transaction.{Transaction}
use hornet.Consensus.Types.{Result, success}
use hornet.Consensus.Rule.{rule, rule_at, validate_rules}
use hornet.Consensus.Env.{Env}
use hornet.Consensus.Ancestry.{HeaderAncestryView}
use hornet.Consensus.HeaderRules.{HeaderValidationContext, validate_header}
use hornet.Consensus.StructureRules.{validate_structural}
use hornet.Consensus.ContextRules.{BlockEnvironmentContext, validate_contextual}

pub record SpendRecord : Type 0 where
  pub funding_height : ℕ
  pub funding_flags : ℕ
  pub amount : ℤ
  pub pubkey_script : Bytes
  pub tx : Transaction
  pub spend_input_index : ℕ

-- The virtual functions of the view: the enumeration calls back for each spend.
pub record UnspentOutputsView : Type 0 where
  pub query_prevouts_unspent : Block → Result
  pub enumerate_spends : Block → (SpendRecord → Result) → Result

pub record InputSpendingContext : Type 0 where
  pub spend : SpendRecord
  pub height : ℕ

-- The rule is not written yet in the source: it accepts every spend.
unfoldable pub validate_coinbase_maturity : InputSpendingContext → Result
validate_coinbase_maturity c = success

unfoldable pub validate_input_spend : SpendRecord → ℕ → Result
unfolding validate_coinbase_maturity
validate_input_spend spend height =
    validate_rules (rule validate_coinbase_maturity ∷ []) height
      (record { spend = spend; height = height })

pub record BlockSpendingContext : Type 0 where
  pub block : Block
  pub unspent : UnspentOutputsView
  pub height : ℕ

unfoldable pub validate_spending : BlockSpendingContext → Result
unfolding validate_input_spend
validate_spending c =
    c.unspent.enumerate_spends c.block (λ spend. validate_input_spend spend c.height)

pub record BlockValidationContext : Type 0 where
  pub block : Block
  pub parent : BlockHeader
  pub view : HeaderAncestryView
  pub current_time : ℤ
  pub unspent : UnspentOutputsView

abbrev pub make_header_context : BlockValidationContext → HeaderValidationContext
make_header_context c = record {
  header = c.block.header;
  parent = c.parent;
  view = c.view;
  current_time = c.current_time;
  height = c.view.view_length;
}

abbrev pub make_environment_context : BlockValidationContext → BlockEnvironmentContext
make_environment_context c = record { block = c.block; view = c.view; height = c.view.view_length }

abbrev pub make_block_spending_context : BlockValidationContext → BlockSpendingContext
make_block_spending_context c = record {
  block = c.block;
  unspent = c.unspent;
  height = c.view.view_length;
}

module _ (env : Env) where
  unfoldable pub validate_non_spending : BlockEnvironmentContext → Result
  validate_non_spending c =
      validate_rules
        (rule_at (validate_structural env) (λ (x : BlockEnvironmentContext). x.block)
          ∷ rule (validate_contextual env)
          ∷ [])
        c.height c

  unfoldable pub validate_block : BlockValidationContext → Result
  unfolding validate_non_spending
  validate_block c =
      validate_rules
        (rule_at (validate_header env) make_header_context
          ∷ rule_at validate_non_spending make_environment_context
          ∷ rule_at validate_spending make_block_spending_context
          ∷ [])
        c.view.view_length c
