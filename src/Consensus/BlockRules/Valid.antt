-- ===== src/Consensus/BlockRules/Valid.antt =====
-- What the validation of a whole block accepts.
use hornet.Common.{◌≡◌, refl, ◌↔◌}
use hornet.Consensus.Types.{success}
use hornet.Consensus.Rule.{is_enabled, validate_rules_iff}
use hornet.Consensus.Env.{Env}
use hornet.Consensus.HeaderRules.{validate_header}
use hornet.Consensus.StructureRules.{validate_structural}
use hornet.Consensus.ContextRules.{validate_contextual}
use hornet.Consensus.BlockRules.{
  BlockValidationContext, make_header_context, make_environment_context,
  make_block_spending_context, validate_non_spending, validate_spending, validate_block,
}

-- A block is valid exactly when the header rules accept its header, the structural rules accept
-- it, and the contextual rules and the spending rules accept it in the contexts made from the
-- block's context.
pub validate_block_iff :
    (env : Env) (c : BlockValidationContext)
    → (validate_block env c ≡ success) ↔ (
        (validate_header env (make_header_context c) ≡ success)
        × (validate_structural env c.block ≡ success)
        × (validate_contextual env (make_environment_context c) ≡ success)
        × (validate_spending (make_block_spending_context c) ≡ success))
unfolding validate_block validate_non_spending is_enabled
validate_block_iff env c =
    let (sound, complete) = validate_rules_iff _ c.view.view_length c in
    let (split, join) =
      validate_rules_iff _ (make_environment_context c).height (make_environment_context c) in
    (
      λ h.
          let (header, (block, (spending, done))) = sound h in
          let (structural, (contextual, rest)) = split (block refl) in
          (header refl, structural refl, contextual refl, spending refl),
      λ h. complete (λ _. h.0, (λ _. join ((λ _. h.1, (λ _. h.2, tt))), (λ _. h.3, tt))),
    )
