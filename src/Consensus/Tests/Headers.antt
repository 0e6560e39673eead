-- ===== src/Consensus/Tests/Headers.antt =====
-- The theorems on rulesets and headers at a sample header.
use hornet.Common.{ℕ, ◌+◌, ◌*◌, ◌<◌, ◌≤◌, ◌≡◌, ◌↔◌, refl, List, [], ◌∷◌, ◌++◌, some, true, leb, ltb}
use hornet.Common.Int.{pos}
use hornet.Protocol.Target.{Target, expand, meets}
use hornet.Protocol.Header.{compute_hash}
use hornet.Consensus.Types.{Error, Result, success, failure, error_if}
use hornet.Consensus.Rule.{
  Bip, Rule, rule, rule_bip, is_enabled, activation_height, is_bip_enabled_at_height, AllSucceed,
  validate_rules, validate_rules_iff, validate_rules_first_failure,
}
use hornet.Consensus.Ancestry.{median_time_past}
use hornet.Consensus.Difficulty.{adjust_compact_target}
use hornet.Consensus.HeaderRules.{
  HeaderValidationContext, is_version_valid_at_height, validate_header,
}
use hornet.Consensus.HeaderRules.Valid.{validate_header_iff}
use hornet.Consensus.Tests.Samples.{sample_env, sample_header, sample_parent, sample_view}

abbrev below_ten : ℕ → Result
below_ten n = error_if (leb 10 n) Error.header_bad_version

abbrev not_zero : ℕ → Result
not_zero n = error_if (ltb n 1) Error.header_bad_timestamp

abbrev sample_rules : List (Rule ℕ)
sample_rules = rule not_zero ∷ rule_bip below_ten Bip.seg_wit ∷ []

validate_rules_iff_example :
    (validate_rules sample_rules 500_000 4 ≡ success) ↔ AllSucceed sample_rules 500_000 4
validate_rules_iff_example = validate_rules_iff sample_rules 500_000 4

validate_rules_first_failure_example :
    validate_rules ((rule not_zero ∷ []) ++ (rule_bip below_ten Bip.seg_wit ∷ [])) 500_000 12
    ≡ failure Error.header_bad_version
unfolding is_enabled is_bip_enabled_at_height activation_height
validate_rules_first_failure_example =
    validate_rules_first_failure (rule not_zero ∷ []) (rule_bip below_ten Bip.seg_wit) [] 500_000 12
      Error.header_bad_version (λ _. refl, tt) refl refl

abbrev header_context : HeaderValidationContext
header_context = record {
  header = sample_header;
  parent = sample_parent;
  view = sample_view;
  current_time = pos 0;
  height = 500_001;
}

validate_header_iff_example : (validate_header sample_env header_context ≡ success) ↔ (
    (compute_hash sample_env.double_sha256 header_context.parent ≡ header_context.header.prev_block)
    × ((target : Target) × (expand header_context.header.bits ≡ some target)
        × (meets (compute_hash sample_env.double_sha256 header_context.header) target ≡ true))
    × (adjust_compact_target header_context.height header_context.parent header_context.view
        ≡ some header_context.header.bits)
    × ((median : ℕ) × (median_time_past sample_env header_context.view ≡ some median)
        × (median < header_context.header.timestamp))
    × (header_context.header.timestamp * sample_env.ticks_per_second
        ≤ sample_env.now_ticks + 7200 * sample_env.ticks_per_second)
    × (is_version_valid_at_height header_context.header.version header_context.height ≡ true))
validate_header_iff_example = validate_header_iff sample_env header_context
