-- ===== src/Consensus/HeaderRules.antt =====
-- src/hornetlib/consensus/rules/{context,validate_header}.h and ValidateHeader of validate.h.
pub mod Valid
use hornet.Common.{
  ℕ, ◌+◌, ◌*◌, [], ◌∷◌, none, some, Bool, true, not, ltb, leb, ◌==◌, if◌then◌else◌, bytes_eq,
}
use hornet.Common.Int.{ℤ, pos, negsuc}
use hornet.Protocol.Target.{expand, meets}
use hornet.Protocol.Header.{BlockHeader, compute_hash}
use hornet.Consensus.Types.{Error, Result, aborts, error_if}
use hornet.Consensus.Rule.{Bip, is_bip_enabled_at_height, rule, validate_rules}
use hornet.Consensus.Env.{Env}
use hornet.Consensus.Ancestry.{HeaderAncestryView, median_time_past}
use hornet.Consensus.Difficulty.{adjust_compact_target}

pub record HeaderValidationContext : Type 0 where
  pub header : BlockHeader
  pub parent : BlockHeader
  pub view : HeaderAncestryView
  -- The rules do not read this field: the clock is asked instead.
  pub current_time : ℤ
  pub height : ℕ

-- The proposal that retires a version from 0 to 3; a negative version counts as 0.
unfoldable pub version_expiry : ℕ → Bip
version_expiry version =
    if leb version 1
    then Bip.height_in_coinbase
    else (if version == 2 then Bip.strict_der_signatures else Bip.check_lock_time_verify)

unfoldable pub is_version_valid_at_height : ℤ → ℕ → Bool
unfolding version_expiry
is_version_valid_at_height (pos version) height =
    if leb 4 version then true else not (is_bip_enabled_at_height (version_expiry version) height)
is_version_valid_at_height (negsuc n) height =
    not (is_bip_enabled_at_height (version_expiry 0) height)

module _ (env : Env) where
  unfoldable pub validate_previous_hash : HeaderValidationContext → Result
  validate_previous_hash c =
      error_if (not (bytes_eq (compute_hash env.double_sha256 c.parent) c.header.prev_block))
        Error.header_parent_not_found

  unfoldable pub validate_proof_of_work : HeaderValidationContext → Result
  validate_proof_of_work c = elim (expand c.header.bits) [
    | none ↦ aborts
    | some target ↦
        error_if (not (meets (compute_hash env.double_sha256 c.header) target))
          Error.header_invalid_proof_of_work
  ]

  unfoldable pub validate_difficulty_adjustment : HeaderValidationContext → Result
  validate_difficulty_adjustment c = elim (adjust_compact_target c.height c.parent c.view) [
    | none ↦ aborts
    | some bits ↦ error_if (not (c.header.bits == bits)) Error.header_bad_difficulty_transition
  ]

  unfoldable pub validate_median_time_past : HeaderValidationContext → Result
  validate_median_time_past c = elim (median_time_past env c.view) [
    | none ↦ aborts
    | some median ↦ error_if (leb c.header.timestamp median) Error.header_bad_timestamp
  ]

  -- The durations are compared in ticks of the clock.
  unfoldable pub validate_timestamp_current : HeaderValidationContext → Result
  validate_timestamp_current c =
      error_if
        (ltb (env.now_ticks + 7200 * env.ticks_per_second)
          (c.header.timestamp * env.ticks_per_second))
        Error.header_bad_timestamp

  unfoldable pub validate_version : HeaderValidationContext → Result
  validate_version c =
      error_if (not (is_version_valid_at_height c.header.version c.height)) Error.header_bad_version

  unfoldable pub validate_header : HeaderValidationContext → Result
  validate_header =
      validate_rules
        (rule validate_previous_hash
          ∷ rule validate_proof_of_work
          ∷ rule validate_difficulty_adjustment
          ∷ rule validate_median_time_past
          ∷ rule validate_timestamp_current
          ∷ rule validate_version
          ∷ [])
        0
