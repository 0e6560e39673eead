-- ===== src/Consensus/HeaderRules/Valid.antt =====
-- What the header rules accept.
use hornet.Common.{
  ℕ, ◌+◌, ◌*◌, ◌<◌, ◌≤◌, ◌≡◌, refl, ◌↔◌, ◌⊎◌, if◌then◌else◌, some, true, false, not, leb, ◌==◌,
  arith, bytes_eq_iff,
}
use hornet.Common.Int.{ℤ, pos, negsuc, ltb_ℤ}
use hornet.Protocol.Target.{Target, expand, meets}
use hornet.Protocol.Header.{compute_hash}
use hornet.Consensus.Types.{Error, success, error_if, found_iff}
use hornet.Consensus.Rule.{
  is_enabled, activation_height, is_bip_enabled_at_height, validate_rules_iff,
}
use hornet.Consensus.Env.{Env}
use hornet.Consensus.Ancestry.{median_time_past}
use hornet.Consensus.Difficulty.{adjust_compact_target}
use hornet.Consensus.HeaderRules.{
  HeaderValidationContext, version_expiry, is_version_valid_at_height, validate_previous_hash,
  validate_proof_of_work, validate_difficulty_adjustment, validate_median_time_past,
  validate_timestamp_current, validate_version, validate_header,
}

-- The lowest version that a header may have at a height, as BIP 34, 66 and 65 raise it.
abbrev pub minimum_version : ℕ → ℕ
minimum_version height =
    if leb 388_381 height
    then 4
    else (if leb 363_725 height then 3 else (if leb 227_931 height then 2 else 0))

-- A version is valid at a height exactly when the height is below 227,931 or the version is at
-- least the lowest one of the height: 2, from 363,725 on 3, and from 388,381 on 4.
is_version_valid_at_height_iff :
    (version : ℤ) (height : ℕ)
    → (is_version_valid_at_height version height ≡ true)
      ↔ ((height < 227_931) ⊎ (ltb_ℤ version (pos (minimum_version height)) ≡ false))
unfolding is_version_valid_at_height version_expiry is_bip_enabled_at_height activation_height
is_version_valid_at_height_iff (pos version) height = (λ h. ground arith, λ h. ground arith)
is_version_valid_at_height_iff (negsuc n) height = (λ h. ground arith, λ h. ground arith)

module _ (env : Env) (c : HeaderValidationContext) where
  work_iff : (validate_proof_of_work env c ≡ success) ↔ (
      (target : Target) × (expand c.header.bits ≡ some target)
      × (meets (compute_hash env.double_sha256 c.header) target ≡ true))
  unfolding validate_proof_of_work
  work_iff = found_iff (expand c.header.bits) _ (λ target. (λ h. ground arith, λ h. ground arith))

  median_iff :
      (validate_median_time_past env c ≡ success)
      ↔ ((median : ℕ) × (median_time_past env c.view ≡ some median) × (median < c.header.timestamp))
  unfolding validate_median_time_past
  median_iff =
      found_iff (median_time_past env c.view) _ (λ median. (λ h. ground arith, λ h. ground arith))

  bits_iff :
      (validate_difficulty_adjustment env c ≡ success)
      ↔ (adjust_compact_target c.height c.parent c.view ≡ some c.header.bits)
  unfolding validate_difficulty_adjustment
  bits_iff =
      let (sound, complete) =
        found_iff {P = λ (bits : ℕ). c.header.bits ≡ bits}
          (adjust_compact_target c.height c.parent c.view)
          (λ bits. error_if (not (c.header.bits == bits)) Error.header_bad_difficulty_transition)
          (λ bits. (λ h. ground arith, λ h. ground arith)) in
      (λ h. let (bits, e, same) = sound h in rw same e, λ h. complete (c.header.bits, h, refl))

  -- The header rules accept a header exactly when it names its parent's hash, its own hash meets the
  -- target that its bits expand to, its bits are the ones the difficulty adjustment asks for, its time
  -- is after the median of its ancestors' times and at most two hours after the clock's, and its
  -- version is valid at its height.
  pub validate_header_iff : (validate_header env c ≡ success) ↔ (
      (compute_hash env.double_sha256 c.parent ≡ c.header.prev_block)
      × ((target : Target) × (expand c.header.bits ≡ some target)
          × (meets (compute_hash env.double_sha256 c.header) target ≡ true))
      × (adjust_compact_target c.height c.parent c.view ≡ some c.header.bits)
      × ((median : ℕ) × (median_time_past env c.view ≡ some median) × (median < c.header.timestamp))
      × (c.header.timestamp * env.ticks_per_second ≤ env.now_ticks + 7200 * env.ticks_per_second)
      × (is_version_valid_at_height c.header.version c.height ≡ true))
  unfolding validate_header is_enabled validate_previous_hash validate_timestamp_current
      validate_version
  validate_header_iff =
      let (sound, complete) = validate_rules_iff _ 0 c in
      let hash = bytes_eq_iff (compute_hash env.double_sha256 c.parent) c.header.prev_block in
      (
        λ h.
            let (parent, (work, (bits, (median, (current, (version, done)))))) = sound h in
            (
              hash.0 (ground (arith, parent refl)),
              work_iff.0 (work refl),
              bits_iff.0 (bits refl),
              median_iff.0 (median refl),
              ground (arith, current refl),
              ground (arith, version refl),
            ),
        λ h.
            let same = hash.1 h.0 in
            let soon = h.4 in
            let valid = h.5 in
            complete (
              λ _. ground arith,
              (
                λ _. work_iff.1 h.1,
                (
                  λ _. bits_iff.1 h.2,
                  (λ _. median_iff.1 h.3, (λ _. ground arith, (λ _. ground arith, tt))),
                ),
              ),
            ),
      )
