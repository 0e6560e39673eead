-- ===== src/Consensus/Difficulty.antt =====
-- src/hornetlib/consensus/difficulty_adjustment.h: the next compact target. A `none` is an exception
-- of Target::Value, or what CompactTarget leaves undefined or asserts.
pub mod Adjust
use hornet.Common.{ℕ, ◌*◌, ◌/◌, ◌%◌, Option, some, Bool, ◌==◌, if◌then◌else◌, [], ◌∷◌}
use hornet.Common.Int.{ℤ, pos, sub_ℕ, ltb_ℤ, pos_part}
use hornet.Protocol.Target.{Target, expand, compress}
use hornet.Protocol.Header.{BlockHeader}
use hornet.Consensus.Ancestry.{HeaderAncestryView}
use hornet.Uint.{Words, mul_word, div_word, lt, ◌>>=◌}

abbrev pub blocks_per_difficulty_period : ℕ
blocks_per_difficulty_period = 2016

-- Two weeks in seconds.
abbrev pub difficulty_period_duration : ℕ
difficulty_period_duration = 1_209_600

-- kPoWTargetLimit has the digits of kMaximumTarget.
abbrev pub pow_target_limit : Words
pow_target_limit =
    0xffff_ffff_ffff_ffff ∷ 0xffff_ffff_ffff_ffff ∷ 0xffff_ffff_ffff_ffff ∷ 0xffff_ffff ∷ []

unfoldable pub is_difficulty_transition : ℕ → Bool
is_difficulty_transition height = height % blocks_per_difficulty_period == 0

-- std::clamp of an int64_t to a quarter and four times the period, as the multiplication takes it.
unfoldable pub clamp_duration : ℤ → ℕ
clamp_duration d =
    if ltb_ℤ d (pos (difficulty_period_duration / 4))
    then difficulty_period_duration / 4
    else if ltb_ℤ (pos (difficulty_period_duration * 4)) d
    then difficulty_period_duration * 4
    else pos_part d

-- std::min of two targets.
abbrev pub min_words : Words → Words → Words
min_words a b = if lt b a then b else a

unfoldable pub adjust_target : Words → ℕ → Option Words
adjust_target last_target duration =
    div_word (mul_word last_target duration) difficulty_period_duration >>= λ next_target.
    some (min_words next_target pow_target_limit)

-- Target::Value throws where there is no value.
unfoldable pub target_value : Target → Option Words
target_value target = target

unfoldable pub compute_compact_target : ℕ → ℕ → ℕ → ℕ → Option ℕ
compute_compact_target height prev_bits period_start_time period_end_time =
    if is_difficulty_transition height
    then (do
      last ← expand prev_bits
      last_target ← target_value last
      next ← adjust_target last_target (clamp_duration (sub_ℕ period_end_time period_start_time))
      compress (some next))
    else some prev_bits

unfoldable pub adjust_compact_target : ℕ → BlockHeader → HeaderAncestryView → Option ℕ
adjust_compact_target height parent view =
    if is_difficulty_transition height
    then compute_compact_target height parent.bits
        (view.timestamp_at (sub_ℕ height blocks_per_difficulty_period)) parent.timestamp
    else some parent.bits
