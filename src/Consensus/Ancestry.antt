-- ===== src/Consensus/Ancestry.antt =====
-- src/hornetlib/consensus/header_ancestry_view.h: the view of the ancestors of a candidate header,
-- and the median of their times.
use hornet.Common.{ℕ, ◌/◌, List, length, get_elem?, Option}
use hornet.Common.Int.{ℤ}
use hornet.Consensus.Env.{Env}

-- The virtual functions of the view.
pub record HeaderAncestryView : Type 0 where
  pub view_length : ℕ
  pub timestamp_at : ℤ → ℕ
  pub last_n_timestamps : ℕ → List ℕ

abbrev pub blocks_for_median_time : ℕ
blocks_for_median_time = 11

-- `timestamps[timestamps.size() / 2]`; `none` is the failed assertion that there is a time.
unfoldable pub median_of : (List ℕ → List ℕ) → List ℕ → Option ℕ
median_of sort timestamps = get_elem? (sort timestamps) (length (sort timestamps) / 2)

unfoldable pub median_time_past : Env → HeaderAncestryView → Option ℕ
unfolding median_of
median_time_past env view =
    median_of env.sort_timestamps (view.last_n_timestamps blocks_for_median_time)
