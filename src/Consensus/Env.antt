-- ===== src/Consensus/Env.antt =====
-- What the rules take from outside: the double SHA-256 of src/hornetlib/crypto, std::sort at the two
-- types at which it is called, and the system clock. The sorts are described by the standard's
-- contract: a rearrangement, in ascending order.
use hornet.Common.{ℕ, ◌≡◌, List, [], ◌∷◌, Bool, false, Bytes}
use hornet.Protocol.Transaction.{Hash, OutPoint}
use mathlib.Core.List.{Perm}

pub record Env : Type 0 where
  pub double_sha256 : Bytes → Hash
  pub sort_timestamps : List ℕ → List ℕ
  pub sort_out_points : List OutPoint → List OutPoint
  -- The time since the epoch in the ticks of the clock, of which there are so many to a second.
  pub now_ticks : ℕ
  pub ticks_per_second : ℕ

module _ {ℓ} {A : Type ℓ} (lt : A → A → Bool) where
  -- No later element is less than `x`.
  abbrev pub NotAbove : A → List A → Type 0
  NotAbove x [] = Unit {0}
  NotAbove x (y ∷ ys) = (lt y x ≡ false) × NotAbove x ys

  abbrev pub IsSorted : List A → Type 0
  IsSorted [] = Unit {0}
  IsSorted (x ∷ xs) = NotAbove x xs × IsSorted xs

  pub record Sorts (sort : List A → List A) : Type ℓ where
    pub rearranges : (xs : List A) → Perm (sort xs) xs
    pub sorted : (xs : List A) → IsSorted (sort xs)
