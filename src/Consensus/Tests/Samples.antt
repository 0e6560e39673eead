-- ===== src/Consensus/Tests/Samples.antt =====
-- The sample data of the tests.
use hornet.Common.{
  ℕ, ◌%◌, ◌≡◌, List, [], ◌∷◌, length, replicate, Bool, false, ltb, if◌then◌else◌, Bytes, Bool-cases,
  inl, inr,
}
use hornet.Common.Int.{pos}
use hornet.Protocol.Transaction.{
  Hash, OutPoint, Input, Output, Transaction, null_out_point, out_point_lt,
}
use hornet.Protocol.Header.{BlockHeader}
use hornet.Protocol.Block.{Block}
use hornet.Consensus.Ancestry.{HeaderAncestryView}
use hornet.Consensus.Env.{Env, Sorts, NotAbove, IsSorted}
use hornet.Consensus.TransactionRules.Unique.{lt_asym, not_lt_trans}
use mathlib.Core.List.{Perm}
use mathlib.Core.List.Perm

module _ {ℓ} {A : Type ℓ} (lt : A → A → Bool) where
  abbrev insert : A → List A → List A
  insert a [] = a ∷ []
  insert a (b ∷ l) = if lt b a then b ∷ insert a l else a ∷ b ∷ l

  abbrev pub insertion_sort : List A → List A
  insertion_sort [] = []
  insertion_sort (a ∷ l) = insert a (insertion_sort l)

insert-perm : (a : OutPoint) (l : List OutPoint) → Perm (insert out_point_lt a l) (a ∷ l)
insert-perm a [] = Perm.refl (a ∷ [])
insert-perm a (b ∷ l) = elim (Bool-cases (out_point_lt b a)) [
  | inl less ↦ rw less (Perm.trans (Perm.cons b (insert-perm a l)) (Perm.swap a b l))
  | inr other ↦ rw other (Perm.refl (a ∷ b ∷ l))
]

sort-perm : (l : List OutPoint) → Perm (insertion_sort out_point_lt l) l
sort-perm [] = Perm.refl []
sort-perm (a ∷ l) =
    Perm.trans (insert-perm a (insertion_sort out_point_lt l)) (Perm.cons a (sort-perm l))

NotAbove-insert :
    (b a : OutPoint) (l : List OutPoint)
    → out_point_lt a b ≡ false
    → NotAbove out_point_lt b l
    → NotAbove out_point_lt b (insert out_point_lt a l)
NotAbove-insert b a [] h k = (h, tt)
NotAbove-insert b a (c ∷ l) h k = elim (Bool-cases (out_point_lt c a)) [
  | inl less ↦ rw less (k.0, NotAbove-insert b a l h k.1)
  | inr other ↦ rw other (h, k)
]

NotAbove-below :
    (a b : OutPoint) (l : List OutPoint)
    → out_point_lt b a ≡ false
    → NotAbove out_point_lt b l
    → NotAbove out_point_lt a l
NotAbove-below a b [] h k = tt
NotAbove-below a b (c ∷ l) h k = (not_lt_trans a b c h k.0, NotAbove-below a b l h k.1)

insert-IsSorted :
    (a : OutPoint) (l : List OutPoint)
    → IsSorted out_point_lt l
    → IsSorted out_point_lt (insert out_point_lt a l)
insert-IsSorted a [] h = (tt, tt)
insert-IsSorted a (b ∷ l) h = elim (Bool-cases (out_point_lt b a)) [
  | inl less ↦ rw less (NotAbove-insert b a l (lt_asym b a less) h.0, insert-IsSorted a l h.1)
  | inr other ↦ rw other ((other, NotAbove-below a b l other h.0), h)
]

sort-IsSorted : (l : List OutPoint) → IsSorted out_point_lt (insertion_sort out_point_lt l)
sort-IsSorted [] = tt
sort-IsSorted (a ∷ l) = insert-IsSorted a (insertion_sort out_point_lt l) (sort-IsSorted l)

pub insertion_sort-Sorts : Sorts out_point_lt (insertion_sort out_point_lt)
insertion_sort-Sorts = record { rearranges = sort-perm; sorted = sort-IsSorted }

-- A hash that depends on the number of bytes alone.
abbrev pub length_hash : Bytes → Hash
length_hash bytes = length bytes % 256 ∷ replicate 31 0

abbrev pub sample_env : Env
sample_env = record {
  double_sha256 = length_hash;
  sort_timestamps = insertion_sort ltb;
  sort_out_points = insertion_sort out_point_lt;
  now_ticks = 2_000_000_000;
  ticks_per_second = 1;
}

abbrev pub coinbase_input : Input
coinbase_input = record {
  previous_output = null_out_point;
  signature_script = 1 ∷ 2 ∷ 3 ∷ [];
  sequence = 0xFFFF_FFFF;
}

abbrev pub reward_output : Output
reward_output = record { value = pos 5_000_000_000; pk_script = 0xac ∷ [] }

abbrev pub coinbase_transaction : Transaction
coinbase_transaction = record {
  version = 1;
  inputs = coinbase_input ∷ [];
  outputs = reward_output ∷ reward_output ∷ [];
  witnesses = [];
  lock_time = 0;
  no_witness_size_bytes = pos 100;
}

abbrev pub spend_input : ℕ → Input
spend_input index = record {
  previous_output = record { hash = replicate 32 7; index = index };
  signature_script = [];
  sequence = 0;
}

abbrev pub spend_transaction : Transaction
spend_transaction = record {
  version = 2;
  inputs = spend_input 1 ∷ spend_input 0 ∷ [];
  outputs = reward_output ∷ [];
  witnesses = [];
  lock_time = 600_000_000;
  no_witness_size_bytes = pos 150;
}

abbrev pub sample_parent : BlockHeader
sample_parent = record {
  version = pos 4;
  prev_block = replicate 32 0;
  merkle_root = replicate 32 0;
  timestamp = 1_500_000_000;
  bits = 0x1d00_ffff;
  nonce = 3;
}

abbrev pub sample_header : BlockHeader
sample_header = record {
  version = pos 4;
  prev_block = 80 ∷ replicate 31 0;
  merkle_root = 118 ∷ replicate 31 0;
  timestamp = 1_500_000_600;
  bits = 0x1d00_ffff;
  nonce = 4;
}

abbrev pub sample_view : HeaderAncestryView
sample_view = record {
  view_length = 500_001;
  timestamp_at = λ height. 1_500_000_000;
  last_n_timestamps = λ count. replicate count 1_500_000_000;
}

abbrev pub sample_block : Block
sample_block = record {
  header = sample_header;
  transactions = coinbase_transaction ∷ spend_transaction ∷ [];
  serialized_bytes = pos 400;
  witness_bytes = pos 0;
}
