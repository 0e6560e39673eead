-- ===== src/Consensus/Merkle.antt =====
-- src/hornetlib/consensus/merkle.h: the Merkle root of the transactions of a block. The nodes of one
-- layer are a list: the batch of src/hornetlib/crypto/hash.h writes node i after it has read the
-- nodes 2 i and 2 i + 1, so it reads nothing that it has overwritten.
pub mod Root
pub mod Binding
use hornet.Common.{
  ℕ, zero, suc, List, [], ◌∷◌, ◌++◌, length, Option, none, some, Bool, true, ◌&&◌, not, leb, ◌==◌,
  if◌then◌else◌, Bytes, bytes_eq,
}
use hornet.Protocol.Transaction.{Hash, Transaction, null_hash, get_hash, get_witness_hash}
use hornet.Protocol.Block.{Block}

pub record MerkleRoot : Type 0 where
  pub hash : Hash
  pub unique : Bool

-- No two siblings that are nodes of the layer itself are equal.
unfoldable pub siblings_differ : List Hash → Bool
siblings_differ [] = true
siblings_differ (a ∷ []) = true
siblings_differ (a ∷ (b ∷ rest)) = not (bytes_eq a b) && siblings_differ rest

-- Of a layer with an odd number of nodes the last is written once more.
unfoldable pub pad : List Hash → List Hash
pad [] = []
pad (a ∷ []) = a ∷ a ∷ []
pad (a ∷ (b ∷ rest)) = a ∷ b ∷ pad rest

abbrev pub first_or_null : List Hash → Hash
first_or_null [] = null_hash
first_or_null (a ∷ rest) = a

module _ (double_sha256 : Bytes → Hash) where
  -- DoubleSha256Batch over the pairs of 64 bytes.
  unfoldable pub hash_pairs : List Hash → List Hash
  hash_pairs [] = []
  hash_pairs (a ∷ []) = []
  hash_pairs (a ∷ (b ∷ rest)) = double_sha256 (a ++ b) ∷ hash_pairs rest

  -- The loop over the layers, with the rounds that are left; see Root.
  unfoldable pub reduce : ℕ → List Hash → Bool → MerkleRoot
  reduce zero nodes unique = record { hash = first_or_null nodes; unique = unique }
  reduce (suc rounds) nodes unique =
      let rest = reduce rounds (hash_pairs (pad nodes)) (unique && siblings_differ nodes) in
      if leb (length nodes) 1 then record { hash = first_or_null nodes; unique = unique } else rest

  -- MerkleReducer::Compute over the leaves.
  unfoldable pub merkle_root : List Hash → MerkleRoot
  unfolding reduce hash_pairs pad siblings_differ
  merkle_root leaves =
      if length leaves == 0
      then record { hash = null_hash; unique = true }
      else reduce (length leaves) leaves true

  -- The leaves of a block; the hash of a transaction without inputs throws.
  unfoldable pub txid_leaves : List Transaction → Option (List Hash)
  txid_leaves [] = some []
  txid_leaves (tx ∷ txs) = elim (get_hash double_sha256 tx) [
    | none ↦ none
    | some h ↦ elim (txid_leaves txs) [ none ↦ none | some hs ↦ some (h ∷ hs) ]
  ]

  unfoldable pub wtxid_leaves_after : List Transaction → Option (List Hash)
  wtxid_leaves_after [] = some []
  wtxid_leaves_after (tx ∷ txs) = elim (get_witness_hash double_sha256 tx) [
    | none ↦ none
    | some h ↦ elim (wtxid_leaves_after txs) [ none ↦ none | some hs ↦ some (h ∷ hs) ]
  ]

  -- The coinbase transaction has the null hash for its leaf.
  unfoldable pub wtxid_leaves : List Transaction → Option (List Hash)
  unfolding wtxid_leaves_after
  wtxid_leaves [] = some []
  wtxid_leaves (tx ∷ txs) = elim (wtxid_leaves_after txs) [
    | none ↦ none
    | some hs ↦ some (null_hash ∷ hs)
  ]

  unfoldable pub compute_merkle_root : Block → Option MerkleRoot
  unfolding txid_leaves merkle_root
  compute_merkle_root block = elim (txid_leaves block.transactions) [
    | none ↦ none
    | some leaves ↦ some (merkle_root leaves)
  ]

  unfoldable pub compute_witness_merkle_root : Block → Option MerkleRoot
  unfolding wtxid_leaves merkle_root
  compute_witness_merkle_root block = elim (wtxid_leaves block.transactions) [
    | none ↦ none
    | some leaves ↦ some (merkle_root leaves)
  ]
