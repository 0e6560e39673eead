-- ===== src/Consensus/StructureRules/Valid.antt =====
-- What the structural rules of a block accept.
use hornet.Common.{
  ℕ, suc, ◌+◌, ◌≡◌, refl, Option, ◌↔◌, List, [], ◌∷◌, true, false, Bool-cases, some, inl, inr,
  arith,
}
use hornet.Common.Int.{pos, ◌-ℤ◌, ◌≤ℤ◌}
use hornet.Common.Int32.{InInt}
use hornet.Protocol.Transaction.{Transaction, is_coin_base}
use hornet.Protocol.Block.{Block}
use hornet.Consensus.Types.{success}
use hornet.Consensus.Env.{Env}
use hornet.Consensus.Merkle.{MerkleRoot, compute_merkle_root}
use hornet.Consensus.TransactionRules.{validate_transaction}
use hornet.Consensus.StructureRules.{check_coinbase, validate_coinbase}

-- No transaction of the list is a coinbase transaction.
abbrev pub NoCoinBase : List Transaction → Type 0
NoCoinBase [] = Unit {0}
NoCoinBase (tx ∷ txs) = (is_coin_base tx ≡ false) × NoCoinBase txs

-- The first transaction of the list, if there is one, is the only coinbase transaction.
abbrev pub CoinBaseFirst : List Transaction → Type 0
CoinBaseFirst [] = Unit {0}
CoinBaseFirst (tx ∷ txs) = (is_coin_base tx ≡ true) × NoCoinBase txs

later_iff :
    (index : ℕ) (txs : List Transaction)
    → (check_coinbase (suc index) txs ≡ success) ↔ NoCoinBase txs
unfolding check_coinbase
later_iff index [] = (λ _. tt, λ _. refl)
later_iff index (tx ∷ txs) =
    let (sound, complete) = later_iff (index + 1) txs in
    elim (Bool-cases (is_coin_base tx)) [
      | inl coinbase ↦ (λ h. ground arith, λ h. ground arith)
      | inr other ↦
          (λ h. (other, sound (ground arith)), λ h. let rest = complete h.1 in ground arith)
    ]

coinbase_first_iff : (txs : List Transaction) → (check_coinbase 0 txs ≡ success) ↔ CoinBaseFirst txs
unfolding check_coinbase
coinbase_first_iff [] = (λ _. tt, λ _. refl)
coinbase_first_iff (tx ∷ txs) =
    let (sound, complete) = later_iff 0 txs in
    elim (Bool-cases (is_coin_base tx)) [
      | inl coinbase ↦
          (λ h. (coinbase, sound (ground arith)), λ h. let rest = complete h.1 in ground arith)
      | inr other ↦ (λ h. ground arith, λ h. ground arith)
    ]

-- The coinbase rule accepts a block exactly when its first transaction is a coinbase transaction and
-- no other one is, or it has no transactions at all.
validate_coinbase_iff :
    (block : Block) → (validate_coinbase block ≡ success) ↔ CoinBaseFirst block.transactions
unfolding validate_coinbase
validate_coinbase_iff block = coinbase_first_iff block.transactions

-- The serialized size less the witness data is at most 1,000,000, where an int holds it.
abbrev pub StrippedSizeWithin : Block → Type 0
StrippedSizeWithin block =
    let size = block.serialized_bytes -ℤ block.witness_bytes in InInt size × (size ≤ℤ pos 1_000_000)

module _ (env : Env) where
  -- Every transaction of the list is valid.
  abbrev pub AllValid : List Transaction → Type 0
  AllValid [] = Unit {0}
  AllValid (tx ∷ txs) = (validate_transaction env tx ≡ success) × AllValid txs

  -- The Merkle root of the block is the one of its header, and no layer repeats a node.
  abbrev pub MerkleRootMatches : Block → Type 0
  MerkleRootMatches block =
      (root : MerkleRoot) × (compute_merkle_root env.double_sha256 block ≡ some root)
      × (root.unique ≡ true)
      × (root.hash ≡ block.header.merkle_root)
