-- ===== src/Consensus/ContextRules/Commitment.antt =====
-- What the witness commitment rule accepts.
use hornet.Common.{
  ◌≡◌, refl, sym, ap, ◌∙◌, ◌↔◌, ◌⊎◌, List, [], ◌∷◌, ◌++◌, length, drop, Option, none, some, true,
  false, not, ◌==◌, Bytes, starts_with, Bool-cases, inl, inr, arith,
}
use hornet.Protocol.Transaction.{Transaction, Output, Witness, is_witness}
use mathlib.Core.Option.{some-injective}
use mathlib.Core.Path.{subst}
use hornet.Protocol.Block.{Block}
use hornet.Consensus.Types.{Error, Result, success, error_if, found_iff}
use hornet.Consensus.Env.{Env}
use hornet.Consensus.Merkle.{MerkleRoot, compute_witness_merkle_root}
use hornet.Consensus.ContextRules.{
  BlockEnvironmentContext, check_no_witness, check_commitment, find_commitment,
  validate_witness_commitment, witness_commitment_bytes,
}

-- No transaction of the list carries witnesses.
abbrev pub NoWitness : List Transaction → Type 0
NoWitness [] = Unit {0}
NoWitness (tx ∷ txs) = (is_witness tx ≡ false) × NoWitness txs

NoWitness-iff : (txs : List Transaction) → (check_no_witness txs ≡ success) ↔ NoWitness txs
unfolding check_no_witness
NoWitness-iff [] = (λ _. tt, λ _. refl)
NoWitness-iff (tx ∷ txs) =
    let (sound, complete) = NoWitness-iff txs in
    (
      λ h. (ground arith, sound (ground arith)),
      λ h. let here = h.0 in let rest = complete h.1 in ground arith,
    )

-- The first witness is a salt of 32 bytes alone, and behind its first six bytes the script goes on
-- with the hash of the witness Merkle root and the salt.
abbrev pub Committed : Env → Block → List Witness → Bytes → Type 0
Committed env block ((salt ∷ []) ∷ witnesses) script =
    (length salt ≡ 32)
    × ((root : MerkleRoot) × (compute_witness_merkle_root env.double_sha256 block ≡ some root)
        × (starts_with (drop 6 script) (env.double_sha256 (root.hash ++ salt)) ≡ true))
Committed env block _ script = ⊥

commitment_iff :
    (env : Env) (block : Block) (witnesses : List Witness) (script : Bytes)
    → (check_commitment env block witnesses script ≡ success) ↔ Committed env block witnesses script
unfolding check_commitment
commitment_iff env block [] script = (λ h. cc, λ h. absurd h)
commitment_iff env block ([] ∷ witnesses) script = (λ h. cc, λ h. absurd h)
commitment_iff env block ((salt ∷ (more ∷ rest)) ∷ witnesses) script = (λ h. cc, λ h. absurd h)
commitment_iff env block ((salt ∷ []) ∷ witnesses) script =
    let (sound, complete) =
      found_iff
        {P = λ (root : MerkleRoot).
          starts_with (drop 6 script) (env.double_sha256 (root.hash ++ salt)) ≡ true}
        (compute_witness_merkle_root env.double_sha256 block)
        (λ root.
          error_if (not (starts_with (drop 6 script) (env.double_sha256 (root.hash ++ salt))))
            Error.structure_bad_witness_merkle)
        (λ root. (λ h. ground arith, λ h. ground arith)) in
    elim (Bool-cases (length salt == 32)) [
      | inl sized ↦
          (λ h. (ground (arith, sized), sound (rw sized at h)), λ h. rw sized (complete h.1))
      | inr other ↦
          (λ h. absurd (let e = rw other at h in cc), λ h. let size = h.0 in absurd (ground arith))
    ]

-- An output that starts with the commitment's bytes, and a list without one.
abbrev pub IsCommitment : Output → Type 0
IsCommitment output = starts_with output.pk_script witness_commitment_bytes ≡ true

abbrev pub NoCommitment : List Output → Type 0
NoCommitment [] = Unit {0}
NoCommitment (output ∷ outputs) =
    (starts_with output.pk_script witness_commitment_bytes ≡ false) × NoCommitment outputs

-- The output is a commitment of the list, and none stands behind it.
abbrev pub IsLastCommitment : List Output → Output → Type 0
IsLastCommitment outputs output =
    (before : List Output) × (after : List Output) × (outputs ≡ before ++ output ∷ after)
    × IsCommitment output
    × NoCommitment after

find_commitment-NoCommitment :
    (outputs : List Output) → NoCommitment outputs → find_commitment outputs ≡ none
unfolding find_commitment
find_commitment-NoCommitment [] h = refl
find_commitment-NoCommitment (output ∷ outputs) h =
    rw (find_commitment-NoCommitment outputs h.1, h.0) refl

find_commitment-append :
    (before after : List Output) (output : Output)
    → IsCommitment output
    → NoCommitment after
    → find_commitment (before ++ output ∷ after) ≡ some output.pk_script
unfolding find_commitment
find_commitment-append [] after output here h = rw (find_commitment-NoCommitment after h, here) refl
find_commitment-append (first ∷ before) after output here h =
    rw (find_commitment-append before after output here h) refl

find_commitment-IsLastCommitment :
    (outputs : List Output) (output : Output)
    → IsLastCommitment outputs output
    → find_commitment outputs ≡ some output.pk_script
find_commitment-IsLastCommitment outputs output h =
    ap find_commitment h.2 ∙ find_commitment-append h.0 h.1 output h.3 h.4

-- Every list has a last commitment or none.
last_commitment :
    (outputs : List Output)
    → NoCommitment outputs ⊎ ((output : Output) × IsLastCommitment outputs output)
last_commitment [] = inl tt
last_commitment (output ∷ outputs) = elim (last_commitment outputs) [
  | inr later ↦
      let last = later.1 in
      inr (later.0, (output ∷ last.0, last.1, ap (◌∷◌ output) last.2, last.3, last.4))
  | inl without ↦ elim (Bool-cases (starts_with output.pk_script witness_commitment_bytes)) [
    | inl here ↦ inr (output, ([], outputs, refl, here, without))
    | inr other ↦ inl (other, without)
  ]
]

module _ (env : Env) (c : BlockEnvironmentContext) where
  -- No output is a commitment and no transaction carries witnesses, or an output is one, none stands
  -- behind it, and it commits to the witness Merkle root and to the salt.
  abbrev pub IsWitnessCommitted : Transaction → Type 0
  IsWitnessCommitted coinbase =
      (NoCommitment coinbase.outputs × NoWitness c.block.transactions)
      ⊎ ((output : Output) × IsLastCommitment coinbase.outputs output
          × Committed env c.block coinbase.witnesses output.pk_script)

  by_outputs :
      (coinbase : Transaction)
      → (elim (find_commitment coinbase.outputs) as (λ _. Result) [
        | some script ↦ check_commitment env c.block coinbase.witnesses script
        | none ↦ check_no_witness c.block.transactions
      ]
          ≡ success)
        ↔ IsWitnessCommitted coinbase
  by_outputs coinbase = elim (last_commitment coinbase.outputs) [
    | inl without ↦
        let found = find_commitment-NoCommitment coinbase.outputs without in
        let (sound, complete) = NoWitness-iff c.block.transactions in
        (
          λ h. inl (without, sound (rw found at h)),
          λ h. elim h [
            | inl (w, none_carried) ↦ rw found (complete none_carried)
            | inr (output, last, committed) ↦
                absurd (clash found (find_commitment-IsLastCommitment coinbase.outputs output last))
          ],
        )
    | inr (output, last) ↦
        let found = find_commitment-IsLastCommitment coinbase.outputs output last in
        let (sound, complete) = commitment_iff env c.block coinbase.witnesses output.pk_script in
        (
          λ h. inr (output, last, sound (rw found at h)),
          λ h. elim h [
            | inl (w, none_carried) ↦
                absurd (clash (find_commitment-NoCommitment coinbase.outputs w) found)
            | inr (other, last', committed) ↦
                let found' = find_commitment-IsLastCommitment coinbase.outputs other last' in
                rw found (
                  complete (
                    subst (Committed env c.block coinbase.witnesses)
                      (some-injective _ _ (sym found' ∙ found)) committed))
          ],
        )
  ]
    where
      clash : {found : Option Bytes} {script : Bytes} → found ≡ none → found ≡ some script → ⊥
      clash n s = absurd (cc)

  -- The witness commitment rule accepts a block with transactions exactly when no output of its first
  -- transaction starts with the commitment's bytes and no transaction carries witnesses, or the last
  -- output that does commits to the witness Merkle root and to the salt in the first transaction's
  -- first witness.
  pub validate_witness_commitment_iff :
      (coinbase : Transaction) (rest : List Transaction)
      → c.block.transactions ≡ coinbase ∷ rest
      → (validate_witness_commitment env c ≡ success) ↔ IsWitnessCommitted coinbase
  unfolding validate_witness_commitment
  validate_witness_commitment_iff coinbase rest e =
      subst
        (λ (txs : List Transaction).
          (elim txs as (λ _. Result) [
            | [] ↦ success
            | first ∷ later ↦ elim (find_commitment first.outputs) as (λ _. Result) [
              | some script ↦ check_commitment env c.block first.witnesses script
              | none ↦ check_no_witness c.block.transactions
            ]
          ]
            ≡ success)
          ↔ IsWitnessCommitted coinbase)
        (sym e) (by_outputs coinbase)
