-- ===== src/Consensus/Tests/Arithmetic.antt =====
-- The theorems on the difficulty adjustment and on Merkle roots at concrete values.
use hornet.Common.{ℕ, ◌*◌, ◌/◌, ◌≡◌, ◌⊎◌, refl, [], ◌∷◌, ◌++◌, some, false, replicate, List, arith}
use hornet.Common.Int.{pos}
use hornet.Uint.{Words, value, IsWords}
use hornet.Protocol.Transaction.{Hash}
use hornet.Consensus.Difficulty.{clamp_duration, adjust_target}
use hornet.Consensus.Difficulty.Adjust.{limit_number, min_ℕ, adjust_target_value}
use hornet.Consensus.Merkle.{merkle_root}
use hornet.Consensus.Merkle.Root.{merkle_root-repeat}
use hornet.Consensus.Merkle.Binding.{Collision, merkle_root-binding}
use hornet.Consensus.Tests.Samples.{length_hash}

abbrev sample_target : Words
sample_target = 0 ∷ 0 ∷ 0xffff_0000 ∷ 0 ∷ []

adjust_target_value_example :
    (next : Words) × (adjust_target sample_target (clamp_duration (pos 1_000_000)) ≡ some next)
    × (value next
        ≡ min_ℕ (value sample_target * clamp_duration (pos 1_000_000) / 1_209_600) limit_number)
    × IsWords next
unfolding value
adjust_target_value_example =
    adjust_target_value sample_target (pos 1_000_000)
      (omega arith, (omega arith, (omega arith, (omega arith, tt)))) refl (omega arith)

abbrev leaf : ℕ → Hash
leaf n = n ∷ replicate 31 0

merkle_root-repeat_example :
    ((merkle_root length_hash ((leaf 1 ∷ leaf 2 ∷ []) ++ (leaf 3 ∷ leaf 3 ∷ []))).hash
      ≡ (merkle_root length_hash ((leaf 1 ∷ leaf 2 ∷ []) ++ (leaf 3 ∷ []))).hash)
    × ((merkle_root length_hash ((leaf 1 ∷ leaf 2 ∷ []) ++ (leaf 3 ∷ leaf 3 ∷ []))).unique ≡ false)
merkle_root-repeat_example =
    merkle_root-repeat length_hash (leaf 1 ∷ leaf 2 ∷ []) (leaf 3) (omega arith) refl

abbrev three_leaves : List Hash
three_leaves = leaf 1 ∷ leaf 2 ∷ leaf 3 ∷ []

merkle_root-binding_example : (three_leaves ≡ three_leaves) ⊎ Collision length_hash
merkle_root-binding_example =
    merkle_root-binding length_hash (λ bytes. refl) three_leaves three_leaves refl
      (refl, (refl, (refl, tt))) (refl, (refl, (refl, tt))) refl
