-- ===== src/Consensus/Merkle/Root.antt =====
-- Properties of the Merkle root of src/hornetlib/consensus/merkle.h.
use hornet.Common.{
  ℕ, zero, suc, ◌+◌, ◌*◌, ◌%◌, length-append, ◌≤◌, ◌<◌, ◌≡◌, refl, List, [], ◌∷◌, ◌++◌, length,
  Bool, false, ◌&&◌, leb, ◌==◌, arith, Bytes, bytes_eq_refl, Bool-cases, inl, inr,
}
use hornet.Protocol.Transaction.{Hash}
use hornet.Consensus.Merkle.{siblings_differ, pad, hash_pairs, reduce, merkle_root}

module _ (double_sha256 : Bytes → Hash) where
  abbrev pub next_layer : List Hash → List Hash
  next_layer nodes = hash_pairs double_sha256 (pad nodes)

  -- A layer of n nodes has n / 2 nodes above it, rounded up.
  pub length-next_layer : (nodes : List Hash) → 2 * length (next_layer nodes) ≤ length nodes + 1
  unfolding hash_pairs pad
  length-next_layer [] = omega arith
  length-next_layer (a ∷ []) = omega arith
  length-next_layer (a ∷ (b ∷ rest)) = omega (arith, length-next_layer rest)

  -- The loop over the layers ends on its own: any two counts of rounds that are at least the number of
  -- nodes give the same root.
  pub reduce_enough :
      (m n : ℕ) (nodes : List Hash) (unique : Bool)
      → length nodes ≤ m
      → length nodes ≤ n
      → reduce double_sha256 m nodes unique ≡ reduce double_sha256 n nodes unique
  unfolding reduce
  reduce_enough zero zero nodes unique h k = refl
  reduce_enough zero (suc n) [] unique h k = refl
  reduce_enough zero (suc n) (a ∷ rest) unique h k = absurd (omega arith)
  reduce_enough (suc m) zero [] unique h k = refl
  reduce_enough (suc m) zero (a ∷ rest) unique h k = absurd (omega arith)
  reduce_enough (suc m) (suc n) nodes unique h k = elim (Bool-cases (leb (length nodes) 1)) [
    | inl single ↦ rw single refl
    | inr many ↦
        let shorter = length-next_layer nodes in
        rw
          (
            many,
            reduce_enough m n (next_layer nodes) (unique && siblings_differ nodes) (ground arith)
                (ground arith),
          )
          refl
  ]

  -- Once two siblings were equal the root stays not unique.
  reduce_not_unique :
      (n : ℕ) (nodes : List Hash) → (reduce double_sha256 n nodes false).unique ≡ false
  unfolding reduce
  reduce_not_unique zero nodes = refl
  reduce_not_unique (suc n) nodes = elim (Bool-cases (leb (length nodes) 1)) [
    | inl single ↦ rw single refl
    | inr many ↦ rw many (reduce_not_unique n (next_layer nodes))
  ]

  reduce_hash :
      (n : ℕ) (nodes : List Hash) (u v : Bool)
      → (reduce double_sha256 n nodes u).hash ≡ (reduce double_sha256 n nodes v).hash
  unfolding reduce
  reduce_hash zero nodes u v = refl
  reduce_hash (suc n) nodes u v = elim (Bool-cases (leb (length nodes) 1)) [
    | inl single ↦ rw single refl
    | inr many ↦ rw many (reduce_hash n (next_layer nodes) _ _)
  ]

pad-odd :
    (front : List Hash) (a : Hash)
    → length front % 2 ≡ 0
    → pad (front ++ (a ∷ [])) ≡ front ++ (a ∷ a ∷ [])
unfolding pad
pad-odd [] a h = refl
pad-odd (x ∷ []) a h = absurd (omega arith)
pad-odd (x ∷ (y ∷ front)) a h = rw (pad-odd front a (omega arith)) refl

pad-even :
    (front : List Hash) (a : Hash)
    → length front % 2 ≡ 0
    → pad (front ++ (a ∷ a ∷ [])) ≡ front ++ (a ∷ a ∷ [])
unfolding pad
pad-even [] a h = refl
pad-even (x ∷ []) a h = absurd (omega arith)
pad-even (x ∷ (y ∷ front)) a h = rw (pad-even front a (omega arith)) refl

siblings_repeat :
    (front : List Hash) (a : Hash)
    → length front % 2 ≡ 0
    → siblings_differ (front ++ (a ∷ a ∷ [])) ≡ false
unfolding siblings_differ
siblings_repeat [] a h = rw (bytes_eq_refl a) refl
siblings_repeat (x ∷ []) a h = absurd (omega arith)
siblings_repeat (x ∷ (y ∷ front)) a h =
    let rest = siblings_repeat front a (omega arith) in ground arith

module _ (double_sha256 : Bytes → Hash) where
  -- The root of two or more nodes is the root of the layer above, in enough rounds.
  merkle_root-many :
      (n : ℕ) (nodes : List Hash)
      → 1 < length nodes
      → length nodes ≤ n
      → merkle_root double_sha256 nodes
        ≡ reduce double_sha256 n (next_layer double_sha256 nodes) (siblings_differ nodes)
  unfolding merkle_root reduce
  merkle_root-many n [] h k = absurd (omega arith)
  merkle_root-many n (x ∷ []) h k = absurd (omega arith)
  merkle_root-many n (x ∷ (y ∷ rest)) h k =
      let nodes = x ∷ y ∷ rest in
      let shorter = length-next_layer double_sha256 nodes in
      let enough =
        reduce_enough double_sha256 (suc (length rest)) n (next_layer double_sha256 nodes)
          (siblings_differ nodes) (omega arith) (omega arith) in
      rw (not_empty (length rest), not_single (length rest)) enough
    where
      not_empty : (k : ℕ) → (suc (suc k) == 0) ≡ false
      not_empty k = ground arith

      not_single : (k : ℕ) → leb (suc (suc k)) 1 ≡ false
      not_single k = ground arith

  -- Of an odd number of leaves, three or more, the last can be repeated without a change of the
  -- root (CVE-2012-2459), and the root of the longer list is reported as not unique.
  pub merkle_root-repeat :
      (front : List Hash) (a : Hash)
      → 0 < length front
      → length front % 2 ≡ 0
      → ((merkle_root double_sha256 (front ++ (a ∷ a ∷ []))).hash
          ≡ (merkle_root double_sha256 (front ++ (a ∷ []))).hash)
        × ((merkle_root double_sha256 (front ++ (a ∷ a ∷ []))).unique ≡ false)
  merkle_root-repeat front a some_front even =
      let n = length front + 2 in
      let odd_size = length-append front (a ∷ []) in
      let even_size = length-append front (a ∷ a ∷ []) in
      rw
        (
          merkle_root-many n (front ++ (a ∷ a ∷ [])) (omega arith) (omega arith),
          merkle_root-many n (front ++ (a ∷ [])) (omega arith) (omega arith),
          pad-even front a even,
          pad-odd front a even,
          siblings_repeat front a even,
        )
        (reduce_hash double_sha256 n _ _ _, reduce_not_unique double_sha256 n _)
