-- ===== src/Consensus/Merkle/Binding.antt =====
-- Equal Merkle roots of one number of leaves come from equal leaves or from a collision.
use hornet.Common.{
  ℕ, zero, suc, ◌≤◌, ◌≡◌, refl, ap, List, [], ◌∷◌, ◌++◌, length, Bool, true, false, leb, ◌==◌,
  arith, Bytes, bytes_eq, bytes_eq→eq, bytes_eq_iff, ◌≢◌, Bool-cases, ◌⊎◌, inl, inr,
}
use mathlib.Core.List.{head-eq_of_cons-eq, tail-eq_of_cons-eq}
use hornet.Protocol.Transaction.{Hash}
use hornet.Consensus.Merkle.{pad, hash_pairs, reduce, merkle_root, first_or_null}
use hornet.Consensus.Merkle.Root.{next_layer, length-next_layer, reduce_enough}

-- Every hash of the list has 32 bytes.
abbrev pub AllHashes : List Hash → Type 0
AllHashes [] = Unit {0}
AllHashes (h ∷ hs) = (length h ≡ 32) × AllHashes hs

append_injective : (a b c d : Bytes) → length a ≡ length c → a ++ b ≡ c ++ d → (a ≡ c) × (b ≡ d)
append_injective [] b [] d h e = (refl, e)
append_injective [] b (y ∷ c) d h e = absurd (omega arith)
append_injective (x ∷ a) b [] d h e = absurd (omega arith)
append_injective (x ∷ a) b (y ∷ c) d h e =
    let (same, rest) = append_injective a b c d (omega arith) (tail-eq_of_cons-eq e) in
    let first = head-eq_of_cons-eq e in (cc, rest)

module _ (double_sha256 : Bytes → Hash) where
  -- Two different byte strings with one hash.
  abbrev pub Collision : Type 0
  Collision = (x : Bytes) × (y : Bytes) × (x ≢ y) × (double_sha256 x ≡ double_sha256 y)

  pair_injective :
      (a b c d : Hash)
      → length a ≡ length c
      → double_sha256 (a ++ b) ≡ double_sha256 (c ++ d)
      → ((a ≡ c) × (b ≡ d)) ⊎ Collision
  pair_injective a b c d h e = elim (Bool-cases (bytes_eq (a ++ b) (c ++ d))) [
    | inl same ↦ inl (append_injective a b c d h (bytes_eq→eq _ _ same))
    | inr differ ↦ inr (a ++ b, c ++ d, λ same. let equal = (bytes_eq_iff _ _).1 same in cc, e)
  ]

  layer_injective :
      (xs ys : List Hash)
      → length xs ≡ length ys
      → AllHashes xs
      → AllHashes ys
      → next_layer double_sha256 xs ≡ next_layer double_sha256 ys
      → (xs ≡ ys) ⊎ Collision
  unfolding hash_pairs pad
  layer_injective [] [] n hx hy e = inl refl
  layer_injective [] (y ∷ ys) n hx hy e = absurd (omega arith)
  layer_injective (x ∷ xs) [] n hx hy e = absurd (omega arith)
  layer_injective (a ∷ []) (c ∷ []) n hx hy e =
      elim (pair_injective a a c c (omega (arith, hx.0, hy.0)) (head-eq_of_cons-eq e)) [
        | inl same ↦ inl (ap (λ (t : Hash). t ∷ []) same.0)
        | inr collision ↦ inr collision
      ]
  layer_injective (a ∷ []) (c ∷ (d ∷ ys)) n hx hy e = absurd (omega arith)
  layer_injective (a ∷ (b ∷ xs)) (c ∷ []) n hx hy e = absurd (omega arith)
  layer_injective (a ∷ (b ∷ xs)) (c ∷ (d ∷ ys)) n hx hy e =
      elim (pair_injective a b c d (omega (arith, hx.0, hy.0)) (head-eq_of_cons-eq e)) [
        | inr collision ↦ inr collision
        | inl same ↦
            elim (layer_injective xs ys (omega arith) hx.1.1 hy.1.1 (tail-eq_of_cons-eq e)) [
              | inr collision ↦ inr collision
              | inl rest ↦ inl (let first = same.0 in let second = same.1 in cc)
            ]
      ]

  next_layer-AllHashes :
      ((x : Bytes) → length (double_sha256 x) ≡ 32)
      → (xs : List Hash) → AllHashes (next_layer double_sha256 xs)
  unfolding hash_pairs pad
  next_layer-AllHashes size [] = tt
  next_layer-AllHashes size (a ∷ []) = (size (a ++ a), tt)
  next_layer-AllHashes size (a ∷ (b ∷ xs)) = (size (a ++ b), next_layer-AllHashes size xs)

  next_layer-same_length :
      (xs ys : List Hash)
      → length xs ≡ length ys
      → length (next_layer double_sha256 xs) ≡ length (next_layer double_sha256 ys)
  unfolding hash_pairs pad
  next_layer-same_length [] [] n = refl
  next_layer-same_length [] (y ∷ ys) n = absurd (omega arith)
  next_layer-same_length (x ∷ xs) [] n = absurd (omega arith)
  next_layer-same_length (a ∷ []) (c ∷ []) n = refl
  next_layer-same_length (a ∷ []) (c ∷ (d ∷ ys)) n = absurd (omega arith)
  next_layer-same_length (a ∷ (b ∷ xs)) (c ∷ []) n = absurd (omega arith)
  next_layer-same_length (a ∷ (b ∷ xs)) (c ∷ (d ∷ ys)) n =
      ap suc (next_layer-same_length xs ys (omega arith))

  small_layers :
      (xs ys : List Hash)
      → length xs ≡ length ys
      → length xs ≤ 1
      → first_or_null xs ≡ first_or_null ys
      → xs ≡ ys
  small_layers [] [] n small e = refl
  small_layers [] (y ∷ ys) n small e = absurd (omega arith)
  small_layers (x ∷ xs) [] n small e = absurd (omega arith)
  small_layers (x ∷ []) (y ∷ []) n small e = ap (λ (t : Hash). t ∷ []) e
  small_layers (x ∷ []) (y ∷ (z ∷ ys)) n small e = absurd (omega arith)
  small_layers (x ∷ (z ∷ xs)) ys n small e = absurd (omega arith)

  module _ (size : (x : Bytes) → length (double_sha256 x) ≡ 32) where
    reduce_injective :
        (n : ℕ) (xs ys : List Hash) (u v : Bool)
        → length xs ≡ length ys
        → length xs ≤ n
        → AllHashes xs
        → AllHashes ys
        → (reduce double_sha256 n xs u).hash ≡ (reduce double_sha256 n ys v).hash
        → (xs ≡ ys) ⊎ Collision
    unfolding reduce
    reduce_injective zero xs ys u v same enough hx hy e =
        inl (small_layers xs ys same (omega arith) e)
    reduce_injective (suc n) xs ys u v same enough hx hy e = elim (Bool-cases (leb (length xs) 1)) [
      | inl single ↦
          let other : leb (length ys) 1 ≡ true = ground arith in
          inl (small_layers xs ys same (ground arith) (rw (single, other) at e))
      | inr many ↦
          let other : leb (length ys) 1 ≡ false = ground arith in
          let shorter = length-next_layer double_sha256 xs in
          elim (reduce_injective n (next_layer double_sha256 xs) (next_layer double_sha256 ys) _ _
            (next_layer-same_length xs ys same) (ground arith) (next_layer-AllHashes size xs)
            (next_layer-AllHashes size ys) (rw (many, other) at e)) [
              | inr collision ↦ inr collision
              | inl above ↦ layer_injective xs ys same hx hy above
            ]
    ]

    -- Where the double SHA-256 has 32 bytes, two lists of 32-byte leaves of one length that
    -- have the same root are equal, or two different byte strings have one double SHA-256;
    -- which of the two is computed.
    pub merkle_root-binding :
        (xs ys : List Hash)
        → length xs ≡ length ys
        → AllHashes xs
        → AllHashes ys
        → (merkle_root double_sha256 xs).hash ≡ (merkle_root double_sha256 ys).hash
        → (xs ≡ ys) ⊎ Collision
    unfolding merkle_root
    merkle_root-binding [] [] same hx hy e = inl refl
    merkle_root-binding [] (y ∷ ys) same hx hy e = absurd (omega arith)
    merkle_root-binding (x ∷ xs) [] same hx hy e = absurd (omega arith)
    merkle_root-binding (x ∷ xs) (y ∷ ys) same hx hy e =
        let left = x ∷ xs in
        let right = y ∷ ys in
        let rounds =
          reduce_enough double_sha256 (length right) (length left) right true (omega arith)
            (omega arith) in
        reduce_injective (length left) left right true true same (omega arith) hx hy
          (rw (not_empty (length xs), not_empty (length ys), rounds) at e)
      where
        not_empty : (k : ℕ) → (suc k == 0) ≡ false
        not_empty k = ground arith
