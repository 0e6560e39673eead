-- ===== src/Uint/Order.antt =====
-- The comparisons of src/hornetlib/util/big_uint.h.
use hornet.Common.{
  ℕ, ◌≡◌, refl, ap, [], ◌∷◌, ◌++◌, length, arith, ltb, if◌then◌else◌, bytes_lt, true, false,
  length-append,
}
use hornet.Uint.{Words, value, IsWords, lt}
use mathlib.Core.List.{reverse, reverse-cons}

-- The last element decides only where the strings in front are equal.
bytes_lt-snoc :
    (ps qs : Words) (x y : ℕ)
    → length ps ≡ length qs
    → bytes_lt (ps ++ (x ∷ [])) (qs ++ (y ∷ []))
      ≡ (if bytes_lt ps qs then true else (if bytes_lt qs ps then false else ltb x y))
unfolding bytes_lt
bytes_lt-snoc [] [] x y e = ground arith
bytes_lt-snoc [] (b ∷ qs) x y e = absurd (omega arith)
bytes_lt-snoc (a ∷ ps) [] x y e = absurd (omega arith)
bytes_lt-snoc (a ∷ ps) (b ∷ qs) x y e = ground (arith, bytes_lt-snoc ps qs x y)

pub length-reverse : (xs : Words) → length (reverse xs) ≡ length xs
length-reverse [] = refl
length-reverse (x ∷ xs) =
    omega
      (arith, ap length (reverse-cons x xs), length-append (reverse xs) (x ∷ []), length-reverse xs)

lt-cons :
    (x y : ℕ) (xs ys : Words)
    → length xs ≡ length ys
    → lt (x ∷ xs) (y ∷ ys) ≡ (if lt xs ys then true else (if lt ys xs then false else ltb x y))
unfolding lt
lt-cons x y xs ys e =
    rw (reverse-cons x xs, reverse-cons y ys)
      (bytes_lt-snoc (reverse xs) (reverse ys) x y
        (omega (arith, length-reverse xs, length-reverse ys)))

both_orders :
    (xs ys : Words)
    → IsWords xs
    → IsWords ys
    → length xs ≡ length ys
    → (lt xs ys ≡ ltb (value xs) (value ys)) × (lt ys xs ≡ ltb (value ys) (value xs))
unfolding value
both_orders [] [] hx hy e = unfold lt bytes_lt in (ground arith, ground arith)
both_orders [] (y ∷ ys) hx hy e = absurd (omega arith)
both_orders (x ∷ xs) [] hx hy e = absurd (omega arith)
both_orders (x ∷ xs) (y ∷ ys) hx hy e =
    let (below, above) = both_orders xs ys hx.1 hy.1 (omega arith) in
    (
      rw (lt-cons x y xs ys (omega arith), below, above) (ground arith),
      rw (lt-cons y x ys xs (omega arith), below, above) (ground arith),
    )

-- The comparison of two integers of one width whose words are in range, from the highest word
-- down, is the comparison of their numbers.
pub lt-value :
    (xs ys : Words)
    → IsWords xs
    → IsWords ys
    → length xs ≡ length ys
    → lt xs ys ≡ ltb (value xs) (value ys)
lt-value xs ys hx hy e = (both_orders xs ys hx hy e).0
