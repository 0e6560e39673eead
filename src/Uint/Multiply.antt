-- ===== src/Uint/Multiply.antt =====
-- Multiplication by a word in src/hornetlib/util/big_uint.h.
use hornet.Common.{
  ℕ, suc, ◌+◌, ◌-◌, ◌*◌, ◌/◌, ◌%◌, ◌^◌, ◌<◌, ◌≤◌, ◌≡◌, refl, ap, ◌∙◌, [], ◌∷◌, length, arith, ltb,
  inl, inr, Bool-cases, ==_iff, ◌==◌,
}
use hornet.Common.Bits.{bit_or_disjoint}
use hornet.Uint.{
  Words, word_mod, half_mod, value, capacity, IsWords, bit, zeros, add_word, mul_wide, mul_loop,
  mul_word,
}
use hornet.Uint.Add.{value-lt-capacity, mod_of_sum, capacity-eq, length-add_word, add_word_value}
use Prim.Native.Nat.{bit_or}

half_product : (x y : ℕ) → x < half_mod → y < half_mod → x * y ≤ 0xffff_fffe_0000_0001
half_product x y hx hy = grind arith

-- The four partial products make up the whole.
product_split :
    (a b : ℕ)
    → a * b
      ≡ a % half_mod * (b % half_mod)
        + half_mod * (a % half_mod * (b / half_mod))
        + half_mod * (a / half_mod * (b % half_mod))
        + half_mod * half_mod * (a / half_mod * (b / half_mod))
product_split a b =
    ap (λ (t : ℕ). t * b) halves_a
    ∙ ap (λ (t : ℕ). (a % half_mod + half_mod * (a / half_mod)) * t) halves_b
    ∙ expand (a % half_mod) (a / half_mod) (b % half_mod) (b / half_mod)
  where
    halves_a : a ≡ a % half_mod + half_mod * (a / half_mod)
    halves_a = omega arith

    halves_b : b ≡ b % half_mod + half_mod * (b / half_mod)
    halves_b = omega arith

    expand :
        (p q r s : ℕ)
        → (p + half_mod * q) * (r + half_mod * s)
          ≡ p * r + half_mod * (p * s) + half_mod * (q * r) + half_mod * half_mod * (q * s)
    expand p q r s = omega arith

join_halves :
    (high low : ℕ)
    → bit_or (high * half_mod % word_mod) (low % half_mod)
      ≡ high * half_mod % word_mod + low % half_mod
join_halves high low =
    rw (cleared) (bit_or_disjoint 32 (high % half_mod) (low % half_mod) (omega arith))
  where
    cleared : high * half_mod % word_mod ≡ high % half_mod * 2 ^ 32
    cleared = omega arith

-- The sums of the four products by columns, as the code makes them.
columns :
    (p0 p1 p2 p3 t : ℕ)
    → p0 ≤ 0xffff_fffe_0000_0001
    → p1 ≤ 0xffff_fffe_0000_0001
    → p2 ≤ 0xffff_fffe_0000_0001
    → p3 ≤ 0xffff_fffe_0000_0001
    → t ≡ p0 + half_mod * p1 + half_mod * p2 + half_mod * half_mod * p3
    → t ≤ (word_mod - 1) * (word_mod - 1)
    → let mid =
        (p0 % word_mod / half_mod + p1 % word_mod % half_mod + p2 % word_mod % half_mod)
        % word_mod in
      let hi =
        (p3 % word_mod + p1 % word_mod / half_mod + p2 % word_mod / half_mod + mid / half_mod)
        % word_mod in
      let lo = bit_or (mid * half_mod % word_mod) (p0 % word_mod % half_mod) in
      (lo + word_mod * hi ≡ t) × (lo < word_mod) × (hi + 1 < word_mod)
columns p0 p1 p2 p3 t h0 h1 h2 h3 e h =
    let mid =
      (p0 % word_mod / half_mod + p1 % word_mod % half_mod + p2 % word_mod % half_mod) % word_mod in
    omega (arith, join_halves mid (p0 % word_mod))

word_product : (a b : ℕ) → a < word_mod → b < word_mod → a * b ≤ (word_mod - 1) * (word_mod - 1)
word_product a b ha hb = grind arith

-- The two words that MulWide returns for two words make up the product; the low one is in range,
-- and the high one leaves room for a carry.
mul_wide_lem :
    (a b : ℕ)
    → a < word_mod
    → b < word_mod
    → ((mul_wide a b).0 + word_mod * (mul_wide a b).1 ≡ a * b)
      × ((mul_wide a b).0 < word_mod)
      × ((mul_wide a b).1 + 1 < word_mod)
unfolding mul_wide
mul_wide_lem a b ha hb =
    columns (a % half_mod * (b % half_mod)) (a % half_mod * (b / half_mod))
      (a / half_mod * (b % half_mod)) (a / half_mod * (b / half_mod)) (a * b)
      (half_product _ _ (omega arith) (omega arith)) (half_product _ _ (omega arith) (omega arith))
      (half_product _ _ (omega arith) (omega arith)) (half_product _ _ (omega arith) (omega arith))
      (product_split a b) (word_product a b ha hb)

mul_step :
    (r w rhs : ℕ)
    → r < word_mod
    → w < word_mod
    → rhs < word_mod
    → let product = mul_wide w rhs in
      let word = (r + product.0) % word_mod in
      let carry = (product.1 + bit (ltb word product.0)) % word_mod in
      (word + word_mod * carry ≡ r + w * rhs) × (word < word_mod) × (carry < word_mod)
mul_step r w rhs hr hw hm = ground (arith, mul_wide_lem w rhs hw hm)

mul_loop_value :
    (rs ws : Words) (rhs : ℕ)
    → IsWords rs
    → IsWords ws
    → rhs < word_mod
    → length rs ≡ length ws
    → (k : ℕ) × (value (mul_loop rs ws rhs) + k * capacity ws ≡ value rs + value ws * rhs)
      × IsWords (mul_loop rs ws rhs)
unfolding value capacity mul_loop
mul_loop_value [] [] rhs hr hw hm e = (0, omega arith, tt)
mul_loop_value [] (w ∷ ws) rhs hr hw hm e = absurd (omega arith)
mul_loop_value (r ∷ rs) [] rhs hr hw hm e = absurd (omega arith)
mul_loop_value (r ∷ rs) (w ∷ ws) rhs hr hw hm e =
    let product = mul_wide w rhs in
    let word = (r + product.0) % word_mod in
    let carry = (product.1 + bit (ltb word product.0)) % word_mod in
    let (here, fits, carry_fits) = mul_step r w rhs hr.0 hw.0 hm in
    let (k, carried, rest) = add_word_value rs carry hr.1 carry_fits in
    let same = capacity-eq rs ws (omega arith) in
    let (j, above, rest') =
      mul_loop_value (add_word rs carry) ws rhs rest hw.1 hm
        (omega (arith, length-add_word rs carry)) in
    (k + j, total _ _ _ _ _ _ _ _ _ here (rw same at carried) above, (fits, rest'))
  where
    total :
        (word carry r v k c u v' j : ℕ)
        → word + word_mod * carry ≡ r + w * rhs
        → u + k * c ≡ v + carry
        → v' + j * c ≡ u + value ws * rhs
        → word + word_mod * v' + (k + j) * (word_mod * c)
          ≡ r + word_mod * v + (w + word_mod * value ws) * rhs
    total word carry r v k c u v' j e1 e2 e3 = omega arith

zeros-IsWords :
    (xs : Words) → IsWords (zeros xs) × (value (zeros xs) ≡ 0) × (length (zeros xs) ≡ length xs)
unfolding value
zeros-IsWords [] = (tt, refl, refl)
zeros-IsWords (x ∷ xs) =
    let (w, v, l) = zeros-IsWords xs in ((omega arith, w), omega (arith, v), ap suc l)

length-mul_loop : (rs ws : Words) (rhs : ℕ) → length (mul_loop rs ws rhs) ≡ length rs
unfolding mul_loop
length-mul_loop [] ws rhs = refl
length-mul_loop (r ∷ rs) [] rhs = refl
length-mul_loop (r ∷ rs) (w ∷ ws) rhs =
    ap suc (length-mul_loop (add_word rs _) ws rhs ∙ length-add_word rs _)

-- The product of an integer with a word, all words in range, is the product of the numbers,
-- modulo the capacity, and its words are in range.
pub value-mul_word :
    (xs : Words) (rhs : ℕ)
    → IsWords xs
    → rhs < word_mod
    → (value (mul_word xs rhs) ≡ value xs * rhs % capacity xs) × IsWords (mul_word xs rhs)
unfolding mul_word
value-mul_word xs rhs h hm =
    let (zw, zv, zl) = zeros-IsWords xs in
    let (k, product, rest) = mul_loop_value (zeros xs) xs rhs zw h hm zl in
    let same =
      capacity-eq (mul_loop (zeros xs) xs rhs) xs (length-mul_loop (zeros xs) xs rhs ∙ zl) in
    let below = rw same at (value-lt-capacity (mul_loop (zeros xs) xs rhs) rest) in
    let product' : value (mul_loop (zeros xs) xs rhs) ≡ value xs * rhs % capacity xs =
      mod_of_sum _ k _ _ below (omega (arith, product, zv)) in
    let small = value-lt-capacity xs h in
    elim (Bool-cases (rhs == 0)) [
      | inl e ↦ rw e (
        mod_of_sum _ 0 _ _ (omega (arith, zv, small)) (rw ((==_iff rhs 0).0 e) (omega (arith, zv))),
        zw,
      )
      | inr e ↦ rw e (elim (Bool-cases (rhs == 1)) [
        | inl f ↦ rw f (mod_of_sum _ 0 _ _ small (rw ((==_iff rhs 1).0 f) (omega arith)), h)
        | inr f ↦ rw f (product', rest)
      ])
    ]

pub length-mul_word : (xs : Words) (rhs : ℕ) → IsWords xs → length (mul_word xs rhs) ≡ length xs
unfolding mul_word
length-mul_word xs rhs h =
    let (zw, zv, zl) = zeros-IsWords xs in
    let all = length-mul_loop (zeros xs) xs rhs ∙ zl in
    elim (Bool-cases (rhs == 0)) [
      | inl e ↦ rw e zl
      | inr e ↦ rw e (elim (Bool-cases (rhs == 1)) [ inl f ↦ rw f refl | inr f ↦ rw f all ])
    ]
