-- ===== src/Uint/Add.antt =====
-- Addition, subtraction and complement of src/hornetlib/util/big_uint.h, on the numbers.
use hornet.Common.{
  ℕ, zero, suc, ◌+◌, ◌-◌, ◌*◌, ◌%◌, ◌<◌, ◌≤◌, ◌≡◌, refl, sym, ap, ◌∙◌, [], ◌∷◌, length, arith, ◌||◌,
  ltb, ◌==◌, if◌then◌else◌,
}
use hornet.Uint.{
  Words, word_mod, value, capacity, IsWords, bit, add_loop, add, sub_loop, sub, add_word,
  complement,
}
use native.Mathlib.Nat.{mod-eq_of_lt, add-mul-mod_self_right}

pub value-lt-capacity : (xs : Words) → IsWords xs → value xs < capacity xs
unfolding value capacity
value-lt-capacity [] h = omega arith
value-lt-capacity (x ∷ xs) h = omega (arith, value-lt-capacity xs h.1)

-- What is left of a number below `m` plus some whole multiples of `m`.
pub mod_of_sum : (v k m n : ℕ) → v < m → v + k * m ≡ n → v ≡ n % m
mod_of_sum v k m n h e =
    sym (mod-eq_of_lt h) ∙ sym (add-mul-mod_self_right v k m) ∙ ap (λ (t : ℕ). t % m) e

-- One step of the addition: the carry is the part above the word.
add_step :
    (c x y : ℕ)
    → c ≤ 1
    → x < word_mod
    → y < word_mod
    → let partial = (x + c) % word_mod in
      let word = (partial + y) % word_mod in
      let carry = bit (ltb partial c || ltb word partial) in
      (word + carry * word_mod ≡ x + y + c) × (carry ≤ 1) × (word < word_mod)
add_step c x y hc hx hy = ground arith

add_loop_value :
    (c : ℕ) (xs ys : Words)
    → c ≤ 1
    → IsWords xs
    → IsWords ys
    → length xs ≡ length ys
    → (k : ℕ) × (value (add_loop c xs ys) + k * capacity xs ≡ value xs + value ys + c)
      × IsWords (add_loop c xs ys)
unfolding value capacity add_loop
add_loop_value c [] [] hc hx hy e = (c, omega arith, tt)
add_loop_value c [] (y ∷ ys) hc hx hy e = absurd (omega arith)
add_loop_value c (x ∷ xs) [] hc hx hy e = absurd (omega arith)
add_loop_value c (x ∷ xs) (y ∷ ys) hc hx hy e =
    let partial = (x + c) % word_mod in
    let word = (partial + y) % word_mod in
    let (here, small, fits) = add_step c x y hc hx.0 hy.0 in
    let (k, above, rest) =
      add_loop_value (bit (ltb partial c || ltb word partial)) xs ys small hx.1 hy.1
        (omega arith) in
    (k, omega (arith, here, above), (fits, rest))

pub capacity-eq : (xs ys : Words) → length xs ≡ length ys → capacity xs ≡ capacity ys
unfolding capacity
capacity-eq [] [] e = refl
capacity-eq [] (y ∷ ys) e = absurd (omega arith)
capacity-eq (x ∷ xs) [] e = absurd (omega arith)
capacity-eq (x ∷ xs) (y ∷ ys) e = omega (arith, capacity-eq xs ys (omega arith))

pub length-add_loop : (xs ys : Words) (c : ℕ) → length (add_loop c xs ys) ≡ length xs
unfolding add_loop
length-add_loop [] ys c = refl
length-add_loop (x ∷ xs) [] c = refl
length-add_loop (x ∷ xs) (y ∷ ys) c = ap suc (length-add_loop xs ys _)

-- The sum of two integers of one width whose words are in range is the sum of their numbers,
-- modulo the capacity, and its words are in range.
pub value-add :
    (xs ys : Words)
    → IsWords xs
    → IsWords ys
    → length xs ≡ length ys
    → (value (add xs ys) ≡ (value xs + value ys) % capacity xs) × IsWords (add xs ys)
unfolding add
value-add xs ys hx hy e =
    let (k, sum, rest) = add_loop_value 0 xs ys (omega arith) hx hy e in
    let same = capacity-eq (add_loop 0 xs ys) xs (length-add_loop xs ys 0) in
    (
      mod_of_sum _ k _ _ (rw same at (value-lt-capacity (add_loop 0 xs ys) rest))
          (omega (arith, sum)),
      rest,
    )

sub_step :
    (b x y : ℕ)
    → b ≤ 1
    → x < word_mod
    → y < word_mod
    → let partial = (x + word_mod - b) % word_mod in
      let word = (partial + word_mod - y) % word_mod in
      let borrow = bit (ltb x b || ltb partial word) in
      (word + y + b ≡ x + borrow * word_mod) × (borrow ≤ 1) × (word < word_mod)
sub_step b x y hb hx hy = ground arith

sub_loop_value :
    (b : ℕ) (xs ys : Words)
    → b ≤ 1
    → IsWords xs
    → IsWords ys
    → length xs ≡ length ys
    → (k : ℕ) × (value (sub_loop b xs ys) + value ys + b ≡ value xs + k * capacity xs)
      × (k ≤ 1)
      × IsWords (sub_loop b xs ys)
unfolding value capacity sub_loop
sub_loop_value b [] [] hb hx hy e = (b, omega arith, hb, tt)
sub_loop_value b [] (y ∷ ys) hb hx hy e = absurd (omega arith)
sub_loop_value b (x ∷ xs) [] hb hx hy e = absurd (omega arith)
sub_loop_value b (x ∷ xs) (y ∷ ys) hb hx hy e =
    let partial = (x + word_mod - b) % word_mod in
    let word = (partial + word_mod - y) % word_mod in
    let (here, small, fits) = sub_step b x y hb hx.0 hy.0 in
    let (k, above, least, rest) =
      sub_loop_value (bit (ltb x b || ltb partial word)) xs ys small hx.1 hy.1 (omega arith) in
    (k, omega (arith, here, above), least, (fits, rest))

difference_of_borrow :
    (v y x k c : ℕ) → v + y + 0 ≡ x + k * c → k ≤ 1 → y < c → v < c → v ≡ (x + c - y) % c
difference_of_borrow v y x zero c e h hy hv = mod_of_sum v 1 c (x + c - y) hv (omega arith)
difference_of_borrow v y x (suc zero) c e h hy hv = mod_of_sum v 0 c (x + c - y) hv (omega arith)
difference_of_borrow v y x (suc (suc k)) c e h hy hv = absurd (omega arith)

no_borrow : (v y x k c : ℕ) → v + y + 0 ≡ x + k * c → y ≤ x → v < c → v + y ≡ x
no_borrow v y x zero c e h hv = omega arith
no_borrow v y x (suc k) c e h hv = absurd (omega arith)

pub length-sub_loop : (xs ys : Words) (b : ℕ) → length (sub_loop b xs ys) ≡ length xs
unfolding sub_loop
length-sub_loop [] ys b = refl
length-sub_loop (x ∷ xs) [] b = refl
length-sub_loop (x ∷ xs) (y ∷ ys) b = ap suc (length-sub_loop xs ys _)

-- The difference of two integers of one width whose words are in range is the difference of their
-- numbers, modulo the capacity, and its words are in range.
value-sub :
    (xs ys : Words)
    → IsWords xs
    → IsWords ys
    → length xs ≡ length ys
    → (value (sub xs ys) ≡ (value xs + capacity xs - value ys) % capacity xs) × IsWords (sub xs ys)
unfolding sub
value-sub xs ys hx hy e =
    let (k, difference, least, rest) = sub_loop_value 0 xs ys (omega arith) hx hy e in
    let same = capacity-eq (sub_loop 0 xs ys) xs (length-sub_loop xs ys 0) in
    let below = rw same at (value-lt-capacity (sub_loop 0 xs ys) rest) in
    let below_y = value-lt-capacity ys hy in
    let same_y = capacity-eq xs ys e in
    (difference_of_borrow _ _ _ k _ difference least (omega (arith, below_y, same_y)) below, rest)

-- Where no borrow is left over it is the difference itself.
pub value-sub_exact :
    (xs ys : Words)
    → IsWords xs
    → IsWords ys
    → length xs ≡ length ys
    → value ys ≤ value xs
    → value (sub xs ys) + value ys ≡ value xs
unfolding sub
value-sub_exact xs ys hx hy e h =
    let (k, difference, least, rest) = sub_loop_value 0 xs ys (omega arith) hx hy e in
    let same = capacity-eq (sub_loop 0 xs ys) xs (length-sub_loop xs ys 0) in
    let below = rw same at (value-lt-capacity (sub_loop 0 xs ys) rest) in
    no_borrow _ _ _ k _ difference h below

pub length-add_word : (xs : Words) (carry : ℕ) → length (add_word xs carry) ≡ length xs
unfolding add_word
length-add_word [] carry = refl
length-add_word (x ∷ xs) carry =
    ground (arith, length-add_word xs (bit (ltb ((x + carry) % word_mod) carry)))

pub add_word_value :
    (xs : Words) (carry : ℕ)
    → IsWords xs
    → carry < word_mod
    → (k : ℕ) × (value (add_word xs carry) + k * capacity xs ≡ value xs + carry)
      × IsWords (add_word xs carry)
unfolding value capacity add_word
add_word_value [] carry h hc = (carry, omega arith, tt)
add_word_value (x ∷ xs) carry h hc =
    let c = bit (ltb ((x + carry) % word_mod) carry) in
    let (k, above, rest) = add_word_value xs c h.1 (ground arith) in
    (if carry == 0 then 0 else k, ground (arith, above, h.0), ground (arith, rest, h.0, h.1))

-- The complement of an integer whose words are in range has the number that is missing to the
-- largest one of the width, in words that are in range.
value-complement :
    (xs : Words)
    → IsWords xs
    → (value (complement xs) + value xs + 1 ≡ capacity xs) × IsWords (complement xs)
unfolding value capacity complement
value-complement [] h = (omega arith, tt)
value-complement (x ∷ xs) h =
    let (above, rest) = value-complement xs h.1 in
    (omega (arith, above, h.0), (omega (arith, h.0), rest))
