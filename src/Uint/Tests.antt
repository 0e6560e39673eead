-- ===== src/Uint/Tests.antt =====
-- The theorems on the integers of src/hornetlib/util/big_uint.h at concrete integers.
use hornet.Common.{◌+◌, ◌%◌, ◌≡◌, refl, [], ◌∷◌, arith}
use hornet.Uint.{Words, value, capacity, IsWords, add, add_loop}
use hornet.Uint.Add.{value-add}

abbrev full : Words
full = 0xFFFF_FFFF_FFFF_FFFF ∷ 7 ∷ []

abbrev one : Words
one = 1 ∷ 0 ∷ []

full-IsWords : IsWords full
full-IsWords = (omega arith, (omega arith, tt))

one-IsWords : IsWords one
one-IsWords = (omega arith, (omega arith, tt))

value-add_example :
    (value (add full one) ≡ (value full + value one) % capacity full) × IsWords (add full one)
value-add_example = value-add full one full-IsWords one-IsWords refl

carry_test : add full one ≡ 0 ∷ 8 ∷ []
unfolding add add_loop
carry_test = refl
