-- ===== src/Script/Runtime/Stack.antt =====
-- src/hornetlib/protocol/script/runtime/stack.h: the stack, whose items are slices of one array of
-- bytes. The list of items starts with the last of the vector, which is the top.
pub mod Contents
pub mod Refine
use hornet.Common.{
  ℕ, ◌+◌, ◌-◌, List, [], ◌∷◌, ◌++◌, length, take, drop, get_elem?, Bytes, replicate, none, some,
  Bool, false, not, ◌&&◌, ◌||◌, ltb, leb, ◌==◌, if◌then◌else◌,
}

-- The errors of lang/types.h.
pub data Error : Type 0 where
  non_minimal_number non_minimal_push number_overflow stack_item_overflow stack_overflow : Error
  stack_underflow op_count_excessive : Error

-- What an operation of the runtime ends in: a value, an exception of the runtime, or an abort by
-- another exception or a failed assertion.
pub data Result (A : Type 0) : Type 0 where
  ok : A → Result A
  fault : Error → Result A
  aborts : Result A

-- A slice: where it starts, and its size.
pub record Item : Type 0 where
  pub start : ℕ
  pub count : ℕ

pub record Stack : Type 0 where
  pub items : List Item
  pub bytes : Bytes

abbrev pub max_items : ℕ
max_items = 1000

abbrev pub max_item_size : ℕ
max_item_size = 520

abbrev pub end_index : Item → ℕ
end_index i = i.start + i.count

abbrev pub span_of : Bytes → Item → Bytes
span_of bytes i = take i.count (drop i.start bytes)

abbrev pub empty_stack : Stack
empty_stack = record { items = []; bytes = [] }

abbrev pub size : Stack → ℕ
size s = length s.items

unfoldable pub push : Bytes → Stack → Result Stack
push payload s =
    if leb max_items (size s)
    then fault stack_overflow
    else if ltb max_item_size (length payload)
    then fault stack_item_overflow
    else ok (record {
      items = record { start = length s.bytes; count = length payload } ∷ s.items;
      bytes = s.bytes ++ payload;
    })

-- `vector::resize` of the bytes.
abbrev pub resize : ℕ → Bytes → Bytes
resize n bytes = take n bytes ++ replicate (n - length bytes) 0

abbrev pub used : List Item → ℕ
used [] = 0
used (i ∷ is) = end_index i

unfoldable pub pop : ℕ → Stack → Result Stack
pop n s =
    if ltb (size s) n
    then fault stack_underflow
    else ok (record { items = drop n s.items; bytes = resize (used (drop n s.items)) s.bytes })

unfoldable pub peek_at : ℕ → Stack → Result Bytes
peek_at position s = elim (get_elem? s.items position) [
  | none ↦ fault stack_underflow
  | some i ↦ ok (span_of s.bytes i)
]

unfoldable pub top : Stack → Result Bytes
unfolding peek_at
top = peek_at 0

-- TopAsBool of the bytes: false for a zero, also a negative one.
unfoldable pub as_bool : Bytes → Bool
as_bool [] = false
as_bool (b ∷ []) = not (b == 0) && not (b == 0x80)
as_bool (b ∷ (c ∷ bs)) = not (b == 0) || as_bool (c ∷ bs)
