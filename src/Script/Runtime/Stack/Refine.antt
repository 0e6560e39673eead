-- ===== src/Script/Runtime/Stack/Refine.antt =====
-- The operations of the stack against those of a list of byte strings.
use hornet.Common.{
  ℕ, zero, suc, ◌≡◌, refl, ap, List, [], ◌∷◌, length, drop, map, Bytes, arith, none, some,
  get_elem?, ltb, leb, if◌then◌else◌, Bool, true, false,
}
use hornet.Script.Runtime.Stack.{
  stack_overflow, stack_item_overflow, stack_underflow, Result, ok, fault, aborts, Item, Stack,
  max_items, max_item_size, span_of, size, push, pop, peek_at,
}
use hornet.Script.Runtime.Stack.Contents.{contents, IsStack, popped, pushed-IsStack, popped-IsStack}

-- The operations on a list of byte strings.
abbrev pub list_push : Bytes → List Bytes → Result (List Bytes)
list_push payload items =
    if leb max_items (length items)
    then fault stack_overflow
    else if ltb max_item_size (length payload)
    then fault stack_item_overflow
    else ok (payload ∷ items)

abbrev pub list_pop : ℕ → List Bytes → Result (List Bytes)
list_pop n items = if ltb (length items) n then fault stack_underflow else ok (drop n items)

abbrev pub list_peek : ℕ → List Bytes → Result Bytes
list_peek position items = elim (get_elem? items position) [
  | none ↦ fault stack_underflow
  | some bytes ↦ ok bytes
]

-- The same error, or related values.
abbrev pub Related : {A B : Type 0} → (A → B → Type 0) → Result A → Result B → Type 0
Related R (ok a) (ok b) = R a b
Related R (fault e) (fault f) = e ≡ f
Related R aborts aborts = Unit {0}
Related R (ok a) (fault e) = ⊥
Related R (ok a) aborts = ⊥
Related R (fault e) (ok b) = ⊥
Related R (fault e) aborts = ⊥
Related R aborts (ok b) = ⊥
Related R aborts (fault e) = ⊥

pub Related-if :
    {A B : Type 0} (R : A → B → Type 0) (b : Bool) (x y : Result A) (x' y' : Result B)
    → (b ≡ true → Related R x x')
    → (b ≡ false → Related R y y')
    → Related R (if b then x else y) (if b then x' else y')
Related-if R true x y x' y' f g = f refl
Related-if R false x y x' y' f g = g refl

-- A stack within its limits that holds the list.
abbrev pub Holds : Stack → List Bytes → Type 0
Holds s items = IsStack s × (contents s ≡ items)

length-map-contents : (s : Stack) → length (contents s) ≡ size s
length-map-contents s = go s.items
  where
    go : (items : List Item) → length (map (span_of s.bytes) items) ≡ length items
    go [] = refl
    go (i ∷ is) = ap suc (go is)

pub push-Refines :
    (s : Stack) (payload : Bytes)
    → IsStack s
    → Related Holds (push payload s) (list_push payload (contents s))
unfolding push
push-Refines s payload h = rw (length-map-contents s) (
    Related-if Holds (leb max_items (size s)) _ _ _ _ (λ _. refl)
      λ room.
        Related-if Holds (ltb max_item_size (length payload)) _ _ _ _ (λ _. refl)
          λ small. pushed-IsStack s payload h (ground (arith, room)) (ground (arith, small)))

pub pop-Refines :
    (s : Stack) (n : ℕ) → IsStack s → Related Holds (pop n s) (list_pop n (contents s))
unfolding pop
pop-Refines s n h = rw (length-map-contents s) (
    Related-if Holds (ltb (size s) n) (fault stack_underflow) (ok (popped n s)) _ _ (λ _. refl)
      λ _. popped-IsStack s n h)

peek-map :
    (f : Item → Bytes) (items : List Item) (k : ℕ)
    → elim (get_elem? items k) [ none ↦ fault stack_underflow | some i ↦ ok (f i) ]
      ≡ list_peek k (map f items)
peek-map f [] k = refl
peek-map f (i ∷ is) zero = refl
peek-map f (i ∷ is) (suc k) = peek-map f is k

pub peek_at-list_peek :
    (s : Stack) (position : ℕ) → peek_at position s ≡ list_peek position (contents s)
unfolding peek_at
peek_at-list_peek s position = peek-map (span_of s.bytes) s.items position
