-- ===== src/Script/Runtime/Stack/Contents.antt =====
-- The stack as a list of byte strings, the top first.
use hornet.Common.{
  ℕ, zero, suc, ◌+◌, ◌-◌, ◌≤◌, ◌<◌, ◌≡◌, refl, sym, ap, ◌∙◌, List, [], ◌∷◌, ◌++◌, length,
  length-append, length-take, length-drop, take, drop, map, Bytes, arith,
}
use hornet.Script.Runtime.Stack.{
  Item, Stack, max_items, max_item_size, end_index, span_of, size, resize, used,
}
use mathlib.Core.List.{append-nil}
use mathlib.Core.Path.{subst}

abbrev pub contents : Stack → List Bytes
contents s = map (span_of s.bytes) s.items

-- Each slice stands behind the one below it, up to `n` bytes in all, and none is too large.
abbrev pub Stacked : List Item → ℕ → Type 0
Stacked [] n = n ≡ 0
Stacked (i ∷ is) n = (end_index i ≡ n) × (i.count ≤ max_item_size) × Stacked is i.start

pub record IsStack (s : Stack) : Type 0 where
  pub few_items : size s ≤ max_items
  pub stacked : Stacked s.items (length s.bytes)

take-prefix : (n : ℕ) (xs ys : Bytes) → n ≤ length xs → take n (xs ++ ys) ≡ take n xs
take-prefix zero xs ys h = refl
take-prefix (suc n) [] ys h = absurd (omega (arith, h))
take-prefix (suc n) (x ∷ xs) ys h = ap (◌∷◌ x) (take-prefix n xs ys (omega (arith, h)))

-- A slice of the first bytes does not see what follows them.
span_of-append :
    (start count : ℕ) (xs ys : Bytes)
    → start + count ≤ length xs
    → take count (drop start (xs ++ ys)) ≡ take count (drop start xs)
span_of-append zero count xs ys h = take-prefix count xs ys (omega (arith, h))
span_of-append (suc start) count [] ys h = absurd (omega (arith, h))
span_of-append (suc start) count (x ∷ xs) ys h = span_of-append start count xs ys (omega (arith, h))

map-span_of :
    (items : List Item) (n : ℕ) (xs ys : Bytes)
    → Stacked items n
    → n ≤ length xs
    → map (span_of (xs ++ ys)) items ≡ map (span_of xs) items
map-span_of [] n xs ys h few = refl
map-span_of (i ∷ is) n xs ys (e, small, below) few =
    rw
      (
        span_of-append i.start i.count xs ys (omega (arith, e, few)),
        map-span_of is i.start xs ys below (omega (arith, e, few)),
      )
      refl

drop-all : (xs ys : Bytes) → take (length ys) (drop (length xs) (xs ++ ys)) ≡ ys
drop-all [] [] = refl
drop-all [] (y ∷ ys) = ap (◌∷◌ y) (drop-all [] ys)
drop-all (x ∷ xs) ys = drop-all xs ys

take-drop : (n : ℕ) (xs : Bytes) → take n xs ++ drop n xs ≡ xs
take-drop zero xs = refl
take-drop (suc n) [] = refl
take-drop (suc n) (x ∷ xs) = ap (◌∷◌ x) (take-drop n xs)

-- The slices below the first `n` are stacked up to their own end, which is within the bytes.
Stacked-drop :
    (n : ℕ) (items : List Item) (m : ℕ)
    → Stacked items m
    → Stacked (drop n items) (used (drop n items)) × (used (drop n items) ≤ m)
Stacked-drop zero [] m h = (refl, omega arith)
Stacked-drop zero (i ∷ is) m (e, small, below) = ((refl, small, below), omega (arith, e))
Stacked-drop (suc n) [] m h = (refl, omega arith)
Stacked-drop (suc n) (i ∷ is) m (e, small, below) =
    let (stacked, within) = Stacked-drop n is i.start below in (stacked, omega (arith, e, within))

map-drop :
    (f : Item → Bytes) (n : ℕ) (items : List Item) → map f (drop n items) ≡ drop n (map f items)
map-drop f zero items = refl
map-drop f (suc n) [] = refl
map-drop f (suc n) (i ∷ is) = map-drop f n is

-- What a push and a pop that succeed leave.
abbrev pub pushed : Bytes → Stack → Stack
pushed payload s = record {
  items = record { start = length s.bytes; count = length payload } ∷ s.items;
  bytes = s.bytes ++ payload;
}

abbrev pub popped : ℕ → Stack → Stack
popped n s = record { items = drop n s.items; bytes = resize (used (drop n s.items)) s.bytes }

pub pushed-IsStack :
    (s : Stack) (payload : Bytes)
    → IsStack s
    → size s < max_items
    → length payload ≤ max_item_size
    → IsStack (pushed payload s) × (contents (pushed payload s) ≡ payload ∷ contents s)
pushed-IsStack s payload h room small =
    let sizes = length-append s.bytes payload in
    (
      record { few_items = omega (arith, room); stacked = (sym sizes, small, h.stacked) },
      rw
          (
            drop-all s.bytes payload,
            map-span_of s.items (length s.bytes) s.bytes payload h.stacked (omega arith),
          )
          refl,
    )

pub popped-IsStack :
    (s : Stack) (n : ℕ)
    → IsStack s
    → IsStack (popped n s) × (contents (popped n s) ≡ drop n (contents s))
popped-IsStack s n h =
    let rest = drop n s.items in
    let end = used rest in
    let (stacked, within) = Stacked-drop n s.items (length s.bytes) h.stacked in
    let kept = take end s.bytes in
    let none_missing : end - length s.bytes ≡ 0 = omega (arith, within) in
    let resized : resize end s.bytes ≡ kept = rw none_missing (append-nil kept) in
    let size' : length kept ≡ end = omega (arith, length-take end s.bytes, within) in
    let same : map (span_of kept) rest ≡ map (span_of s.bytes) rest =
      sym (map-span_of rest end kept (drop end s.bytes) stacked (omega (arith, size')))
      ∙ ap (λ bs. map (span_of bs) rest) (take-drop end s.bytes) in
    let good : IsStack (record { items = rest; bytes = kept }) = record {
      few_items = omega (arith, length-drop n s.items, h.few_items);
      stacked = subst (Stacked rest) (sym size') stacked;
    } in
    subst
      (λ bs.
        IsStack (record { items = rest; bytes = bs })
        × (map (span_of bs) rest ≡ drop n (contents s)))
      (sym resized) (good, same ∙ map-drop (span_of s.bytes) n s.items)
