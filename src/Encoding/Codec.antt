-- ===== src/Encoding/Codec.antt =====
-- Writers and readers as codecs: what a write appends, what a read takes, and how both compose. The
-- lemmas carry the round trips of the objects that are written field by field.
use hornet.Common.{
  ℕ, ◌+◌, ◌^◌, ◌≤◌, ◌<◌, ◌≡◌, refl, sym, ap, ◌∙◌, arith, List, [], ◌∷◌, ◌++◌, length, length-append,
  Bytes, map, some, ltb, if◌then◌else◌, Bool, true, false, Option,
}
use hornet.Encoding.Endian.{le_bytes}
use hornet.Encoding.Writer.{Writer, write_bytes, write_le, write_var_int, write_bool, write_each}
use hornet.Encoding.Reader.{
  Reader, Read, ◌>>=◌, return, throw, or_throw, read_bytes, read_byte, read_le, read_var_int,
  read_bool, get_pos, max_compact_size, read_each,
}
use hornet.Encoding.RoundTrip.{
  between, at_end, compact_size, read_bytes-between, read_byte-between, read_le-between,
  read_var_int-compact_size, narrow_small, write_byte-at_end, write_bytes-at_end, write_le-at_end,
  write_var_int-at_end,
}
use mathlib.Core.Path.{subst}
use mathlib.Core.List.{append-nil, append_assoc}

-- The write puts the bytes behind whatever stands in the buffer.
abbrev pub Appends : (Writer → Writer) → Bytes → Type 0
Appends write bs = (buffer : Bytes) → write (at_end buffer) ≡ at_end (buffer ++ bs)

pub Appends-then :
    (f g : Writer → Writer) (bs cs : Bytes)
    → Appends f bs
    → Appends g cs
    → Appends (λ w. g (f w)) (bs ++ cs)
Appends-then f g bs cs hf hg buffer =
    rw (hf buffer, hg (buffer ++ bs), append_assoc buffer bs cs) refl

module _ {A : Type 0} where
  -- The read behind `front` takes the bytes and returns the value, whatever follows.
  abbrev pub ReadsAt : Bytes → Read A → Bytes → A → Type 0
  ReadsAt front m bs a =
      (rest : Bytes)
      → length front + length bs + length rest < 2 ^ 64
      → m (between front (bs ++ rest)) ≡ some (a, between (front ++ bs) rest)

  abbrev pub Reads : Read A → Bytes → A → Type 0
  Reads m bs a = (front : Bytes) → ReadsAt front m bs a

  pub return-Reads : (a : A) → Reads (return a) [] a
  return-Reads a front rest h = rw (append-nil front) refl

module _ {A B : Type 0} (m : Read A) (f : A → Read B) where
  pub bind_step : (r r' : Reader) (a : A) → m r ≡ some (a, r') → (m >>= f) r ≡ f a r'
  bind_step r r' a e = rw (e, ◌>>=◌)

  pub bind-ReadsAt :
      (front bs cs : Bytes) (a : A) (b : B)
      → ReadsAt front m bs a
      → ReadsAt (front ++ bs) (f a) cs b
      → ReadsAt front (m >>= f) (bs ++ cs) b
  bind-ReadsAt front bs cs a b hm hf rest h =
      let lengths = length-append bs cs in
      let more = length-append cs rest in
      let behind = length-append front bs in
      let first = hm (cs ++ rest) (omega (arith, lengths, more)) in
      let second = hf rest (omega (arith, lengths, behind)) in
      rw (append_assoc bs cs rest, sym (append_assoc front bs cs)) (bind_step _ _ a first ∙ second)

  pub bind-Reads :
      (bs cs : Bytes) (a : A) (b : B)
      → Reads m bs a
      → Reads (f a) cs b
      → Reads (m >>= f) (bs ++ cs) b
  bind-Reads bs cs a b hm hf front = bind-ReadsAt front bs cs a b (hm front) (hf (front ++ bs))

pub get_pos-ReadsAt :
    {B : Type 0} (f : ℕ → Read B) (front cs : Bytes) (b : B)
    → ReadsAt front (f (length front)) cs b
    → ReadsAt front (get_pos >>= f) cs b
unfolding get_pos
get_pos-ReadsAt f front cs b h = h

-- A last read, and the position behind it.
pub last-ReadsAt :
    {A B : Type 0} (m : Read A) (f : A → ℕ → B) (front bs : Bytes) (a : A)
    → ReadsAt front m bs a
    → ReadsAt front (m >>= λ x. get_pos >>= λ end. return (f x end)) bs (f a (length (front ++ bs)))
unfolding get_pos
last-ReadsAt m f front bs a hm rest h = bind_step m _ _ _ a (hm rest h)

-- The same where what is built of both may be no value: `or_throw` of one that is.
pub checked-ReadsAt :
    {A B : Type 0} (m : Read A) (f : A → ℕ → Option B) (front bs : Bytes) (a : A) (b : B)
    → ReadsAt front m bs a
    → f a (length (front ++ bs)) ≡ some b
    → ReadsAt front (m >>= λ x. get_pos >>= λ end. or_throw (f x end)) bs b
unfolding get_pos
checked-ReadsAt m f front bs a b hm he rest h = bind_step m _ _ _ a (hm rest h) ∙ rw he refl

pub or_throw-ReadsAt :
    {A B : Type 0} (o : Option A) (f : A → Read B) (front bs : Bytes) (a : A) (b : B)
    → o ≡ some a
    → ReadsAt front (f a) bs b
    → ReadsAt front (or_throw o >>= f) bs b
or_throw-ReadsAt o f front bs a b he hf = rw he hf

-- A limit that is kept.
pub within-ReadsAt :
    {B : Type 0} (limit n : ℕ) (m : Read B) (front bs : Bytes) (b : B)
    → n ≤ limit
    → ReadsAt front m bs b
    → ReadsAt front (if ltb limit n then throw else m) bs b
within-ReadsAt limit n m front bs b few h =
    let test : ltb limit n ≡ false = ground arith in
    subst (λ t. ReadsAt front (if t then throw else m) bs b) (sym test) h

pub read_bytes-Reads : (n : ℕ) (bs : Bytes) → length bs ≡ n → Reads (read_bytes n) bs bs
read_bytes-Reads n bs e front rest h = rw (sym e) (
    read_bytes-between front bs rest
      (omega (arith, length-append front (bs ++ rest), length-append bs rest)))

pub read_le-Reads : (n x : ℕ) → x < 256 ^ n → Reads (read_le n) (le_bytes n x) x
read_le-Reads n x hx front rest h =
    read_le-between n x front rest hx
      (omega (arith, length-append front (le_bytes n x ++ rest), length-append (le_bytes n x) rest))

pub read_byte-Reads : (b : ℕ) → Reads read_byte (b ∷ []) b
read_byte-Reads b front rest h =
    read_byte-between front rest b (omega (arith, length-append front (b ∷ rest)))

pub read_var_int-Reads :
    (bits x : ℕ)
    → x < 2 ^ bits
    → x ≤ max_compact_size
    → Reads (read_var_int bits true) (compact_size x) x
read_var_int-Reads bits x fits small front rest h =
    read_var_int-compact_size bits x true front rest (omega arith) (narrow_small bits x fits)
      (ground arith) h

pub read_bool-Reads : (flag : Bool) → Reads read_bool ((if flag then 1 else 0) ∷ []) flag
unfolding read_bool
read_bool-Reads true front rest h = bind_step read_byte _ _ _ 1 (read_byte-Reads 1 front rest h)
read_bool-Reads false front rest h = bind_step read_byte _ _ _ 0 (read_byte-Reads 0 front rest h)

-- Mapping the value of a read.
pub map-Reads :
    {A B : Type 0} (m : Read A) (f : A → B) (bs : Bytes) (a : A)
    → Reads m bs a
    → Reads (m >>= λ x. return (f x)) bs (f a)
map-Reads m f bs a hm front rest h = bind_step m _ _ _ a (hm front rest h)

-- A read whose value settles the rest, which takes no more bytes.
pub then-Reads :
    {A B : Type 0} (m : Read A) (f : A → Read B) (bs : Bytes) (a : A) (b : B)
    → Reads m bs a
    → f a ≡ return b
    → Reads (m >>= f) bs b
then-Reads m f bs a b hm e front rest h =
    bind_step m f _ _ a (hm front rest h) ∙ ap (λ k. k (between (front ++ bs) rest)) e

pub write_bytes-Appends : (bs : Bytes) → Appends (λ w. write_bytes w bs) bs
write_bytes-Appends bs buffer = write_bytes-at_end buffer bs

pub write_le-Appends : (n x : ℕ) → Appends (λ w. write_le n w x) (le_bytes n x)
write_le-Appends n x buffer = write_le-at_end n buffer x

pub write_var_int-Appends : (x : ℕ) → Appends (λ w. write_var_int w x) (compact_size x)
write_var_int-Appends x buffer = write_var_int-at_end buffer x

pub write_bool-Appends :
    (flag : Bool) → Appends (λ w. write_bool w flag) ((if flag then 1 else 0) ∷ [])
unfolding write_bool
write_bool-Appends flag buffer = write_byte-at_end buffer (if flag then 1 else 0)

module _ {A : Type 0} where
  -- The bytes of all the elements.
  abbrev pub concat_map : (A → Bytes) → List A → Bytes
  concat_map encode [] = []
  concat_map encode (x ∷ xs) = encode x ++ concat_map encode xs

  abbrev pub All : (A → Type 0) → List A → Type 0
  All P [] = Unit {0}
  All P (x ∷ xs) = P x × All P xs

  pub write_each-Appends :
      (write : Writer → A → Writer) (encode : A → Bytes)
      → ((x : A) → Appends (λ w. write w x) (encode x))
      → (xs : List A) → Appends (λ w. write_each write w xs) (concat_map encode xs)
  unfolding write_each
  write_each-Appends write encode h [] buffer = rw (append-nil buffer) refl
  write_each-Appends write encode h (x ∷ xs) buffer =
      Appends-then (λ w. write w x) (λ w. write_each write w xs) (encode x) (concat_map encode xs)
        (h x) (write_each-Appends write encode h xs) buffer

  -- Each element is read as its value.
  pub read_each-map-Reads :
      {B : Type 0} (read : Read B) (encode : A → Bytes) (P : A → Type 0) (value : A → B)
      → ((x : A) → P x → Reads read (encode x) (value x))
      → (xs : List A) → All P xs
      → Reads (read_each read (length xs)) (concat_map encode xs) (map value xs)
  unfolding read_each
  read_each-map-Reads read encode P value h [] all = return-Reads []
  read_each-map-Reads read encode P value h (x ∷ xs) all =
      bind-Reads read _ (encode x) (concat_map encode xs) (value x) (value x ∷ map value xs)
        (h x all.0)
        (map-Reads (read_each read (length xs)) (◌∷◌ (value x)) (concat_map encode xs)
          (map value xs) (read_each-map-Reads read encode P value h xs all.1))

  pub read_each-Reads :
      (read : Read A) (encode : A → Bytes) (P : A → Type 0)
      → ((x : A) → P x → Reads read (encode x) x)
      → (xs : List A) → All P xs
      → Reads (read_each read (length xs)) (concat_map encode xs) xs
  unfolding read_each
  read_each-Reads read encode P h [] all = return-Reads []
  read_each-Reads read encode P h (x ∷ xs) all =
      bind-Reads read _ (encode x) (concat_map encode xs) x (x ∷ xs) (h x all.0) (
        map-Reads (read_each read (length xs)) (◌∷◌ x) (concat_map encode xs) xs
          (read_each-Reads read encode P h xs all.1))
