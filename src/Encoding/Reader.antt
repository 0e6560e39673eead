-- ===== src/Encoding/Reader.antt =====
-- src/hornetlib/encoding/reader.h: a cursor over a fixed buffer. A read past the end, a seek past
-- the end, a non-canonical or an oversized CompactSize throws, which is `none`.
use hornet.Common.{
  ℕ, zero, suc, List, ◌+◌, ◌%◌, ◌^◌, [], ◌∷◌, length, take, drop, Bytes, Option, none, some, ltb,
  leb, ◌==◌, if◌then◌else◌, Bool, true, false, not, ◌&&◌, get_elem?,
}
use mathlib.Core.Option
use hornet.Encoding.Endian.{from_le, narrow_or_throw}

pub record Reader : Type 0 where
  pub buffer : Bytes
  pub pos : ℕ

-- A read returns a value and the moved reader, or throws.
abbrev pub Read : Type 0 → Type 0
Read A = Reader → Option (A × Reader)

infixl 5 ◌>>=◌ ◌>>◌
abbrev pub ◌>>=◌ : {A B : Type 0} → Read A → (A → Read B) → Read B
◌>>=◌ m f r = elim (m r) [ none ↦ none | some (a, r') ↦ f a r' ]

abbrev pub ◌>>◌ : {B : Type 0} → Read (Unit {0}) → Read B → Read B
m >> k = m >>= λ _. k

abbrev pub return : {A : Type 0} → A → Read A
return a r = some (a, r)

abbrev pub throw : {A : Type 0} → Read A
throw r = none

-- The value of an optional, or the exception of what failed to produce it.
abbrev pub or_throw : {A : Type 0} → Option A → Read A
or_throw none r = none
or_throw (some a) r = some (a, r)

-- The test of RequireAvailable; the sum is a size_t, so it wraps at 2 ^ 64.
unfoldable pub is_available : Reader → ℕ → Bool
is_available r len = leb ((r.pos + len) % 2 ^ 64) (length r.buffer)

unfoldable pub get_pos : Read ℕ
get_pos r = some (r.pos, r)

unfoldable pub seek : ℕ → Read (Unit {0})
seek offset r = if ltb (length r.buffer) offset then none else some (tt, record r { pos = offset })

unfoldable pub is_eof : Reader → Bool
is_eof r = leb (length r.buffer) r.pos

-- `buffer_.subspan(pos_, len)`, after which the position moves.
unfoldable pub read_bytes : ℕ → Read Bytes
unfolding is_available
read_bytes len r =
    if is_available r len
    then some (take len (drop r.pos r.buffer), record r { pos = r.pos + len })
    else none

unfoldable pub read_byte : Read ℕ
unfolding is_available
read_byte r =
    if is_available r 1
    then Option.map (λ b. (b, record r { pos = r.pos + 1 })) (get_elem? r.buffer r.pos)
    else none

unfoldable pub read_bool : Read Bool
read_bool = do b ← read_byte; return (not (b == 0))

-- ReadLE of a `size`-byte unsigned integer.
unfoldable pub read_le : ℕ → Read ℕ
read_le size = do bytes ← read_bytes size; return (from_le bytes)

abbrev pub max_compact_size : ℕ
max_compact_size = 0x0200_0000

-- `bits` is the width of the result type.
unfoldable pub validate_compact_size : ℕ → Bool → ℕ → ℕ → Option ℕ
validate_compact_size bits check_max least x =
    if ltb x least
    then none
    else if check_max && ltb max_compact_size x
    then none
    else narrow_or_throw bits x

unfoldable pub read_var_int : ℕ → Bool → Read ℕ
read_var_int bits check_max = do
  prefix ← read_byte
  if ltb prefix 0xFD
      then or_throw (validate_compact_size bits check_max 0 prefix)
      else if prefix == 0xFD
      then (read_le 2 >>= λ x. or_throw (validate_compact_size bits check_max 0xFD x))
      else if prefix == 0xFE
      then (read_le 4 >>= λ x. or_throw (validate_compact_size bits check_max 0x1_0000 x))
      else (read_le 8 >>= λ x. or_throw (validate_compact_size bits check_max 0x1_0000_0000 x))

unfoldable pub read_var_string : Read Bytes
read_var_string = do len ← read_var_int 64 true; read_bytes len

-- The characters before the first zero byte.
unfoldable pub until_zero : Bytes → Bytes
until_zero [] = []
until_zero (b ∷ bs) = if b == 0 then [] else b ∷ until_zero bs

unfoldable pub has_zero : Bytes → Bool
has_zero [] = false
has_zero (b ∷ bs) = if b == 0 then true else has_zero bs

-- A string from the array's bytes up to the first zero. Without one, the source reads past the array,
-- which is undefined.
unfoldable pub read_zero_padded_string : ℕ → Read Bytes
read_zero_padded_string n = do
  cstr ← read_bytes n
  if has_zero cstr then return (until_zero cstr) else throw

-- A loop that reads each of so many elements.
unfoldable pub read_each : {A : Type 0} → Read A → ℕ → Read (List A)
read_each read zero = return []
read_each read (suc n) = do x ← read; xs ← read_each read n; return (x ∷ xs)
