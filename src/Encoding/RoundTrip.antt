-- ===== src/Encoding/RoundTrip.antt =====
-- What the reader makes of what the writer wrote.
use hornet.Common.{
  ℕ, zero, suc, ◌+◌, ◌-◌, ◌/◌, ◌^◌, ◌≤◌, ◌<◌, ◌≡◌, refl, ap, arith, [], ◌∷◌, ◌++◌, length,
  length-append, length-take, length-drop, take, drop, Bytes, some, ltb, leb, if◌then◌else◌, Bool,
  false, ◌&&◌, take-append-drop, get_elem?,
}
use hornet.Encoding.Endian.{le_bytes, from_le, length-le_bytes, narrow_or_throw}
use hornet.Encoding.Writer.{
  Writer, overwrite, insert_at, write_bytes, write_byte, write_le, write_var_int,
}
use hornet.Encoding.Reader.{
  Reader, read_bytes, read_byte, read_le, read_var_int, validate_compact_size, max_compact_size,
}
use native.Mathlib.Nat.{mod-eq_of_lt}
use mathlib.Core.List.{append-nil, append_assoc}

-- A reader in front of `back`, with `front` behind it.
abbrev pub between : Bytes → Bytes → Reader
between front back = record { buffer = front ++ back; pos = length front }

pub drop-append : (xs ys : Bytes) → drop (length xs) (xs ++ ys) ≡ ys
drop-append [] ys = refl
drop-append (x ∷ xs) ys = drop-append xs ys

pub take-append : (xs ys : Bytes) → take (length xs) (xs ++ ys) ≡ xs
take-append [] ys = refl
take-append (x ∷ xs) ys = rw (take-append xs ys)

get_elem?-append :
    (xs : Bytes) (y : ℕ) (ys : Bytes) → get_elem? (xs ++ (y ∷ ys)) (length xs) ≡ some y
get_elem?-append [] y ys = refl
get_elem?-append (x ∷ xs) y ys = get_elem?-append xs y ys

pub from_le-le_bytes : (n x : ℕ) → x < 256 ^ n → from_le (le_bytes n x) ≡ x
unfolding from_le le_bytes
from_le-le_bytes zero x h = omega arith
from_le-le_bytes (suc n) x h = omega (arith, from_le-le_bytes n (x / 256) (omega arith))

pub read_bytes-between :
    (front bs rest : Bytes)
    → length (front ++ (bs ++ rest)) < 2 ^ 64
    → read_bytes (length bs) (between front (bs ++ rest)) ≡ some (bs, between (front ++ bs) rest)
unfolding read_bytes
read_bytes-between front bs rest h = ground (
  arith,
  length-append front (bs ++ rest),
  length-append bs rest,
  drop-append front (bs ++ rest),
  take-append bs rest,
  append_assoc front bs rest,
  length-append front bs,
)

pub read_byte-between :
    (front rest : Bytes) (b : ℕ)
    → length (front ++ (b ∷ rest)) < 2 ^ 64
    → read_byte (between front (b ∷ rest)) ≡ some (b, between (front ++ (b ∷ [])) rest)
unfolding read_byte
read_byte-between front rest b h = ground (
  arith,
  length-append front (b ∷ rest),
  get_elem?-append front b rest,
  append_assoc front (b ∷ []) rest,
  length-append front (b ∷ []),
)

pub read_le-between :
    (n x : ℕ) (front rest : Bytes)
    → x < 256 ^ n
    → length (front ++ (le_bytes n x ++ rest)) < 2 ^ 64
    → read_le n (between front (le_bytes n x ++ rest))
      ≡ some (x, between (front ++ le_bytes n x) rest)
unfolding read_le
read_le-between n x front rest hx h = ground (
  arith,
  read_bytes-between front (le_bytes n x) rest h,
  length-le_bytes n x,
  from_le-le_bytes n x hx,
)

-- The bytes of a CompactSize.
unfoldable pub compact_size : ℕ → Bytes
compact_size x =
    if ltb x 0xFD
    then x ∷ []
    else if leb x 0xFFFF
    then 0xFD ∷ le_bytes 2 x
    else if leb x 0xFFFF_FFFF
    then 0xFE ∷ le_bytes 4 x
    else 0xFF ∷ le_bytes 8 x

-- A writer at its end, and what one write leaves.
abbrev pub at_end : Bytes → Writer
at_end buffer = record { buffer = buffer; pos = length buffer }

pub write_byte-at_end :
    (buffer : Bytes) (b : ℕ) → write_byte (at_end buffer) b ≡ at_end (buffer ++ (b ∷ []))
unfolding write_byte
write_byte-at_end buffer b = ground (arith, length-append buffer (b ∷ []))

pub take-length : (xs : Bytes) → take (length xs) xs ≡ xs
take-length [] = refl
take-length (x ∷ xs) = rw (take-length xs) refl

drop-length : (xs : Bytes) → drop (length xs) xs ≡ []
drop-length [] = refl
drop-length (x ∷ xs) = drop-length xs

pub write_bytes-at_end :
    (buffer span : Bytes) → write_bytes (at_end buffer) span ≡ at_end (buffer ++ span)
unfolding write_bytes
write_bytes-at_end buffer span =
    ground
      (arith, take-length buffer, drop-length buffer, append-nil span, length-append buffer span)

pub write_le-at_end :
    (n : ℕ) (buffer : Bytes) (x : ℕ)
    → write_le n (at_end buffer) x ≡ at_end (buffer ++ le_bytes n x)
unfolding write_le
write_le-at_end n buffer x = write_bytes-at_end buffer (le_bytes n x)

write_tagged :
    (n : ℕ) (buffer : Bytes) (b x : ℕ)
    → write_le n (write_byte (at_end buffer) b) x ≡ at_end (buffer ++ (b ∷ le_bytes n x))
write_tagged n buffer b x = rw (
  write_byte-at_end buffer b,
  write_le-at_end n (buffer ++ (b ∷ [])) x,
  append_assoc buffer (b ∷ []) (le_bytes n x),
)

pub write_var_int-at_end :
    (buffer : Bytes) (x : ℕ) → write_var_int (at_end buffer) x ≡ at_end (buffer ++ compact_size x)
unfolding write_var_int compact_size
write_var_int-at_end buffer x = ground (
  arith,
  write_byte-at_end buffer x,
  write_tagged 2 buffer 0xFD x,
  write_tagged 4 buffer 0xFE x,
  write_tagged 8 buffer 0xFF x,
)

-- The fields of a CompactSize behind its prefix byte.
read_tagged :
    (n b x : ℕ) (front rest : Bytes)
    → x < 256 ^ n
    → length front + 1 + n + length rest < 2 ^ 64
    → (read_byte (between front (b ∷ (le_bytes n x ++ rest)))
        ≡ some (b, between (front ++ (b ∷ [])) (le_bytes n x ++ rest)))
      × (read_le n (between (front ++ (b ∷ [])) (le_bytes n x ++ rest))
          ≡ some (x, between (front ++ (b ∷ le_bytes n x)) rest))
read_tagged n b x front rest hx h = (
  read_byte-between front (le_bytes n x ++ rest) b (omega (arith, lengths)),
  rw (append_assoc front (b ∷ []) (le_bytes n x)) at
      (read_le-between n x (front ++ (b ∷ [])) rest hx (omega (arith, lengths'))),
)
  where
    lengths : length (front ++ (b ∷ (le_bytes n x ++ rest))) ≡ length front + 1 + n + length rest
    lengths = omega (
      arith,
      length-append front (b ∷ (le_bytes n x ++ rest)),
      length-append (le_bytes n x) rest,
      length-le_bytes n x,
    )

    lengths' :
        length ((front ++ (b ∷ [])) ++ (le_bytes n x ++ rest)) ≡ length front + 1 + n + length rest
    lengths' = rw (append_assoc front (b ∷ []) (le_bytes n x ++ rest)) lengths

pub narrow_small : (bits x : ℕ) → x < 2 ^ bits → narrow_or_throw bits x ≡ some x
unfolding narrow_or_throw
narrow_small bits x h = rw (mod-eq_of_lt h) (ground arith)

pub read_var_int-compact_size :
    (bits x : ℕ) (check_max : Bool) (front rest : Bytes)
    → x < 2 ^ 64
    → narrow_or_throw bits x ≡ some x
    → (check_max && ltb max_compact_size x) ≡ false
    → length front + length (compact_size x) + length rest < 2 ^ 64
    → read_var_int bits check_max (between front (compact_size x ++ rest))
      ≡ some (x, between (front ++ compact_size x) rest)
unfolding read_var_int compact_size validate_compact_size
read_var_int-compact_size bits x check_max front rest hx hn hc h = ground (
  arith,
  read_byte-between front rest x,
  length-append front (x ∷ rest),
  length-le_bytes 2 x,
  length-le_bytes 4 x,
  length-le_bytes 8 x,
  read_tagged 2 0xFD x front rest,
  read_tagged 4 0xFE x front rest,
  read_tagged 8 0xFF x front rest,
)

pub length-compact_size : (x : ℕ) → length (compact_size x) ≤ 9
unfolding compact_size
length-compact_size x =
    ground (arith, length-le_bytes 2 x, length-le_bytes 4 x, length-le_bytes 8 x)

-- A CompactSize of a number below 2 ^ 64 that the writer appends to any buffer is read back as
-- the number, whatever bytes follow, and leaves the reader just behind it; with the size check
-- on, for a number of at most 0x02000000, and where the whole is shorter than 2 ^ 64 bytes.
pub read_var_int-write_var_int :
    (x : ℕ) (check_max : Bool) (buffer rest : Bytes)
    → x < 2 ^ 64
    → (check_max && ltb max_compact_size x) ≡ false
    → length buffer + 9 + length rest < 2 ^ 64
    → read_var_int 64 check_max
        (record { buffer = (write_var_int (at_end buffer) x).buffer ++ rest; pos = length buffer })
      ≡ some (
        x,
        record {
          buffer = (write_var_int (at_end buffer) x).buffer ++ rest;
          pos = (write_var_int (at_end buffer) x).pos;
        },
      )
read_var_int-write_var_int x check_max buffer rest hx hc h =
    rw (write_var_int-at_end buffer x, append_assoc buffer (compact_size x) rest)
      (rw (append_assoc buffer (compact_size x) rest) at (
        read_var_int-compact_size 64 x check_max buffer rest hx (narrow_small 64 x hx) hc
          (omega (arith, length-compact_size x))))

take_all : (xs : Bytes) (n : ℕ) → length xs ≤ n → take n xs ≡ xs
take_all [] zero h = refl
take_all [] (suc n) h = refl
take_all (x ∷ xs) zero h = absurd (omega arith)
take_all (x ∷ xs) (suc n) h = ap (◌∷◌ x) (take_all xs n (omega arith))

drop_all : (xs : Bytes) (n : ℕ) → length xs ≤ n → drop n xs ≡ []
drop_all [] zero h = refl
drop_all [] (suc n) h = refl
drop_all (x ∷ xs) zero h = absurd (omega arith)
drop_all (x ∷ xs) (suc n) h = drop_all xs n (omega arith)

length-insert_at :
    (buffer span : Bytes) (i : ℕ)
    → i ≤ length buffer
    → length (insert_at buffer i span) ≡ length buffer + length span
length-insert_at buffer span i h = omega (
  arith,
  length-append (take i buffer) (span ++ drop i buffer),
  length-append span (drop i buffer),
  length-take i buffer,
  length-drop i buffer,
)

length-overwrite_end :
    (buffer span : Bytes) (i : ℕ)
    → i ≤ length buffer
    → length buffer ≤ i + length span
    → length (take i buffer ++ (span ++ drop (i + length span) buffer)) ≡ i + length span
length-overwrite_end buffer span i h k = omega (
  arith,
  length-append (take i buffer) (span ++ drop (i + length span) buffer),
  length-append span (drop (i + length span) buffer),
  length-take i buffer,
  length-drop (i + length span) buffer,
)

-- The bytes up to the end are overwritten, and the rest of the span is appended.
overwrite_grow :
    (buffer span : Bytes) (i m : ℕ)
    → i + m ≡ length buffer
    → m ≤ length span
    → insert_at (overwrite buffer i (take m span)) (i + m) (drop m span)
      ≡ take i buffer ++ (span ++ drop (i + length span) buffer)
overwrite_grow buffer span i m h k = rw (
  drop_all buffer (i + length span) (omega arith),
  drop_all buffer (i + length (take m span)) (omega (arith, length-take m span)),
  take_all (take i buffer ++ (take m span ++ [])) (i + m) (omega (arith, whole)),
  drop_all (take i buffer ++ (take m span ++ [])) (i + m) (omega (arith, whole)),
  append-nil (take m span),
  append-nil (drop m span),
  append-nil span,
  append_assoc (take i buffer) (take m span) (drop m span),
  take-append-drop m span,
)
  where
    whole : length (take i buffer ++ (take m span ++ [])) ≡ i + m
    whole = omega (
      arith,
      length-append (take i buffer) (take m span ++ []),
      length-append (take m span) [],
      length-take i buffer,
      length-take m span,
    )

-- Wherever in the buffer or at its end the position of a writer stands, WriteBytes puts the span
-- there, over what stood in its way, keeps the bytes before and behind it, and moves the position
-- behind it; past the end of the buffer it grows the buffer.
write_bytes_lem :
    (w : Writer) (span : Bytes)
    → w.pos ≤ length w.buffer
    → write_bytes w span ≡ record {
      buffer = take w.pos w.buffer ++ (span ++ drop (w.pos + length span) w.buffer);
      pos = w.pos + length span;
    }
unfolding write_bytes
write_bytes_lem w span h = ground (
  arith,
  length-insert_at w.buffer span w.pos h,
  drop_all w.buffer w.pos,
  drop_all w.buffer (w.pos + length span),
  take_all span (length span) (omega arith),
  overwrite_grow w.buffer span w.pos (length w.buffer - w.pos),
  length-overwrite_end w.buffer span w.pos h,
)
