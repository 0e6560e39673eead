-- ===== src/Encoding/Writer.antt =====
-- src/hornetlib/encoding/writer.h: a growing buffer with a seek position.
-- The iterator `pos_` is the index `pos`; a write before the end overwrites what stands there.
use hornet.Common.{
  ℕ, ◌+◌, ◌-◌, List, [], ◌∷◌, ◌++◌, length, take, drop, Bytes, ltb, leb, ◌==◌, if◌then◌else◌, Bool,
  replicate,
}
use hornet.Encoding.Endian.{le_bytes}
use Prim.Native.Nat.{min}

pub record Writer : Type 0 where
  pub buffer : Bytes
  pub pos : ℕ

abbrev pub empty : Writer
empty = record { buffer = []; pos = 0 }

unfoldable pub write_byte : Writer → ℕ → Writer
write_byte w byte =
    if w.pos == length w.buffer
    then record { buffer = w.buffer ++ (byte ∷ []); pos = w.pos + 1 }
    else record {
      buffer = take w.pos w.buffer ++ (byte ∷ drop (w.pos + 1) w.buffer);
      pos = w.pos + 1;
    }

-- `std::copy_n` over the bytes behind the position.
abbrev pub overwrite : Bytes → ℕ → Bytes → Bytes
overwrite buffer pos span = take pos buffer ++ (span ++ drop (pos + length span) buffer)

-- `vector::insert` at a position.
abbrev pub insert_at : Bytes → ℕ → Bytes → Bytes
insert_at buffer pos span = take pos buffer ++ (span ++ drop pos buffer)

unfoldable pub write_bytes : Writer → Bytes → Writer
write_bytes w span =
    if w.pos == length w.buffer
    then record {
      buffer = insert_at w.buffer w.pos span;
      pos = length (insert_at w.buffer w.pos span);
    }
    else (let to_write = min (length w.buffer - w.pos) (length span) in
        let buffer = overwrite w.buffer w.pos (take to_write span) in
        let pos = w.pos + to_write in
        if ltb to_write (length span)
        then record {
          buffer = insert_at buffer pos (drop to_write span);
          pos = length (insert_at buffer pos (drop to_write span));
        }
        else record { buffer = buffer; pos = pos })

-- WriteLE of a `size`-byte unsigned integer.
unfoldable pub write_le : ℕ → Writer → ℕ → Writer
write_le size w value = write_bytes w (le_bytes size value)

abbrev pub write_le2 : Writer → ℕ → Writer
write_le2 = write_le 2

abbrev pub write_le4 : Writer → ℕ → Writer
write_le4 = write_le 4

abbrev pub write_le8 : Writer → ℕ → Writer
write_le8 = write_le 8

unfoldable pub write_bool : Writer → Bool → Writer
write_bool w flag = write_byte w (if flag then 1 else 0)

unfoldable pub write_var_int : Writer → ℕ → Writer
write_var_int w x =
    if ltb x 0xFD
    then write_byte w x
    else if leb x 0xFFFF
    then write_le 2 (write_byte w 0xFD) x
    else if leb x 0xFFFF_FFFF
    then write_le 4 (write_byte w 0xFE) x
    else write_le 8 (write_byte w 0xFF) x

unfoldable pub write_var_string : Writer → Bytes → Writer
write_var_string w s = write_bytes (write_var_int w (length s)) s

-- The string cut to `n` bytes, or padded by zero bytes.
unfoldable pub write_zero_padded_string : ℕ → Writer → Bytes → Writer
write_zero_padded_string n w s =
    write_bytes w (take (min (length s) n) s ++ replicate (n - min (length s) n) 0)

unfoldable pub seek_pos : Writer → ℕ → Writer
seek_pos w offset = record w { pos = offset }

unfoldable pub clear : Writer → Writer
clear w = empty

-- A loop that writes each element in turn.
unfoldable pub write_each {ℓ} : {A : Type ℓ} → (Writer → A → Writer) → Writer → List A → Writer
write_each write w [] = w
write_each write w (x ∷ xs) = write_each write (write w x) xs
