-- ===== src/Protocol/Transaction/Parts.antt =====
-- The bytes of the parts of a transaction, and what is read back from them.
use hornet.Common.{◌^◌, ◌≤◌, ◌<◌, ◌≡◌, refl, List, ◌++◌, length, Bytes, true, arith}
use hornet.Common.Int.{ℤ, pos, negsuc}
use hornet.Encoding.Endian.{le_bytes, to_unsigned, to_signed}
use hornet.Encoding.Writer.{Writer, write_bytes, write_le, write_var_int, write_each}
use hornet.Encoding.Reader.{
  Read, ◌>>=◌, read_bytes, read_le, read_var_int, read_each, max_compact_size,
}
use hornet.Encoding.RoundTrip.{compact_size}
use hornet.Encoding.Codec.{
  Appends, Appends-then, Reads, bind-Reads, read_bytes-Reads, read_le-Reads, read_var_int-Reads,
  map-Reads, write_bytes-Appends, write_le-Appends, write_var_int-Appends, concat_map, All,
  write_each-Appends, read_each-Reads,
}
use hornet.Protocol.Transaction.{
  OutPoint, Input, Output, Witness, write_out_point, write_script, write_input, write_output,
  write_witness,
}
use hornet.Protocol.Transaction.Deserialize.{
  read_out_point, read_script, read_input, read_output, read_witness,
}
use mathlib.Core.Path.{subst}

-- The bytes of the parts.
abbrev pub encode_script : Bytes → Bytes
encode_script s = compact_size (length s) ++ s

abbrev pub encode_out_point : OutPoint → Bytes
encode_out_point p = p.hash ++ le_bytes 4 p.index

abbrev pub encode_input : Input → Bytes
encode_input i =
    encode_out_point i.previous_output
    ++ (encode_script i.signature_script ++ le_bytes 4 i.sequence)

abbrev pub encode_output : Output → Bytes
encode_output o = le_bytes 8 (to_unsigned 64 o.value) ++ encode_script o.pk_script

abbrev pub encode_list : {A : Type 0} → (A → Bytes) → List A → Bytes
encode_list encode xs = compact_size (length xs) ++ concat_map encode xs

abbrev pub encode_witness : Witness → Bytes
encode_witness = encode_list encode_script

-- What the fields of the parts are limited to.
abbrev pub IsScript : Bytes → Type 0
IsScript s = length s ≤ max_compact_size

abbrev pub IsOutPoint : OutPoint → Type 0
IsOutPoint p = (length p.hash ≡ 32) × (p.index < 2 ^ 32)

abbrev pub IsInput : Input → Type 0
IsInput i = IsOutPoint i.previous_output × IsScript i.signature_script × (i.sequence < 2 ^ 32)

abbrev pub IsInt64 : ℤ → Type 0
IsInt64 (pos n) = n < 2 ^ 63
IsInt64 (negsuc n) = n < 2 ^ 63

abbrev pub IsOutput : Output → Type 0
IsOutput o = IsInt64 o.value × IsScript o.pk_script

abbrev pub IsWitness : Witness → Type 0
IsWitness w = (length w ≤ max_compact_size) × All IsScript w

pub script-Reads : (s : Bytes) → IsScript s → Reads read_script (encode_script s) s
unfolding read_script
script-Reads s h =
    bind-Reads (read_var_int 31 true) read_bytes (compact_size (length s)) s (length s) s
      (read_var_int-Reads 31 (length s) (omega arith) h) (read_bytes-Reads (length s) s refl)

pub out_point-Reads : (p : OutPoint) → IsOutPoint p → Reads read_out_point (encode_out_point p) p
unfolding read_out_point
out_point-Reads p h =
    bind-Reads (read_bytes 32) _ p.hash (le_bytes 4 p.index) p.hash p
      (read_bytes-Reads 32 p.hash h.0)
      (map-Reads (read_le 4) (λ index. record { hash = p.hash; index = index }) (le_bytes 4 p.index)
        p.index (read_le-Reads 4 p.index (omega (arith, h.1))))

pub input-Reads : (i : Input) → IsInput i → Reads read_input (encode_input i) i
unfolding read_input
input-Reads i h =
    let point = i.previous_output in
    let script = i.signature_script in
    bind-Reads read_out_point _ (encode_out_point point) _ point i (out_point-Reads point h.0) (
      bind-Reads read_script _ (encode_script script) _ script i (script-Reads script h.1) (
        map-Reads (read_le 4)
          (λ sequence. record {
            previous_output = point;
            signature_script = script;
            sequence = sequence;
          })
          (le_bytes 4 i.sequence) i.sequence (read_le-Reads 4 i.sequence (omega (arith, h.2)))))

pub to_signed-to_unsigned : (v : ℤ) → IsInt64 v → to_signed 64 (to_unsigned 64 v) ≡ v
to_signed-to_unsigned (pos n) h = ground arith
to_signed-to_unsigned (negsuc n) h = ground arith

pub to_unsigned-bounded : (v : ℤ) → to_unsigned 64 v < 2 ^ 64
to_unsigned-bounded (pos n) = omega arith
to_unsigned-bounded (negsuc n) = omega arith

pub output-Reads : (o : Output) → IsOutput o → Reads read_output (encode_output o) o
unfolding read_output
output-Reads o h =
    let bits = to_unsigned 64 o.value in
    let script = o.pk_script in
    let same = to_signed-to_unsigned o.value h.0 in
    let whole : Bytes → Output = λ s. record { value = to_signed 64 bits; pk_script = s } in
    let read =
      map-Reads read_script whole (encode_script script) script (script-Reads script h.1) in
    subst
      (λ (v : ℤ). Reads read_output (encode_output o) (record { value = v; pk_script = script }))
      same
      (bind-Reads (read_le 8) _ (le_bytes 8 bits) (encode_script script) bits (whole script)
        (read_le-Reads 8 bits (omega (arith, to_unsigned-bounded o.value))) read)

pub list-Reads :
    {A : Type 0} (read : Read A) (encode : A → Bytes) (P : A → Type 0)
    → ((x : A) → P x → Reads read (encode x) x)
    → (xs : List A) → length xs ≤ max_compact_size
    → All P xs
    → Reads (read_var_int 64 true >>= λ n. read_each read n) (encode_list encode xs) xs
list-Reads read encode P h xs few all =
    bind-Reads (read_var_int 64 true) _ (compact_size (length xs)) (concat_map encode xs)
      (length xs) xs (read_var_int-Reads 64 (length xs) (omega (arith, few)) few)
      (read_each-Reads read encode P h xs all)

pub witness-Reads : (w : Witness) → IsWitness w → Reads read_witness (encode_witness w) w
unfolding read_witness
witness-Reads w h =
    bind-Reads (read_var_int 31 true) _ (compact_size (length w)) _ (length w) w
      (read_var_int-Reads 31 (length w) (omega (arith, h.0)) h.0)
      (read_each-Reads read_script encode_script IsScript script-Reads w h.1)

pub script-Appends : (s : Bytes) → Appends (λ w. write_script w s) (encode_script s)
unfolding write_script
script-Appends s =
    Appends-then (λ w. write_var_int w (length s)) (λ w. write_bytes w s) _ s
      (write_var_int-Appends (length s)) (write_bytes-Appends s)

out_point-Appends : (p : OutPoint) → Appends (λ w. write_out_point w p) (encode_out_point p)
unfolding write_out_point
out_point-Appends p =
    Appends-then (λ w. write_bytes w p.hash) (λ w. write_le 4 w p.index) p.hash _
      (write_bytes-Appends p.hash) (write_le-Appends 4 p.index)

pub input-Appends : (i : Input) → Appends (λ w. write_input w i) (encode_input i)
unfolding write_input
input-Appends i =
    Appends-then (λ w. write_out_point w i.previous_output)
      (λ w. write_le 4 (write_script w i.signature_script) i.sequence) _ _
      (out_point-Appends i.previous_output)
      (Appends-then (λ w. write_script w i.signature_script) (λ w. write_le 4 w i.sequence) _ _
        (script-Appends i.signature_script) (write_le-Appends 4 i.sequence))

pub output-Appends : (o : Output) → Appends (λ w. write_output w o) (encode_output o)
unfolding write_output
output-Appends o =
    Appends-then (λ w. write_le 8 w (to_unsigned 64 o.value)) (λ w. write_script w o.pk_script) _ _
      (write_le-Appends 8 (to_unsigned 64 o.value)) (script-Appends o.pk_script)

pub list-Appends :
    {A : Type 0} (write : Writer → A → Writer) (encode : A → Bytes)
    → ((x : A) → Appends (λ w. write w x) (encode x))
    → (xs : List A)
    → Appends (λ w. write_each write (write_var_int w (length xs)) xs) (encode_list encode xs)
list-Appends write encode h xs =
    Appends-then (λ w. write_var_int w (length xs)) (λ w. write_each write w xs) _ _
      (write_var_int-Appends (length xs)) (write_each-Appends write encode h xs)

pub witness-Appends : (v : Witness) → Appends (λ w. write_witness w v) (encode_witness v)
unfolding write_witness
witness-Appends v = list-Appends write_script encode_script script-Appends v
