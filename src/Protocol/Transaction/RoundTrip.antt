-- ===== src/Protocol/Transaction/RoundTrip.antt =====
-- What Deserialize makes of the bytes of a transaction.
use hornet.Common.{
  ℕ, suc, ◌+◌, ◌-◌, ◌^◌, ◌<◌, ◌≡◌, refl, sym, ap, ◌∙◌, List, [], ◌∷◌, ◌++◌, length, length-append,
  Bytes, some, Bool, true, false, ltb, leb, ◌==◌, if◌then◌else◌, Bool-cases, inl, inr, arith,
}
use hornet.Common.Int.{ℤ, pos, ◌-ℤ◌}
use hornet.Common.Int32.{int_result, int_result_sum, int_result_difference}
use hornet.Encoding.Endian.{le_bytes, to_int, to_int_small}
use hornet.Encoding.Writer.{empty}
use hornet.Encoding.Reader.{Read, ◌>>=◌, ◌>>◌, return, throw, get_pos, seek, read_byte, read_le}
use hornet.Encoding.RoundTrip.{between, at_end, compact_size}
use hornet.Encoding.Codec.{
  ReadsAt, Reads, return-Reads, bind_step, bind-ReadsAt, get_pos-ReadsAt, checked-ReadsAt,
  or_throw-ReadsAt, read_le-Reads, read_byte-Reads, concat_map, read_each-Reads,
}
use hornet.Protocol.Transaction.{Witness, Transaction, is_witness, serialize}
use hornet.Protocol.Transaction.Deserialize.{
  read_input, read_output, read_witness, read_marker, read_inputs, read_outputs, read_witnesses,
  witness_size_bytes, deserialize_body, deserialize,
}
use mathlib.Core.Path.{subst}
use mathlib.Core.List.{append-nil, append_assoc}
use hornet.Protocol.Transaction.Parts.{
  encode_input, encode_output, encode_list, encode_witness, IsInput, IsOutput, IsWitness,
  list-Reads, input-Reads, output-Reads, witness-Reads,
}
use hornet.Protocol.Transaction.Encode.{
  marker_bytes, witness_bytes, encode, IsSerializable, serialize-encode, with_witness-true,
  with_witness-false, witness_size_lem, base_size_lem,
}

inputs-Reads :
    (tx : Transaction)
    → IsSerializable tx
    → Reads read_inputs (encode_list encode_input tx.inputs) tx.inputs
unfolding read_inputs
inputs-Reads tx h =
    list-Reads read_input encode_input IsInput input-Reads tx.inputs h.few_inputs h.inputs_fit

outputs-Reads :
    (tx : Transaction)
    → IsSerializable tx
    → Reads read_outputs (encode_list encode_output tx.outputs) tx.outputs
unfolding read_outputs
outputs-Reads tx h =
    list-Reads read_output encode_output IsOutput output-Reads tx.outputs h.few_outputs
      h.outputs_fit

no_witnesses : (ws : List Witness) → elim ws [ [] ↦ false | w ∷ rest ↦ true ] ≡ false → ws ≡ []
no_witnesses [] e = refl
no_witnesses (w ∷ ws) e = ground arith

witnesses-Reads :
    (witness : Bool) (tx : Transaction)
    → IsSerializable tx
    → is_witness tx ≡ witness
    → Reads (read_witnesses witness (length tx.inputs)) (witness_bytes witness tx) tx.witnesses
unfolding read_witnesses is_witness
witnesses-Reads true tx h e = rw (sym (h.witness_for_each e)) (
    read_each-Reads read_witness encode_witness IsWitness witness-Reads tx.witnesses
      h.witnesses_fit)
witnesses-Reads false tx h e = rw (no_witnesses tx.witnesses e) (return-Reads [])

-- What the body returns from the bytes behind `front`, where the transaction starts at `start`.
body-ReadsAt :
    (start : ℕ) (witness : Bool) (tx : Transaction) (front : Bytes)
    → IsSerializable tx
    → is_witness tx ≡ witness
    → let ins = encode_list encode_input tx.inputs in
      let outs = encode_list encode_output tx.outputs in
      let wits = witness_bytes witness tx in
      let whole = (((front ++ ins) ++ outs) ++ wits) ++ le_bytes 4 tx.lock_time in
      (witness_size size : ℤ)
      → witness_size_bytes witness
          (length ((front ++ ins) ++ outs))
          (length (((front ++ ins) ++ outs) ++ wits))
        ≡ some witness_size
      → int_result (to_int (length whole - start) -ℤ witness_size) ≡ some size
      → ReadsAt front
          (deserialize_body start tx.version witness)
          (ins ++ (outs ++ (wits ++ le_bytes 4 tx.lock_time)))
          (record tx { no_witness_size_bytes = size }, witness_size)
unfolding deserialize_body
body-ReadsAt start witness tx front h e witness_size size counted sized =
    let ins = encode_list encode_input tx.inputs in
    let outs = encode_list encode_output tx.outputs in
    let wits = witness_bytes witness tx in
    let lock = le_bytes 4 tx.lock_time in
    bind-ReadsAt read_inputs _ front ins _ tx.inputs _ (inputs-Reads tx h front) (
      bind-ReadsAt read_outputs _ (front ++ ins) outs _ tx.outputs _
        (outputs-Reads tx h (front ++ ins))
        (get_pos-ReadsAt _ ((front ++ ins) ++ outs) _ _ (
          bind-ReadsAt (read_witnesses witness (length tx.inputs)) _ ((front ++ ins) ++ outs) wits _
            tx.witnesses _ (witnesses-Reads witness tx h e ((front ++ ins) ++ outs))
            (get_pos-ReadsAt _ (((front ++ ins) ++ outs) ++ wits) _ _ (
              or_throw-ReadsAt _ _ ((((front ++ ins) ++ outs) ++ wits)) lock witness_size _ counted
                (checked-ReadsAt (read_le 4) _ ((((front ++ ins) ++ outs) ++ wits)) lock
                  tx.lock_time _ (read_le-Reads 4 tx.lock_time (omega (arith, h.lock_time_fits)) _)
                  (rw sized refl)))))))

-- The two bytes of the flag are taken where they stand, and nothing where a count of inputs does.
marker_flag : (front : Bytes) → ReadsAt front read_marker (marker_bytes true) true
unfolding read_marker
marker_flag front rest h =
    let after = length-append front (0 ∷ []) in
    let first = read_byte-Reads 0 front (1 ∷ rest) (omega arith) in
    let second = read_byte-Reads 1 (front ++ (0 ∷ [])) rest (omega (arith, after)) in
    bind_step read_byte _ _ _ 0 first
    ∙ (bind_step read_byte _ _ _ 1 second ∙ rw (append_assoc front (0 ∷ []) (1 ∷ [])) refl)

compact_size_head :
    (n : ℕ) → 0 < n → (b : ℕ) × (tail : Bytes) × (compact_size n ≡ b ∷ tail) × (0 < b)
unfolding compact_size
compact_size_head n h = elim (Bool-cases (ltb n 0xFD)) [
  | inl e ↦ (n, [], rw e refl, h)
  | inr e ↦ elim (Bool-cases (leb n 0xFFFF)) [
    | inl e2 ↦ (0xFD, le_bytes 2 n, rw (e, e2) refl, omega arith)
    | inr e2 ↦ elim (Bool-cases (leb n 0xFFFF_FFFF)) [
      | inl e4 ↦ (0xFE, le_bytes 4 n, rw (e, e2, e4) refl, omega arith)
      | inr e4 ↦ (0xFF, le_bytes 8 n, rw (e, e2, e4) refl, omega arith)
    ]
  ]
]

seek_back :
    (front rest : Bytes) (b : ℕ)
    → seek (length (front ++ (b ∷ [])) - 1) (between (front ++ (b ∷ [])) rest)
      ≡ some (tt, between front (b ∷ rest))
unfolding seek
seek_back front rest b = ground (
  arith,
  append_assoc front (b ∷ []) rest,
  length-append front (b ∷ rest),
  length-append front (b ∷ []),
)

-- Without the flag, the reader is left where it stood.
marker_count :
    (front rest : Bytes) (b : ℕ)
    → 0 < b
    → length front + suc (length rest) < 2 ^ 64
    → read_marker (between front (b ∷ rest)) ≡ some (false, between front (b ∷ rest))
unfolding read_marker get_pos
marker_count front rest b h few =
    let flag : Read Bool = read_byte >>= λ second. if second == 1 then return true else throw in
    let count : Read Bool = get_pos >>= λ pos. seek (pos - 1) >> return false in
    let at = between (front ++ (b ∷ [])) rest in
    let other : (b == 0) ≡ false = ground arith in
    bind_step read_byte _ _ at b (read_byte-Reads b front rest (omega arith))
    ∙ (ap (λ t. (if t then flag else count) at) other
        ∙ bind_step (seek (length (front ++ (b ∷ [])) - 1)) (λ _. return false) at _ tt
            (seek_back front rest b))

skip_marker :
    {B : Type 0} (f : Bool → Read B) (front cs tail : Bytes) (b : ℕ) (v : B)
    → cs ≡ b ∷ tail
    → 0 < b
    → ReadsAt front (f false) cs v
    → ReadsAt front (read_marker >>= f) cs v
skip_marker f front cs tail b v e h hf rest few =
    let size : length cs ≡ suc (length tail) = rw e refl in
    let sizes = length-append tail rest in
    let stays : read_marker (between front (cs ++ rest))
        ≡ some (false, between front (cs ++ rest)) =
      rw e (marker_count front (tail ++ rest) b h (omega (arith, size, sizes, few))) in
    bind_step read_marker f _ _ false stays ∙ hf rest few

-- The marker where it stands, and the count of the inputs, which is not zero, where it does not.
marker-ReadsAt :
    {B : Type 0} (witness : Bool) (tx : Transaction) (front b : Bytes)
    → 0 < length tx.inputs
    → (f : Bool → Read B) (v : B)
    → ReadsAt
        (front ++ marker_bytes witness)
        (f witness)
        (encode_list encode_input tx.inputs ++ b)
        v
    → ReadsAt front
        (read_marker >>= f)
        (marker_bytes witness ++ (encode_list encode_input tx.inputs ++ b))
        v
marker-ReadsAt true tx front b some_inputs f v hf =
    bind-ReadsAt read_marker f front _ _ true v (marker_flag front) hf
marker-ReadsAt false tx front b some_inputs f v hf =
    let (b0, tail, e, positive) = compact_size_head (length tx.inputs) some_inputs in
    let inputs = concat_map encode_input tx.inputs in
    skip_marker f front ((compact_size (length tx.inputs) ++ inputs) ++ b) ((tail ++ inputs) ++ b)
      b0 v (rw e refl) positive
      (subst (λ front'. ReadsAt front' (f false) (encode_list encode_input tx.inputs ++ b) v)
        (append-nil front) hf)

append_six :
    (front a b c d e f : Bytes)
    → (((((front ++ a) ++ b) ++ c) ++ d) ++ e) ++ f ≡ front ++ (a ++ (b ++ (c ++ (d ++ (e ++ f)))))
append_six front a b c d e f = simp append_assoc

witness_size_bytes-length :
    (witness : Bool) (tx : Transaction) (front : Bytes)
    → length (encode witness tx) < 2 ^ 31
    → witness_size_bytes witness (length front) (length (front ++ witness_bytes witness tx))
      ≡ some (pos (length (encode witness tx) - length (encode false tx)))
witness_size_bytes-length true tx front few =
    let size = length (front ++ witness_bytes true tx) - length front in
    let sum = witness_size_lem true tx front in
    rw (to_int_small size (omega (arith, sum))) (int_result_sum 2 size (omega (arith, sum)))
    ∙ ap (λ n. some (pos n)) sum
witness_size_bytes-length false tx front few =
    ap (λ n. some (pos n)) (witness_size_lem false tx front)

base_size-length :
    (witness : Bool) (tx : Transaction) (front : Bytes)
    → length (encode witness tx) < 2 ^ 31
    → int_result (
        to_int (length (front ++ encode witness tx) - length front)
        -ℤ pos (length (encode witness tx) - length (encode false tx)))
      ≡ some (pos (length (encode false tx)))
base_size-length witness tx front few =
    let size = length (front ++ encode witness tx) - length front in
    let part = length (encode witness tx) - length (encode false tx) in
    let appended = length-append front (encode witness tx) in
    rw (to_int_small size (omega (arith, appended))) (
      int_result_difference size part (omega (arith, appended)) (omega arith)
        (omega (arith, appended)))
    ∙ ap (λ n. some (pos n)) (base_size_lem witness tx front)

-- Where the bytes of a transaction are, behind others, Deserialize returns its fields, the size of its
-- bytes without the witness data, and the size of those.
pub deserialize-ReadsAt :
    (tx : Transaction) (front : Bytes)
    → IsSerializable tx
    → ReadsAt front deserialize (encode (is_witness tx) tx) (
      record tx { no_witness_size_bytes = pos (length (encode false tx)) },
      pos (length (encode (is_witness tx) tx) - length (encode false tx)),
    )
unfolding deserialize
deserialize-ReadsAt tx front h =
    let witness = is_witness tx in
    let ins = encode_list encode_input tx.inputs in
    let outs = encode_list encode_output tx.outputs in
    let wits = witness_bytes witness tx in
    let lock = le_bytes 4 tx.lock_time in
    let whole =
      append_six front (le_bytes 4 tx.version) (marker_bytes witness) ins outs wits lock in
    let front3 = (front ++ le_bytes 4 tx.version) ++ marker_bytes witness in
    get_pos-ReadsAt _ front _ _ (
      bind-ReadsAt (read_le 4) _ front (le_bytes 4 tx.version) _ tx.version _
        (read_le-Reads 4 tx.version (omega (arith, h.version_fits)) front)
        (marker-ReadsAt witness tx (front ++ le_bytes 4 tx.version) _ h.some_inputs _ _ (
          body-ReadsAt (length front) witness tx front3 h refl _ _
            (witness_size_bytes-length witness tx ((front3 ++ ins) ++ outs) h.size_fits)
            (rw whole (base_size-length witness tx front h.size_fits)))))

-- A transaction with inputs, whose counts are at most 2^25, whose hashes have 32 bytes, whose other
-- fields fit their widths, whose witnesses, if any, are one for each input, and whose bytes with the
-- witness data are fewer than 2^31: Serialize succeeds and appends the bytes of the wire format, with
-- the witness data and without; and Deserialize, at those bytes in any buffer of less than 2^64 bytes,
-- returns the same fields, the size of the bytes without the witness data and the size of the witness
-- data, both as an int, and stops behind the transaction.
pub deserialize-serialize :
    (tx : Transaction) (front rest : Bytes)
    → IsSerializable tx
    → length front + length (encode (is_witness tx) tx) + length rest < 2 ^ 64
    → (serialize (at_end front) tx true ≡ some (at_end (front ++ encode (is_witness tx) tx)))
      × (serialize empty tx false ≡ some (at_end (encode false tx)))
      × (deserialize (between front (encode (is_witness tx) tx ++ rest))
          ≡ some (
            (
              record tx { no_witness_size_bytes = pos (length (encode false tx)) },
              pos (length (encode (is_witness tx) tx) - length (encode false tx)),
            ),
            between (front ++ encode (is_witness tx) tx) rest,
          ))
deserialize-serialize tx front rest h few = (
  rw (sym (with_witness-true tx)) (serialize-encode tx true front h.some_inputs),
  subst (λ flag. serialize empty tx false ≡ some (at_end (encode flag tx))) (with_witness-false tx)
      (serialize-encode tx false [] h.some_inputs),
  deserialize-ReadsAt tx front h rest few,
)
