-- ===== src/Protocol/Transaction/Encode.antt =====
-- The bytes of a transaction: what Serialize writes, and how many they are.
use hornet.Common.{
  ◌+◌, ◌-◌, ◌^◌, ◌≤◌, ◌<◌, ◌≡◌, refl, ap, [], ◌∷◌, ◌++◌, length, length-append, Bytes, some, Bool,
  true, false, ◌==◌, if◌then◌else◌, arith,
}
use hornet.Encoding.Endian.{le_bytes}
use hornet.Encoding.Writer.{Writer, write_le, write_var_int, write_each}
use hornet.Encoding.Reader.{max_compact_size}
use hornet.Encoding.RoundTrip.{at_end}
use hornet.Encoding.Codec.{
  Appends, Appends-then, write_le-Appends, concat_map, All, write_each-Appends,
}
use hornet.Protocol.Transaction.{
  Transaction, is_witness, with_witness, write_input, write_output, write_witness, serialize,
}
use mathlib.Core.List.{append-nil}
use hornet.Protocol.Transaction.Parts.{
  encode_input, encode_output, encode_list, encode_witness, IsInput, IsOutput, IsWitness,
  input-Appends, output-Appends, list-Appends, witness-Appends,
}

abbrev pub marker_bytes : Bool → Bytes
marker_bytes witness = if witness then 0 ∷ 1 ∷ [] else []

abbrev pub witness_bytes : Bool → Transaction → Bytes
witness_bytes witness tx = if witness then concat_map encode_witness tx.witnesses else []

-- The bytes of a transaction, with the witness data or without.
abbrev pub encode : Bool → Transaction → Bytes
encode witness tx =
    le_bytes 4 tx.version
    ++ (marker_bytes witness
        ++ (encode_list encode_input tx.inputs
            ++ (encode_list encode_output tx.outputs
                ++ (witness_bytes witness tx ++ le_bytes 4 tx.lock_time))))

-- Fields and counts are in the ranges of the wire format, and there are inputs, and a witness for each
-- where there is one.
pub record IsSerializable (tx : Transaction) : Type 0 where
  pub some_inputs : 0 < length tx.inputs
  pub few_inputs : length tx.inputs ≤ max_compact_size
  pub few_outputs : length tx.outputs ≤ max_compact_size
  pub version_fits : tx.version < 2 ^ 32
  pub lock_time_fits : tx.lock_time < 2 ^ 32
  pub inputs_fit : All IsInput tx.inputs
  pub outputs_fit : All IsOutput tx.outputs
  pub witnesses_fit : All IsWitness tx.witnesses
  pub witness_for_each : is_witness tx ≡ true → length tx.witnesses ≡ length tx.inputs
  pub size_fits : length (encode (is_witness tx) tx) < 2 ^ 31

-- The steps of Serialize once the inputs are counted.
abbrev marker_part : Bool → Writer → Writer
marker_part witness w = if witness then write_le 2 w 0x0100 else w

abbrev inputs_part : Transaction → Writer → Writer
inputs_part tx w = write_each write_input (write_var_int w (length tx.inputs)) tx.inputs

abbrev outputs_part : Transaction → Writer → Writer
outputs_part tx w = write_each write_output (write_var_int w (length tx.outputs)) tx.outputs

abbrev witness_part : Bool → Transaction → Writer → Writer
witness_part witness tx w = if witness then write_each write_witness w tx.witnesses else w

nothing-Appends : Appends (λ w. w) []
nothing-Appends buffer = rw (append-nil buffer) refl

witness_part-Appends :
    (witness : Bool) (tx : Transaction)
    → Appends (witness_part witness tx) (witness_bytes witness tx)
witness_part-Appends true tx =
    write_each-Appends write_witness encode_witness witness-Appends tx.witnesses
witness_part-Appends false tx = nothing-Appends

marker_part-Appends : (witness : Bool) → Appends (marker_part witness) (marker_bytes witness)
unfolding le_bytes
marker_part-Appends true = write_le-Appends 2 0x0100
marker_part-Appends false = nothing-Appends

fields-Appends :
    (witness : Bool) (tx : Transaction)
    → Appends
        (λ w.
          write_le 4
            (witness_part witness tx
              (outputs_part tx (inputs_part tx (marker_part witness (write_le 4 w tx.version)))))
            tx.lock_time)
        (encode witness tx)
fields-Appends witness tx =
    let lock = λ (w : Writer). write_le 4 w tx.lock_time in
    let version = λ (w : Writer). write_le 4 w tx.version in
    let from_witness = λ (w : Writer). lock (witness_part witness tx w) in
    let from_outputs = λ (w : Writer). from_witness (outputs_part tx w) in
    let from_inputs = λ (w : Writer). from_outputs (inputs_part tx w) in
    let from_marker = λ (w : Writer). from_inputs (marker_part witness w) in
    Appends-then version from_marker _ _ (write_le-Appends 4 tx.version) (
      Appends-then (marker_part witness) from_inputs _ _ (marker_part-Appends witness) (
        Appends-then (inputs_part tx) from_outputs _ _
          (list-Appends write_input encode_input input-Appends tx.inputs)
          (Appends-then (outputs_part tx) from_witness _ _
            (list-Appends write_output encode_output output-Appends tx.outputs)
            (Appends-then (witness_part witness tx) lock _ _ (witness_part-Appends witness tx)
              (write_le-Appends 4 tx.lock_time)))))

pub serialize-encode :
    (tx : Transaction) (include_witness : Bool) (buffer : Bytes)
    → 0 < length tx.inputs
    → serialize (at_end buffer) tx include_witness
      ≡ some (at_end (buffer ++ encode (with_witness tx include_witness) tx))
unfolding serialize
serialize-encode tx include_witness buffer some_inputs =
    let written = fields-Appends (with_witness tx include_witness) tx buffer in
    let counted : (length tx.inputs == 0) ≡ false = ground arith in rw counted (ap some written)

pub with_witness-true : (tx : Transaction) → with_witness tx true ≡ is_witness tx
unfolding with_witness
with_witness-true tx = ground arith

pub with_witness-false : (tx : Transaction) → with_witness tx false ≡ false
unfolding with_witness
with_witness-false tx = ground arith

-- The sizes that Deserialize takes from its positions.
length_six :
    (a b c d e f : Bytes)
    → length (a ++ (b ++ (c ++ (d ++ (e ++ f)))))
      ≡ length a + (length b + (length c + (length d + (length e + length f))))
length_six a b c d e f = simp length-append

pub witness_size_lem :
    (witness : Bool) (tx : Transaction) (front : Bytes)
    → (if witness then 2 + (length (front ++ witness_bytes witness tx) - length front) else 0)
      ≡ length (encode witness tx) - length (encode false tx)
witness_size_lem true tx front =
    let wits = witness_bytes true tx in
    let behind = length-append front wits in
    let ins = encode_list encode_input tx.inputs in
    let outs = encode_list encode_output tx.outputs in
    let version = le_bytes 4 tx.version in
    let lock = le_bytes 4 tx.lock_time in
    omega (
      arith,
      behind,
      length_six version (0 ∷ 1 ∷ []) ins outs wits lock,
      length_six version [] ins outs [] lock,
    )
witness_size_lem false tx front = omega arith

pub base_smaller :
    (witness : Bool) (tx : Transaction) → length (encode false tx) ≤ length (encode witness tx)
base_smaller true tx =
    let ins = encode_list encode_input tx.inputs in
    let outs = encode_list encode_output tx.outputs in
    let version = le_bytes 4 tx.version in
    let lock = le_bytes 4 tx.lock_time in
    omega (
      arith,
      length_six version (0 ∷ 1 ∷ []) ins outs (witness_bytes true tx) lock,
      length_six version [] ins outs [] lock,
    )
base_smaller false tx = omega arith

pub base_size_lem :
    (witness : Bool) (tx : Transaction) (front : Bytes)
    → length (front ++ encode witness tx)
        - length front
        - (length (encode witness tx) - length (encode false tx))
      ≡ length (encode false tx)
base_size_lem witness tx front =
    omega (arith, length-append front (encode witness tx), base_smaller witness tx)
