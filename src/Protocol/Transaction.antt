-- ===== src/Protocol/Transaction.antt =====
-- src/hornetlib/protocol/{transaction,txid}.h: transactions, their serialized bytes and identifiers.
-- The flat arrays of TransactionData and the SubArray slices of TransactionDetail are read together,
-- as TransactionViewT does, so a transaction holds its inputs, outputs and witnesses as lists.
pub mod Deserialize
pub mod Parts
pub mod Encode
pub mod RoundTrip
use hornet.Common.{
  ℕ, List, [], ◌∷◌, Option, none, some, Bool, true, false, ◌&&◌, ltb, ◌==◌, if◌then◌else◌, length,
  Bytes, bytes_eq, bytes_lt, replicate,
}
use hornet.Common.Int.{ℤ}
use hornet.Encoding.Endian.{to_unsigned}
use hornet.Encoding.Writer.{Writer, empty, write_bytes, write_le, write_var_int, write_each}

-- A hash is 32 bytes, the lowest first.
abbrev pub Hash : Type 0
Hash = Bytes

abbrev pub null_hash : Hash
null_hash = replicate 32 0

abbrev pub hash_is_null : Hash → Bool
hash_is_null h = bytes_eq h null_hash

pub record OutPoint : Type 0 where
  pub hash : Hash
  pub index : ℕ

abbrev pub null_index : ℕ
null_index = 0xFFFF_FFFF

abbrev pub null_out_point : OutPoint
null_out_point = record { hash = null_hash; index = null_index }

unfoldable pub out_point_is_null : OutPoint → Bool
out_point_is_null p = hash_is_null p.hash && (p.index == null_index)

-- The defaulted comparison: by the hash, then by the index.
unfoldable pub out_point_lt : OutPoint → OutPoint → Bool
out_point_lt a b =
    if bytes_lt a.hash b.hash
    then true
    else (if bytes_lt b.hash a.hash then false else ltb a.index b.index)

unfoldable pub out_point_eq : OutPoint → OutPoint → Bool
out_point_eq a b = bytes_eq a.hash b.hash && (a.index == b.index)

pub record Input : Type 0 where
  pub previous_output : OutPoint
  pub signature_script : Bytes
  pub sequence : ℕ

pub record Output : Type 0 where
  pub value : ℤ
  pub pk_script : Bytes

-- A witness is a list of components, one for each item of the input's witness stack.
abbrev pub Witness : Type 0
Witness = List Bytes

pub record Transaction : Type 0 where
  pub version : ℕ
  pub inputs : List Input
  pub outputs : List Output
  pub witnesses : List Witness
  pub lock_time : ℕ
  -- The bytes that Deserialize counted, without the witness data.
  pub no_witness_size_bytes : ℤ

unfoldable pub is_witness : Transaction → Bool
is_witness tx = elim tx.witnesses [ [] ↦ false | w ∷ ws ↦ true ]

-- `InputCount() == 1 && Input(0).previous_output.IsNull()`.
unfoldable pub is_coin_base_inputs : List Input → Bool
unfolding out_point_is_null
is_coin_base_inputs [] = false
is_coin_base_inputs (input ∷ []) = out_point_is_null input.previous_output
is_coin_base_inputs (input ∷ (next ∷ rest)) = false

unfoldable pub is_coin_base : Transaction → Bool
unfolding is_coin_base_inputs
is_coin_base tx = is_coin_base_inputs tx.inputs

unfoldable pub write_out_point : Writer → OutPoint → Writer
write_out_point w p = write_le 4 (write_bytes w p.hash) p.index

unfoldable pub write_script : Writer → Bytes → Writer
write_script w script = write_bytes (write_var_int w (length script)) script

unfoldable pub write_input : Writer → Input → Writer
unfolding write_out_point write_script
write_input w input =
    write_le 4 (write_script (write_out_point w input.previous_output) input.signature_script)
      input.sequence

unfoldable pub write_output : Writer → Output → Writer
unfolding write_script
write_output w output = write_script (write_le 8 w (to_unsigned 64 output.value)) output.pk_script

unfoldable pub write_witness : Writer → Witness → Writer
unfolding write_script write_each
write_witness w components =
    write_each write_script (write_var_int w (length components)) components

unfoldable pub with_witness : Transaction → Bool → Bool
unfolding is_witness
with_witness tx include_witness = is_witness tx && include_witness

-- Serialize throws for a transaction without inputs.
unfoldable pub serialize : Writer → Transaction → Bool → Option Writer
unfolding write_input write_output write_witness write_each with_witness
serialize w tx include_witness =
    if length tx.inputs == 0
    then none
    else (let w1 = write_le 4 w tx.version in
        let w2 = if with_witness tx include_witness then write_le 2 w1 0x0100 else w1 in
        let w3 = write_each write_input (write_var_int w2 (length tx.inputs)) tx.inputs in
        let w4 = write_each write_output (write_var_int w3 (length tx.outputs)) tx.outputs in
        let w5 =
          if with_witness tx include_witness
          then write_each write_witness w4 tx.witnesses
          else w4 in
        some (write_le 4 w5 tx.lock_time))

-- ComputeTxid: the hash of the serialized bytes. The identifiers are not cached here.
module _ (double_sha256 : Bytes → Hash) where
  unfoldable pub compute_txid : Transaction → Bool → Option Hash
  unfolding serialize
  compute_txid tx include_witness = elim (serialize empty tx include_witness) [
    | none ↦ none
    | some w ↦ some (double_sha256 w.buffer)
  ]

  abbrev pub get_hash : Transaction → Option Hash
  get_hash tx = compute_txid tx false

  abbrev pub get_witness_hash : Transaction → Option Hash
  get_witness_hash tx = compute_txid tx true
