-- ===== src/Protocol/Block/RoundTrip.antt =====
-- The bytes of a block, and what is read back from them.
use hornet.Common.{
  ℕ, ◌+◌, ◌-◌, ◌^◌, ◌≤◌, ◌<◌, ◌≡◌, refl, sym, ap, ◌∙◌, List, [], ◌∷◌, map, ◌++◌, length,
  length-append, Bytes, Option, none, some, Bool, true, false, arith,
}
use hornet.Common.Int.{ℤ, pos, ◌+ℤ◌}
use hornet.Common.Int32.{int_result, int_result_sum}
use hornet.Encoding.Endian.{to_int, to_int_small}
use hornet.Encoding.Codec.{
  Appends-then, ReadsAt, Reads, bind-ReadsAt, get_pos-ReadsAt, checked-ReadsAt, within-ReadsAt,
  read_var_int-Reads, concat_map, All, read_each-map-Reads, write_var_int-Appends,
}
use hornet.Encoding.Reader.{read_var_int, read_each}
use hornet.Encoding.RoundTrip.{at_end, compact_size}
use hornet.Encoding.Writer.{Writer, write_var_int}
use hornet.Protocol.Block.{Block}
use hornet.Protocol.Block.Serialize.{
  write_transactions, write_block, read_counted, read_block, max_transactions, total_witness_bytes,
}
use hornet.Protocol.Header
use hornet.Protocol.Header.Deserialize.{read_header}
use hornet.Protocol.Header.RoundTrip.{encode_header, IsHeader, header-Appends, header-Reads}
use hornet.Protocol.Transaction.{Transaction, with_witness}
use hornet.Protocol.Transaction
use hornet.Protocol.Transaction.Deserialize.{deserialize}
use hornet.Protocol.Transaction.Parts.{encode_list}
use hornet.Protocol.Transaction.Encode.{
  encode, IsSerializable, serialize-encode, with_witness-true, with_witness-false, base_smaller,
}
use hornet.Protocol.Transaction.RoundTrip.{deserialize-ReadsAt}
use mathlib.Core.List.{append-nil, append_assoc}
use mathlib.Core.Path.{subst}

-- The bytes of a transaction, with the witness data that it has if `include_witness` says so.
abbrev pub encode_transaction : Bool → Transaction → Bytes
encode_transaction include_witness tx = encode (with_witness tx include_witness) tx

abbrev pub encode_block : Bool → Block → Bytes
encode_block include_witness b =
    encode_header b.header ++ encode_list (encode_transaction include_witness) b.transactions

abbrev pub witness_size : Transaction → ℕ
witness_size tx = length (encode_transaction true tx) - length (encode_transaction false tx)

abbrev sized : Transaction → Transaction × ℤ
sized tx = (tx, pos (witness_size tx))

-- A transaction in the ranges of the wire format that holds the size of its own bytes.
abbrev pub IsWireTransaction : Transaction → Type 0
IsWireTransaction tx =
    IsSerializable tx × (tx.no_witness_size_bytes ≡ pos (length (encode_transaction false tx)))

abbrev pub witness_sizes : List Transaction → ℕ
witness_sizes [] = 0
witness_sizes (tx ∷ txs) = witness_size tx + witness_sizes txs

-- A block in the ranges of the wire format whose byte counts are those of its own bytes.
pub record IsWireBlock (b : Block) : Type 0 where
  pub header_fits : IsHeader b.header
  pub few_transactions : length b.transactions ≤ max_transactions
  pub transactions_fit : All IsWireTransaction b.transactions
  pub size_fits : length (encode_block true b) < 2 ^ 31
  pub serialized_size : b.serialized_bytes ≡ pos (length (encode_block true b))
  pub witness_total : b.witness_bytes ≡ pos (witness_sizes b.transactions)

-- The bytes of the transactions without the witness data, and those of the witness data, are all.
pub sizes-concat_map :
    (txs : List Transaction)
    → length (concat_map (encode_transaction true) txs)
      ≡ length (concat_map (encode_transaction false) txs) + witness_sizes txs
sizes-concat_map [] = refl
sizes-concat_map (tx ∷ txs) =
    let all = encode_transaction true tx in
    let base = encode_transaction false tx in
    let smaller : length base ≤ length all =
      rw (with_witness-false tx) (base_smaller (with_witness tx true) tx) in
    omega (
      arith,
      smaller,
      sizes-concat_map txs,
      length-append all (concat_map (encode_transaction true) txs),
      length-append base (concat_map (encode_transaction false) txs),
    )

write_transactions_step :
    (w w' : Writer) (tx : Transaction) (txs : List Transaction) (include_witness : Bool)
    → Transaction.serialize w tx include_witness ≡ some w'
    → write_transactions w (tx ∷ txs) include_witness ≡ write_transactions w' txs include_witness
unfolding write_transactions
write_transactions_step w w' tx txs include_witness e =
    ap
      (λ (o : Option Writer). elim o [
        | none ↦ none
        | some v ↦ write_transactions v txs include_witness
      ])
      e

write_transactions-encode :
    (txs : List Transaction) (include_witness : Bool) (buffer : Bytes)
    → All IsWireTransaction txs
    → write_transactions (at_end buffer) txs include_witness
      ≡ some (at_end (buffer ++ concat_map (encode_transaction include_witness) txs))
unfolding write_transactions
write_transactions-encode [] include_witness buffer all = rw (append-nil buffer) refl
write_transactions-encode (tx ∷ txs) include_witness buffer all =
    let bytes = encode_transaction include_witness tx in
    let first = serialize-encode tx include_witness buffer all.0.0.some_inputs in
    write_transactions_step (at_end buffer) (at_end (buffer ++ bytes)) tx txs include_witness first
    ∙ (write_transactions-encode txs include_witness (buffer ++ bytes) all.1
        ∙ ap (λ bs. some (at_end bs))
            (append_assoc buffer bytes (concat_map (encode_transaction include_witness) txs)))

pub write_block-encode :
    (b : Block) (include_witness : Bool) (buffer : Bytes)
    → All IsWireTransaction b.transactions
    → write_block (at_end buffer) b include_witness
      ≡ some (at_end (buffer ++ encode_block include_witness b))
unfolding write_block
write_block-encode b include_witness buffer all =
    let count = length b.transactions in
    let txs = concat_map (encode_transaction include_witness) b.transactions in
    let start =
      Appends-then (λ w. Header.serialize w b.header) (λ w. write_var_int w count) _ _
        (header-Appends b.header) (write_var_int-Appends count) buffer in
    rw
      (
        start,
        write_transactions-encode b.transactions include_witness
            (buffer ++ (encode_header b.header ++ compact_size count)) all,
        append_assoc buffer (encode_header b.header ++ compact_size count) txs,
        append_assoc (encode_header b.header) (compact_size count) txs,
      )
      refl

transaction-Reads :
    (tx : Transaction)
    → IsWireTransaction tx
    → Reads deserialize (encode_transaction true tx) (tx, pos (witness_size tx))
transaction-Reads tx (h, size) front =
    let all = encode_transaction true tx in
    let made : (flag : Bool) (n : ℤ) → Transaction × ℤ = λ flag n.
      (record tx { no_witness_size_bytes = n }, pos (length all - length (encode flag tx))) in
    let read =
      subst
        (λ flag. ReadsAt front deserialize (encode flag tx) (
          record tx { no_witness_size_bytes = pos (length (encode false tx)) },
          pos (length (encode flag tx) - length (encode false tx)),
        ))
        (sym (with_witness-true tx)) (deserialize-ReadsAt tx front h) in
    let stripped =
      subst (λ flag. ReadsAt front deserialize all (made flag (pos (length (encode flag tx)))))
        (sym (with_witness-false tx)) read in
    subst (λ n. ReadsAt front deserialize all (made (with_witness tx false) n)) (sym size) stripped

map-first : (txs : List Transaction) → map (λ (p : Transaction × ℤ). p.0) (map sized txs) ≡ txs
map-first [] = refl
map-first (tx ∷ txs) = rw (map-first txs) refl

total_witness_bytes_step :
    (total witness_bytes next : ℤ) (tx : Transaction) (rest : List (Transaction × ℤ))
    → int_result (total +ℤ witness_bytes) ≡ some next
    → total_witness_bytes total ((tx, witness_bytes) ∷ rest) ≡ total_witness_bytes next rest
unfolding total_witness_bytes
total_witness_bytes_step total witness_bytes next tx rest e =
    ap (λ (o : Option ℤ). elim o [ none ↦ none | some t ↦ total_witness_bytes t rest ]) e

total_witness_bytes-map :
    (total sum : ℕ) (txs : List Transaction)
    → total + witness_sizes txs ≡ sum
    → sum < 2 ^ 31
    → total_witness_bytes (pos total) (map sized txs) ≡ some (pos sum)
unfolding total_witness_bytes
total_witness_bytes-map total sum [] e h = let same : total ≡ sum = omega (arith, e) in rw same refl
total_witness_bytes-map total sum (tx ∷ txs) e h =
    let next = total + witness_size tx in
    total_witness_bytes_step (pos total) (pos (witness_size tx)) (pos next) tx (map sized txs)
      (int_result_sum total (witness_size tx) (omega (arith, e)))
    ∙ total_witness_bytes-map next sum txs (omega (arith, e)) h

witness_sizes_fit :
    (b : Block) → length (encode_block true b) < 2 ^ 31 → witness_sizes b.transactions < 2 ^ 31
witness_sizes_fit b few =
    let count = compact_size (length b.transactions) in
    let all = concat_map (encode_transaction true) b.transactions in
    omega (
      arith,
      few,
      sizes-concat_map b.transactions,
      length-append (encode_header b.header) (count ++ all),
      length-append count all,
    )

counted-ReadsAt :
    (b : Block) (front : Bytes)
    → IsWireBlock b
    → let counted = encode_header b.header ++ compact_size (length b.transactions) in
      ReadsAt
        (front ++ counted)
        (read_counted (length front) b.header (length b.transactions))
        (concat_map (encode_transaction true) b.transactions)
        b
unfolding read_counted
counted-ReadsAt b front h =
    let txs = concat_map (encode_transaction true) b.transactions in
    let counted = encode_header b.header ++ compact_size (length b.transactions) in
    let read =
      read_each-map-Reads deserialize (encode_transaction true) IsWireTransaction sized
        transaction-Reads b.transactions h.transactions_fit in
    let same = append_assoc front counted txs in
    let inner = append_assoc (encode_header b.header) (compact_size (length b.transactions)) txs in
    let bytes : length ((front ++ counted) ++ txs) - length front ≡ length (encode_block true b) =
      rw (same, inner, length-append front (encode_block true b)) (omega arith) in
    let size : to_int (length ((front ++ counted) ++ txs) - length front) ≡ b.serialized_bytes =
      rw (bytes, to_int_small (length (encode_block true b)) h.size_fits, h.serialized_size) refl in
    let total : total_witness_bytes (pos 0) (map sized b.transactions) ≡ some b.witness_bytes =
      rw h.witness_total (
        total_witness_bytes-map 0 (witness_sizes b.transactions) b.transactions (omega arith)
          (witness_sizes_fit b h.size_fits)) in
    checked-ReadsAt (read_each deserialize (length b.transactions)) _ (front ++ counted) txs
      (map sized b.transactions) b (read (front ++ counted))
      (rw (total, map-first b.transactions, size) refl)

pub block-Reads : (b : Block) → IsWireBlock b → Reads read_block (encode_block true b) b
unfolding read_block
block-Reads b h front =
    let header = encode_header b.header in
    let count = length b.transactions in
    let few = h.few_transactions in
    let txs = concat_map (encode_transaction true) b.transactions in
    get_pos-ReadsAt _ front _ _ (
      bind-ReadsAt read_header _ front header _ b.header _
        (header-Reads b.header h.header_fits front)
        (bind-ReadsAt (read_var_int 64 true) _ (front ++ header) (compact_size count) _ count _
          (read_var_int-Reads 64 count (omega (arith, few)) (omega (arith, few)) (front ++ header))
          (within-ReadsAt max_transactions count _ ((front ++ header) ++ compact_size count) txs b
            few (rw (append_assoc front header (compact_size count)) (counted-ReadsAt b front h)))))
