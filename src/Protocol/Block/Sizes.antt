-- ===== src/Protocol/Block/Sizes.antt =====
-- The sizes of a block, with the witness data and without.
use hornet.Common.{
  ◌+◌, ◌^◌, ◌<◌, ◌≡◌, ap, ◌∙◌, ◌-◌, ◌++◌, length, length-append, Bytes, some, true, false, arith,
}
use hornet.Encoding.Codec.{concat_map}
use hornet.Encoding.RoundTrip.{between, at_end, compact_size}
use hornet.Common.Int.{pos}
use hornet.Common.Int32.{int_result_difference}
use hornet.Protocol.Block.{Block, get_stripped_size}
use hornet.Protocol.Block.Serialize.{write_block, read_block}
use hornet.Protocol.Header.RoundTrip.{encode_header}
use hornet.Protocol.Block.RoundTrip.{
  encode_transaction, encode_block, witness_sizes, sizes-concat_map, IsWireBlock,
  write_block-encode, block-Reads,
}

stripped_size :
    (b : Block) → IsWireBlock b → get_stripped_size b ≡ some (pos (length (encode_block false b)))
unfolding get_stripped_size
stripped_size b h =
    let header = encode_header b.header in
    let count = compact_size (length b.transactions) in
    let all = concat_map (encode_transaction true) b.transactions in
    let base = concat_map (encode_transaction false) b.transactions in
    let whole = length (encode_block true b) in
    let few = h.size_fits in
    let sum : whole ≡ length (encode_block false b) + witness_sizes b.transactions = omega (
      arith,
      sizes-concat_map b.transactions,
      length-append header (count ++ all),
      length-append header (count ++ base),
      length-append count all,
      length-append count base,
    ) in
    let base_size : whole - witness_sizes b.transactions ≡ length (encode_block false b) =
      omega (arith, sum) in
    rw (h.serialized_size, h.witness_total)
      (int_result_difference whole (witness_sizes b.transactions) few (omega (arith, sum, few))
          (omega (arith, sum))
        ∙ ap (λ n. some (pos n)) base_size)

-- A block whose fields are in the ranges of the wire format, with at most 100,000 transactions and fewer
-- than 2^31 bytes, and which holds the sizes of its own bytes and of its witness data: Serialize appends the bytes of the
-- wire format, with the witness data and without; Deserialize, at the former in any buffer of less
-- than 2^64 bytes, returns the block, its sizes included, and stops behind it; and the stripped size
-- is the number of the latter.
pub read_block-write_block :
    (b : Block) (front rest : Bytes)
    → IsWireBlock b
    → length front + length (encode_block true b) + length rest < 2 ^ 64
    → (write_block (at_end front) b true ≡ some (at_end (front ++ encode_block true b)))
      × (read_block (between front (encode_block true b ++ rest))
          ≡ some (b, between (front ++ encode_block true b) rest))
      × (write_block (at_end front) b false ≡ some (at_end (front ++ encode_block false b)))
      × (get_stripped_size b ≡ some (pos (length (encode_block false b))))
read_block-write_block b front rest h few = (
  write_block-encode b true front h.transactions_fit,
  block-Reads b h front rest few,
  write_block-encode b false front h.transactions_fit,
  stripped_size b h,
)
