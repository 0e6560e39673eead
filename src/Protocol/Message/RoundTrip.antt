-- ===== src/Protocol/Message/RoundTrip.antt =====
-- The payload of a message, and the message that the registered class of its name reads from it.
use hornet.Common.{
  ◌^◌, ◌<◌, ◌≤◌, ◌≡◌, refl, ap, [], ◌++◌, length, Bytes, bytes_eq, none, some, arith, true,
}
use hornet.Common.Int.{ℤ, pos, negsuc}
use hornet.Encoding.Codec.{
  Appends-then, Reads, All, return-Reads, bind-Reads, map-Reads, then-Reads, concat_map,
  read_each-Reads, read_var_int-Reads, read_le-Reads, read_bool-Reads, write_le-Appends,
  write_bool-Appends,
}
use hornet.Encoding.Endian.{le_bytes, to_unsigned, narrow_signed}
use hornet.Encoding.Reader.{max_compact_size, read_bool, read_le, read_each, read_var_int}
use hornet.Encoding.RoundTrip.{at_end, compact_size}
use hornet.Encoding.Writer.{write_bool, write_le}
use hornet.Protocol.Block.RoundTrip.{encode_block, IsWireBlock, write_block-encode, block-Reads}
use hornet.Protocol.Block.Serialize.{read_block}
use hornet.Protocol.Header.RoundTrip.{IsHeader, IsInt32}
use hornet.Protocol.Message.{
  Message, block, get_data, get_headers, headers, ping, pong, verack, version, send_compact, Kind,
  block_kind, get_data_kind, get_headers_kind, headers_kind, ping_kind, pong_kind, verack_kind,
  version_kind, send_compact_kind, kind_of, get_name, create, max_block_headers,
}
use hornet.Protocol.Message.Parts.{
  encode_inventory, encode_get_headers, encode_counted_header, encode_version, flag_byte,
  IsInventory, IsGetHeaders, IsVersion, inventory-Appends, inventory-Reads, get_headers-Appends,
  get_headers-Reads, headers-Appends, headers-Reads, version-Appends, version-Reads,
}
use hornet.Protocol.Message.Payload.{
  write_inventory, read_inventory, serialize, deserialize, read_get_headers, read_headers,
  read_version,
}
use hornet.Protocol.Transaction.Parts.{encode_list, list-Appends}
use mathlib.Core.List.{append-nil}

abbrev pub encode_message : Message → Bytes
encode_message (block none) = []
encode_message (block (some b)) = encode_block true b
encode_message (get_data inventory) = encode_list encode_inventory inventory
encode_message (get_headers m) = encode_get_headers m
encode_message (headers hs) = encode_list encode_counted_header hs
encode_message (ping nonce) = le_bytes 8 nonce
encode_message (pong nonce) = le_bytes 8 nonce
encode_message verack = []
encode_message (version v) = encode_version v
encode_message (send_compact flag v) = flag_byte flag ++ le_bytes 8 (to_unsigned 64 v)

-- The fields of a message are in the ranges of the wire format, its counts within the limits, and a
-- block message has its block.
abbrev pub IsMessage : Message → Type 0
IsMessage (block none) = ⊥
IsMessage (block (some b)) = IsWireBlock b
IsMessage (get_data inventory) = (length inventory ≤ max_compact_size) × All IsInventory inventory
IsMessage (get_headers m) = IsGetHeaders m
IsMessage (headers hs) = (length hs ≤ max_block_headers) × All IsHeader hs
IsMessage (ping nonce) = nonce < 2 ^ 64
IsMessage (pong nonce) = nonce < 2 ^ 64
IsMessage verack = Unit {0}
IsMessage (version v) = IsVersion v
IsMessage (send_compact flag v) = IsInt32 v

pub create-get_name : (kind : Kind) → create (get_name kind) ≡ some kind
unfolding create bytes_eq
create-get_name block_kind = refl
create-get_name get_data_kind = refl
create-get_name get_headers_kind = refl
create-get_name headers_kind = refl
create-get_name ping_kind = refl
create-get_name pong_kind = refl
create-get_name verack_kind = refl
create-get_name version_kind = refl
create-get_name send_compact_kind = refl

narrow_signed-to_unsigned : (v : ℤ) → IsInt32 v → narrow_signed 32 64 (to_unsigned 64 v) ≡ some v
unfolding narrow_signed
narrow_signed-to_unsigned (pos n) h = ground arith
narrow_signed-to_unsigned (negsuc n) h = ground arith

to_unsigned-bounded : (v : ℤ) → to_unsigned 64 v < 2 ^ 64
to_unsigned-bounded (pos n) = omega arith
to_unsigned-bounded (negsuc n) = omega arith

pub serialize-encode_message :
    (m : Message) (buffer : Bytes)
    → IsMessage m
    → serialize (at_end buffer) m ≡ some (at_end (buffer ++ encode_message m))
unfolding serialize
serialize-encode_message (block none) buffer h = absurd h
serialize-encode_message (block (some b)) buffer h =
    write_block-encode b true buffer h.transactions_fit
serialize-encode_message (get_data inventory) buffer h =
    ap some (list-Appends write_inventory encode_inventory inventory-Appends inventory buffer)
serialize-encode_message (get_headers m) buffer h = ap some (get_headers-Appends m buffer)
serialize-encode_message (headers hs) buffer h = headers-Appends hs buffer h.0
serialize-encode_message (ping nonce) buffer h = ap some (write_le-Appends 8 nonce buffer)
serialize-encode_message (pong nonce) buffer h = ap some (write_le-Appends 8 nonce buffer)
serialize-encode_message verack buffer h = rw (append-nil buffer) refl
serialize-encode_message (version v) buffer h = ap some (version-Appends v buffer)
serialize-encode_message (send_compact flag v) buffer h = ap some (
    Appends-then (λ w. write_bool w flag) (λ w. write_le 8 w (to_unsigned 64 v)) _ _
      (write_bool-Appends flag) (write_le-Appends 8 (to_unsigned 64 v)) buffer)

pub message-Reads :
    (m : Message) → IsMessage m → Reads (deserialize (kind_of m)) (encode_message m) m
unfolding deserialize kind_of
message-Reads (block none) h = absurd h
message-Reads (block (some b)) h = map-Reads read_block (λ b. block (some b)) _ b (block-Reads b h)
message-Reads (get_data inventory) (few, all) =
    let size = length inventory in
    let items =
      read_each-Reads read_inventory encode_inventory IsInventory inventory-Reads inventory all in
    bind-Reads (read_var_int 64 true) _ (compact_size size) (concat_map encode_inventory inventory)
      size (get_data inventory) (read_var_int-Reads 64 size (omega (arith, few)) few)
      (map-Reads (read_each read_inventory size) get_data _ inventory items)
message-Reads (get_headers m) h = map-Reads read_get_headers get_headers _ m (get_headers-Reads m h)
message-Reads (headers hs) (few, all) =
    map-Reads read_headers headers _ hs (headers-Reads hs few all)
message-Reads (ping nonce) h =
    map-Reads (read_le 8) ping _ nonce (read_le-Reads 8 nonce (omega (arith, h)))
message-Reads (pong nonce) h =
    map-Reads (read_le 8) pong _ nonce (read_le-Reads 8 nonce (omega (arith, h)))
message-Reads verack h = return-Reads verack
message-Reads (version v) h = map-Reads read_version version _ v (version-Reads v h)
message-Reads (send_compact flag v) h =
    let bits = to_unsigned 64 v in
    bind-Reads read_bool _ (flag_byte flag) (le_bytes 8 bits) flag (send_compact flag v)
      (read_bool-Reads flag)
      (then-Reads (read_le 8) _ (le_bytes 8 bits) bits (send_compact flag v)
        (read_le-Reads 8 bits (omega (arith, to_unsigned-bounded v)))
        (rw (narrow_signed-to_unsigned v h) refl))
