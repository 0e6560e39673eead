-- ===== src/Protocol/Message/Payload.antt =====
-- Serialize and Deserialize of the messages of src/hornetlib/protocol/message and of inventory.h.
use hornet.Common.{List, length, Option, none, some, true, ltb, ◌==◌, if◌then◌else◌}
use hornet.Encoding.Endian.{to_unsigned, to_signed, narrow_signed}
use hornet.Encoding.Reader.{
  Read, ◌>>=◌, return, throw, or_throw, read_bytes, read_bool, read_le, read_var_int,
  read_var_string, read_each,
}
use hornet.Encoding.Writer.{
  Writer, write_bytes, write_bool, write_le, write_var_int, write_var_string, write_each,
}
use hornet.Protocol.Block.Serialize.{write_block, read_block}
use hornet.Protocol.Header.{BlockHeader}
use hornet.Protocol.Header
use hornet.Protocol.Header.Deserialize.{read_header}
use hornet.Protocol.Message.{
  Inventory, GetHeaders, Version, Message, block, get_data, get_headers, headers, ping, pong,
  verack, version, send_compact, Kind, block_kind, get_data_kind, get_headers_kind, headers_kind,
  ping_kind, pong_kind, verack_kind, version_kind, send_compact_kind, max_block_locator_hashes,
  max_block_headers,
}

unfoldable pub write_inventory : Writer → Inventory → Writer
write_inventory w inv = write_bytes (write_le 4 w inv.type) inv.hash

unfoldable pub read_inventory : Read Inventory
read_inventory = do
  type ← read_le 4
  hash ← read_bytes 32
  return (record { type = type; hash = hash })

unfoldable pub write_get_headers : Writer → GetHeaders → Writer
unfolding write_each
write_get_headers w m =
    write_bytes
      (write_each write_bytes
        (write_var_int (write_le 4 w (to_unsigned 32 m.version)) (length m.locator_hashes))
        m.locator_hashes)
      m.stop_hash

unfoldable pub read_get_headers : Read GetHeaders
read_get_headers = do
  number ← read_le 4
  size ← read_var_int 64 true
  if ltb max_block_locator_hashes size
      then throw
      else (read_each (read_bytes 32) size >>= λ locator_hashes. read_bytes 32 >>= λ stop_hash.
          return (record {
            version = to_signed 32 number;
            locator_hashes = locator_hashes;
            stop_hash = stop_hash;
          }))

-- A header with its transaction count, which is zero.
unfoldable pub write_counted_header : Writer → BlockHeader → Writer
write_counted_header w h = write_var_int (Header.serialize w h) 0

unfoldable pub read_counted_header : Read BlockHeader
unfolding read_header
read_counted_header = do
  header ← read_header
  count ← read_var_int 64 true
  if count == 0 then return header else throw

unfoldable pub write_headers : Writer → List BlockHeader → Option Writer
unfolding write_counted_header write_each
write_headers w hs =
    if ltb max_block_headers (length hs)
    then none
    else some (write_each write_counted_header (write_var_int w (length hs)) hs)

unfoldable pub read_headers : Read (List BlockHeader)
unfolding read_counted_header
read_headers = do
  size ← read_var_int 64 true
  if ltb max_block_headers size then throw else read_each read_counted_header size

unfoldable pub write_version : Writer → Version → Writer
write_version w v =
    let w1 = write_le 4 w (to_unsigned 32 v.version) in
    let w2 = write_le 8 w1 v.services in
    let w3 = write_le 8 w2 (to_unsigned 64 v.timestamp) in
    let w4 = write_bytes (write_bytes w3 v.addr_recv) v.addr_from in
    let w5 = write_var_string (write_le 8 w4 v.nonce) v.user_agent in
    write_bool (write_le 4 w5 (to_unsigned 32 v.start_height)) v.relay

unfoldable pub read_version : Read Version
read_version = do
  number ← read_le 4
  services ← read_le 8
  timestamp ← read_le 8
  addr_recv ← read_bytes 26
  addr_from ← read_bytes 26
  nonce ← read_le 8
  user_agent ← read_var_string
  start_height ← read_le 4
  relay ← read_bool
  return (record {
    version = to_signed 32 number;
    services = services;
    timestamp = to_signed 64 timestamp;
    addr_recv = addr_recv;
    addr_from = addr_from;
    nonce = nonce;
    user_agent = user_agent;
    start_height = to_signed 32 start_height;
    relay = relay;
  })

-- Serialize of each message; a block message without a block writes nothing.
unfoldable pub serialize : Writer → Message → Option Writer
unfolding write_inventory write_get_headers write_headers write_version write_each
serialize w (block none) = some w
serialize w (block (some b)) = write_block w b true
serialize w (get_data inventory) =
    some (write_each write_inventory (write_var_int w (length inventory)) inventory)
serialize w (get_headers m) = some (write_get_headers w m)
serialize w (headers hs) = write_headers w hs
serialize w (ping nonce) = some (write_le 8 w nonce)
serialize w (pong nonce) = some (write_le 8 w nonce)
serialize w verack = some w
serialize w (version v) = some (write_version w v)
serialize w (send_compact flag v) = some (write_le 8 (write_bool w flag) (to_unsigned 64 v))

-- Deserialize of a fresh message of the kind.
unfoldable pub deserialize : Kind → Read Message
unfolding read_inventory read_get_headers read_headers read_version
deserialize block_kind = do b ← read_block; return (block (some b))
deserialize get_data_kind = do
  size ← read_var_int 64 true
  inventory ← read_each read_inventory size
  return (get_data inventory)
deserialize get_headers_kind = do m ← read_get_headers; return (get_headers m)
deserialize headers_kind = do hs ← read_headers; return (headers hs)
deserialize ping_kind = do nonce ← read_le 8; return (ping nonce)
deserialize pong_kind = do nonce ← read_le 8; return (pong nonce)
deserialize verack_kind = return verack
deserialize version_kind = do v ← read_version; return (version v)
deserialize send_compact_kind = do
  flag ← read_bool
  bits ← read_le 8
  v ← or_throw (narrow_signed 32 64 bits)
  return (send_compact flag v)
