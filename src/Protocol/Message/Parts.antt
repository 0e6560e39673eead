-- ===== src/Protocol/Message/Parts.antt =====
-- The bytes of the parts of a message, and what is read back from them.
use hornet.Common.{
  ◌^◌, ◌≤◌, ◌<◌, ◌≡◌, refl, ap, ltb, true, false, List, [], ◌∷◌, ◌++◌, length, Bytes, Bool,
  if◌then◌else◌, some, arith,
}
use hornet.Common.Int.{ℤ}
use hornet.Encoding.Codec.{
  Appends, Appends-then, Reads, All, bind-Reads, map-Reads, then-Reads, within-ReadsAt,
  read_le-Reads, read_bytes-Reads, read_bool-Reads, read_var_int-Reads, read_each-Reads,
  write_le-Appends, write_bytes-Appends, write_var_int-Appends, write_bool-Appends, concat_map,
  write_each-Appends,
}
use hornet.Encoding.Endian.{le_bytes, to_unsigned, to_signed}
use hornet.Encoding.Reader.{
  max_compact_size, read_le, read_bytes, read_bool, read_var_int, read_var_string, read_each,
}
use hornet.Encoding.RoundTrip.{at_end, compact_size}
use hornet.Encoding.Writer.{
  Writer, write_bytes, write_bool, write_le, write_var_int, write_var_string, write_each,
}
use hornet.Protocol.Header.{BlockHeader}
use hornet.Protocol.Header
use hornet.Protocol.Header.Deserialize.{read_header}
use hornet.Protocol.Header.RoundTrip.{
  encode_header, IsHeader, IsInt32, header-Appends, header-Reads,
}
use hornet.Protocol.Header.RoundTrip
use hornet.Protocol.Message.{
  Inventory, GetHeaders, Version, max_block_locator_hashes, max_block_headers,
}
use hornet.Protocol.Message.Payload.{
  write_inventory, read_inventory, write_get_headers, read_get_headers, write_counted_header,
  read_counted_header, write_headers, read_headers, write_version, read_version,
}
use hornet.Protocol.Transaction.{Hash}
use hornet.Protocol.Transaction.Parts.{encode_script, encode_list, IsInt64, list-Appends}
use hornet.Protocol.Transaction.Parts
use mathlib.Core.Path.{subst}

-- The bytes of the parts.
abbrev pub encode_inventory : Inventory → Bytes
encode_inventory inv = le_bytes 4 inv.type ++ inv.hash

abbrev pub encode_get_headers : GetHeaders → Bytes
encode_get_headers m =
    le_bytes 4 (to_unsigned 32 m.version)
    ++ (compact_size (length m.locator_hashes)
        ++ (concat_map (λ (h : Hash). h) m.locator_hashes ++ m.stop_hash))

abbrev pub encode_counted_header : BlockHeader → Bytes
encode_counted_header h = encode_header h ++ compact_size 0

abbrev pub flag_byte : Bool → Bytes
flag_byte flag = (if flag then 1 else 0) ∷ []

abbrev pub encode_version : Version → Bytes
encode_version v =
    le_bytes 4 (to_unsigned 32 v.version)
    ++ (le_bytes 8 v.services
        ++ (le_bytes 8 (to_unsigned 64 v.timestamp)
            ++ (v.addr_recv
                ++ (v.addr_from
                    ++ (le_bytes 8 v.nonce
                        ++ (encode_script v.user_agent
                            ++ (le_bytes 4 (to_unsigned 32 v.start_height)
                                ++ flag_byte v.relay)))))))

-- What the fields of the parts are limited to.
abbrev pub IsHash : Hash → Type 0
IsHash h = length h ≡ 32

abbrev pub IsInventory : Inventory → Type 0
IsInventory inv = (inv.type < 2 ^ 32) × IsHash inv.hash

pub record IsGetHeaders (m : GetHeaders) : Type 0 where
  pub version_fits : IsInt32 m.version
  pub few_hashes : length m.locator_hashes ≤ max_block_locator_hashes
  pub hashes_fit : All IsHash m.locator_hashes
  pub stop_hash_size : IsHash m.stop_hash

pub record IsVersion (v : Version) : Type 0 where
  pub version_fits : IsInt32 v.version
  pub services_fit : v.services < 2 ^ 64
  pub timestamp_fits : IsInt64 v.timestamp
  pub addr_recv_size : length v.addr_recv ≡ 26
  pub addr_from_size : length v.addr_from ≡ 26
  pub nonce_fits : v.nonce < 2 ^ 64
  pub user_agent_fits : length v.user_agent ≤ max_compact_size
  pub start_height_fits : IsInt32 v.start_height

pub inventory-Appends :
    (inv : Inventory) → Appends (λ w. write_inventory w inv) (encode_inventory inv)
unfolding write_inventory
inventory-Appends inv =
    Appends-then (λ w. write_le 4 w inv.type) (λ w. write_bytes w inv.hash) _ _
      (write_le-Appends 4 inv.type) (write_bytes-Appends inv.hash)

pub inventory-Reads :
    (inv : Inventory) → IsInventory inv → Reads read_inventory (encode_inventory inv) inv
unfolding read_inventory
inventory-Reads inv h =
    bind-Reads (read_le 4) _ (le_bytes 4 inv.type) inv.hash inv.type inv
      (read_le-Reads 4 inv.type (omega (arith, h.0)))
      (map-Reads (read_bytes 32) (λ hash. record { type = inv.type; hash = hash }) inv.hash inv.hash
        (read_bytes-Reads 32 inv.hash h.1))

pub get_headers-Appends :
    (m : GetHeaders) → Appends (λ w. write_get_headers w m) (encode_get_headers m)
unfolding write_get_headers
get_headers-Appends m =
    let number = λ (w : Writer). write_le 4 w (to_unsigned 32 m.version) in
    let count = λ (w : Writer). write_var_int w (length m.locator_hashes) in
    let hashes = λ (w : Writer). write_each write_bytes w m.locator_hashes in
    let stop_hash = λ (w : Writer). write_bytes w m.stop_hash in
    Appends-then number (λ w. stop_hash (hashes (count w))) _ _
      (write_le-Appends 4 (to_unsigned 32 m.version))
      (Appends-then count (λ w. stop_hash (hashes w)) _ _
        (write_var_int-Appends (length m.locator_hashes))
        (Appends-then hashes stop_hash _ _
          (write_each-Appends write_bytes (λ (h : Hash). h) write_bytes-Appends m.locator_hashes)
          (write_bytes-Appends m.stop_hash)))

pub get_headers-Reads :
    (m : GetHeaders) → IsGetHeaders m → Reads read_get_headers (encode_get_headers m) m
unfolding read_get_headers
get_headers-Reads m h =
    let bits = to_unsigned 32 m.version in
    let read : GetHeaders = record m { version = to_signed 32 bits } in
    let size = length m.locator_hashes in
    let few = h.few_hashes in
    let hashes =
      read_each-Reads (read_bytes 32) (λ (x : Hash). x) IsHash (read_bytes-Reads 32)
        m.locator_hashes h.hashes_fit in
    let count = compact_size size in
    let bytes = concat_map (λ (x : Hash). x) m.locator_hashes in
    subst (λ (v : ℤ). Reads read_get_headers (encode_get_headers m) (record m { version = v }))
      (RoundTrip.to_signed-to_unsigned m.version h.version_fits)
      (bind-Reads (read_le 4) _ _ _ bits read
        (read_le-Reads 4 bits (omega (arith, RoundTrip.to_unsigned-bounded m.version)))
        (bind-Reads (read_var_int 64 true) _ count (bytes ++ m.stop_hash) size read
          (read_var_int-Reads 64 size (omega (arith, few)) (omega (arith, few)))
          (λ front.
            within-ReadsAt max_block_locator_hashes size _ front (bytes ++ m.stop_hash) read few (
              bind-Reads (read_each (read_bytes 32) size) _ bytes m.stop_hash m.locator_hashes read
                hashes
                (map-Reads (read_bytes 32) (λ stop_hash. record read { stop_hash = stop_hash })
                  m.stop_hash m.stop_hash (read_bytes-Reads 32 m.stop_hash h.stop_hash_size))
                front))))

counted_header-Appends :
    (h : BlockHeader) → Appends (λ w. write_counted_header w h) (encode_counted_header h)
unfolding write_counted_header
counted_header-Appends h =
    Appends-then (λ w. Header.serialize w h) (λ w. write_var_int w 0) _ _ (header-Appends h)
      (write_var_int-Appends 0)

counted_header-Reads :
    (h : BlockHeader) → IsHeader h → Reads read_counted_header (encode_counted_header h) h
unfolding read_counted_header
counted_header-Reads h f =
    bind-Reads read_header _ (encode_header h) (compact_size 0) h h (header-Reads h f) (
      then-Reads (read_var_int 64 true) _ (compact_size 0) 0 h
        (read_var_int-Reads 64 0 (omega arith) (omega arith)) refl)

pub headers-Appends :
    (hs : List BlockHeader) (buffer : Bytes)
    → length hs ≤ max_block_headers
    → write_headers (at_end buffer) hs
      ≡ some (at_end (buffer ++ encode_list encode_counted_header hs))
unfolding write_headers
headers-Appends hs buffer few =
    let test : ltb max_block_headers (length hs) ≡ false = ground arith in
    rw test (
      ap some
        (list-Appends write_counted_header encode_counted_header counted_header-Appends hs buffer))

pub headers-Reads :
    (hs : List BlockHeader)
    → length hs ≤ max_block_headers
    → All IsHeader hs
    → Reads read_headers (encode_list encode_counted_header hs) hs
unfolding read_headers
headers-Reads hs few all =
    let size = length hs in
    bind-Reads (read_var_int 64 true) _ (compact_size size) _ size hs
      (read_var_int-Reads 64 size (omega (arith, few)) (omega (arith, few)))
      (λ front.
        within-ReadsAt max_block_headers size _ front (concat_map encode_counted_header hs) hs few (
          read_each-Reads read_counted_header encode_counted_header IsHeader counted_header-Reads hs
            all front))

var_string-Appends : (s : Bytes) → Appends (λ w. write_var_string w s) (encode_script s)
unfolding write_var_string
var_string-Appends s =
    Appends-then (λ w. write_var_int w (length s)) (λ w. write_bytes w s) _ s
      (write_var_int-Appends (length s)) (write_bytes-Appends s)

var_string-Reads :
    (s : Bytes) → length s ≤ max_compact_size → Reads read_var_string (encode_script s) s
unfolding read_var_string
var_string-Reads s h =
    bind-Reads (read_var_int 64 true) read_bytes (compact_size (length s)) s (length s) s
      (read_var_int-Reads 64 (length s) (omega (arith, h)) h) (read_bytes-Reads (length s) s refl)

pub version-Appends : (v : Version) → Appends (λ w. write_version w v) (encode_version v)
unfolding write_version write_var_string
version-Appends v =
    let relay = λ (w : Writer). write_bool w v.relay in
    let start_height = λ (w : Writer). write_le 4 w (to_unsigned 32 v.start_height) in
    let user_agent = λ (w : Writer). write_var_string w v.user_agent in
    let nonce = λ (w : Writer). write_le 8 w v.nonce in
    let addr_from = λ (w : Writer). write_bytes w v.addr_from in
    let addr_recv = λ (w : Writer). write_bytes w v.addr_recv in
    let timestamp = λ (w : Writer). write_le 8 w (to_unsigned 64 v.timestamp) in
    let services = λ (w : Writer). write_le 8 w v.services in
    let number = λ (w : Writer). write_le 4 w (to_unsigned 32 v.version) in
    let from_height = λ (w : Writer). relay (start_height w) in
    let from_agent = λ (w : Writer). from_height (user_agent w) in
    let from_nonce = λ (w : Writer). from_agent (nonce w) in
    let from_from = λ (w : Writer). from_nonce (addr_from w) in
    let from_recv = λ (w : Writer). from_from (addr_recv w) in
    let from_time = λ (w : Writer). from_recv (timestamp w) in
    let from_services = λ (w : Writer). from_time (services w) in
    Appends-then number from_services _ _ (write_le-Appends 4 (to_unsigned 32 v.version)) (
      Appends-then services from_time _ _ (write_le-Appends 8 v.services) (
        Appends-then timestamp from_recv _ _ (write_le-Appends 8 (to_unsigned 64 v.timestamp)) (
          Appends-then addr_recv from_from _ _ (write_bytes-Appends v.addr_recv) (
            Appends-then addr_from from_nonce _ _ (write_bytes-Appends v.addr_from) (
              Appends-then nonce from_agent _ _ (write_le-Appends 8 v.nonce) (
                Appends-then user_agent from_height _ _ (var_string-Appends v.user_agent) (
                  Appends-then start_height relay _ _
                    (write_le-Appends 4 (to_unsigned 32 v.start_height))
                    (write_bool-Appends v.relay))))))))

pub version-Reads : (v : Version) → IsVersion v → Reads read_version (encode_version v) v
unfolding read_version
version-Reads v h =
    let number = to_unsigned 32 v.version in
    let time = to_unsigned 64 v.timestamp in
    let height = to_unsigned 32 v.start_height in
    let read : Version = record v {
      version = to_signed 32 number;
      timestamp = to_signed 64 time;
      start_height = to_signed 32 height;
    } in
    let same : read ≡ v =
      rw
        (
          RoundTrip.to_signed-to_unsigned v.version h.version_fits,
          Parts.to_signed-to_unsigned v.timestamp h.timestamp_fits,
          RoundTrip.to_signed-to_unsigned v.start_height h.start_height_fits,
        )
        refl in
    let number_fits = RoundTrip.to_unsigned-bounded v.version in
    let time_fits = Parts.to_unsigned-bounded v.timestamp in
    let height_fits = RoundTrip.to_unsigned-bounded v.start_height in
    let relay =
      map-Reads read_bool (λ relay. record read { relay = relay }) _ v.relay
        (read_bool-Reads v.relay) in
    subst (Reads read_version (encode_version v)) same (
      bind-Reads (read_le 4) _ _ _ number read (read_le-Reads 4 number (omega (arith, number_fits)))
        (bind-Reads (read_le 8) _ _ _ v.services read
          (read_le-Reads 8 v.services (omega (arith, h.services_fit)))
          (bind-Reads (read_le 8) _ _ _ time read (read_le-Reads 8 time (omega (arith, time_fits)))
            (bind-Reads (read_bytes 26) _ _ _ v.addr_recv read
              (read_bytes-Reads 26 v.addr_recv h.addr_recv_size)
              (bind-Reads (read_bytes 26) _ _ _ v.addr_from read
                (read_bytes-Reads 26 v.addr_from h.addr_from_size)
                (bind-Reads (read_le 8) _ _ _ v.nonce read
                  (read_le-Reads 8 v.nonce (omega (arith, h.nonce_fits)))
                  (bind-Reads read_var_string _ _ _ v.user_agent read
                    (var_string-Reads v.user_agent h.user_agent_fits)
                    (bind-Reads (read_le 4) _ _ _ height read
                      (read_le-Reads 4 height (omega (arith, height_fits))) relay))))))))
