-- ===== src/Protocol/Header/RoundTrip.antt =====
-- The 80 bytes of a block header, and what is read back from them.
use hornet.Common.{◌^◌, ◌<◌, ◌≡◌, ◌++◌, length, Bytes, arith}
use hornet.Common.Int.{ℤ, pos, negsuc}
use hornet.Encoding.Endian.{le_bytes, to_unsigned, to_signed}
use hornet.Encoding.Writer.{Writer, write_bytes, write_le}
use hornet.Encoding.Codec.{
  Appends, Appends-then, Reads, bind-Reads, map-Reads, read_le-Reads, read_bytes-Reads,
  write_le-Appends, write_bytes-Appends,
}
use hornet.Protocol.Header.{BlockHeader, serialize}
use hornet.Protocol.Header.Deserialize.{read_header}
use hornet.Encoding.Reader.{read_le, read_bytes}
use mathlib.Core.Path.{subst}

abbrev pub encode_header : BlockHeader → Bytes
encode_header h =
    le_bytes 4 (to_unsigned 32 h.version)
    ++ (h.prev_block
        ++ (h.merkle_root ++ (le_bytes 4 h.timestamp ++ (le_bytes 4 h.bits ++ le_bytes 4 h.nonce))))

-- The range of an int32_t.
abbrev pub IsInt32 : ℤ → Type 0
IsInt32 (pos n) = n < 2 ^ 31
IsInt32 (negsuc n) = n < 2 ^ 31

-- The fields have the widths of their types.
pub record IsHeader (h : BlockHeader) : Type 0 where
  pub version_fits : IsInt32 h.version
  pub prev_block_size : length h.prev_block ≡ 32
  pub merkle_root_size : length h.merkle_root ≡ 32
  pub timestamp_fits : h.timestamp < 2 ^ 32
  pub bits_fit : h.bits < 2 ^ 32
  pub nonce_fits : h.nonce < 2 ^ 32

pub to_signed-to_unsigned : (v : ℤ) → IsInt32 v → to_signed 32 (to_unsigned 32 v) ≡ v
to_signed-to_unsigned (pos n) h = ground arith
to_signed-to_unsigned (negsuc n) h = ground arith

pub to_unsigned-bounded : (v : ℤ) → to_unsigned 32 v < 2 ^ 32
to_unsigned-bounded (pos n) = omega arith
to_unsigned-bounded (negsuc n) = omega arith

pub header-Appends : (h : BlockHeader) → Appends (λ w. serialize w h) (encode_header h)
unfolding serialize
header-Appends h =
    let version = λ (w : Writer). write_le 4 w (to_unsigned 32 h.version) in
    let prev_block = λ (w : Writer). write_bytes w h.prev_block in
    let merkle_root = λ (w : Writer). write_bytes w h.merkle_root in
    let timestamp = λ (w : Writer). write_le 4 w h.timestamp in
    let bits = λ (w : Writer). write_le 4 w h.bits in
    let nonce = λ (w : Writer). write_le 4 w h.nonce in
    Appends-then version (λ w. nonce (bits (timestamp (merkle_root (prev_block w))))) _ _
      (write_le-Appends 4 (to_unsigned 32 h.version))
      (Appends-then prev_block (λ w. nonce (bits (timestamp (merkle_root w)))) _ _
        (write_bytes-Appends h.prev_block)
        (Appends-then merkle_root (λ w. nonce (bits (timestamp w))) _ _
          (write_bytes-Appends h.merkle_root)
          (Appends-then timestamp (λ w. nonce (bits w)) _ _ (write_le-Appends 4 h.timestamp)
            (Appends-then bits nonce _ _ (write_le-Appends 4 h.bits)
              (write_le-Appends 4 h.nonce)))))

pub header-Reads : (h : BlockHeader) → IsHeader h → Reads read_header (encode_header h) h
unfolding read_header
header-Reads h f =
    let bits = to_unsigned 32 h.version in
    let read : BlockHeader = record h { version = to_signed 32 bits } in
    subst (λ (v : ℤ). Reads read_header (encode_header h) (record h { version = v }))
      (to_signed-to_unsigned h.version f.version_fits)
      (bind-Reads (read_le 4) _ _ _ bits read
        (read_le-Reads 4 bits (omega (arith, to_unsigned-bounded h.version)))
        (bind-Reads (read_bytes 32) _ _ _ h.prev_block read
          (read_bytes-Reads 32 h.prev_block f.prev_block_size)
          (bind-Reads (read_bytes 32) _ _ _ h.merkle_root read
            (read_bytes-Reads 32 h.merkle_root f.merkle_root_size)
            (bind-Reads (read_le 4) _ _ _ h.timestamp read
              (read_le-Reads 4 h.timestamp (omega (arith, f.timestamp_fits)))
              (bind-Reads (read_le 4) _ _ _ h.bits read
                (read_le-Reads 4 h.bits (omega (arith, f.bits_fit)))
                (map-Reads (read_le 4) (λ nonce. record read { nonce = nonce }) _ h.nonce
                  (read_le-Reads 4 h.nonce (omega (arith, f.nonce_fits)))))))))
