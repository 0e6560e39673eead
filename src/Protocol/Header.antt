-- ===== src/Protocol/Header.antt =====
-- src/hornetlib/protocol/block_header.h: the 80 bytes of a header, in memory and on the wire.
pub mod Deserialize
pub mod RoundTrip
use hornet.Common.{ℕ, Bytes, Option, some, Bool}
use hornet.Common.Int.{ℤ}
use hornet.Encoding.Endian.{to_unsigned}
use hornet.Encoding.Writer.{Writer, empty, write_bytes, write_le}
use hornet.Protocol.Target.{expand, meets, get_work}
use hornet.Protocol.Transaction.{Hash}
use hornet.Uint.{Words, ◌>>=◌}

pub record BlockHeader : Type 0 where
  pub version : ℤ
  pub prev_block : Hash
  pub merkle_root : Hash
  pub timestamp : ℕ
  pub bits : ℕ
  pub nonce : ℕ

unfoldable pub serialize : Writer → BlockHeader → Writer
serialize w h =
    write_le 4
      (write_le 4
        (write_le 4
          (write_bytes (write_bytes (write_le 4 w (to_unsigned 32 h.version)) h.prev_block)
            h.merkle_root)
          h.timestamp)
        h.bits)
      h.nonce

-- The object in memory has the bytes of its wire form, on a little-endian machine.
module _ (double_sha256 : Bytes → Hash) where
  unfoldable pub compute_hash : BlockHeader → Hash
  unfolding serialize
  compute_hash h = double_sha256 (serialize empty h).buffer

  unfoldable pub is_proof_of_work : BlockHeader → Option Bool
  unfolding compute_hash
  is_proof_of_work h = expand h.bits >>= λ target. some (meets (compute_hash h) target)

unfoldable pub header_work : BlockHeader → Option Words
header_work h = expand h.bits >>= get_work
