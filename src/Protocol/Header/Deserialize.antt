-- ===== src/Protocol/Header/Deserialize.antt =====
-- Deserialize of src/hornetlib/protocol/block_header.h.
use hornet.Encoding.Endian.{to_signed}
use hornet.Encoding.Reader.{◌>>=◌, Read, return, read_bytes, read_le}
use hornet.Protocol.Header.{BlockHeader}

unfoldable pub read_header : Read BlockHeader
read_header = do
  version ← read_le 4
  prev_block ← read_bytes 32
  merkle_root ← read_bytes 32
  timestamp ← read_le 4
  bits ← read_le 4
  nonce ← read_le 4
  return (record {
    version = to_signed 32 version;
    prev_block = prev_block;
    merkle_root = merkle_root;
    timestamp = timestamp;
    bits = bits;
    nonce = nonce;
  })
