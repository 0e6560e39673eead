-- ===== src/Encoding.antt =====
-- src/hornetlib/encoding: the byte-stream writer and reader, and the little-endian byte order that
-- endian.h gives a little-endian machine.
pub mod Endian
pub mod Writer
pub mod Reader
pub mod RoundTrip
pub mod Codec
mod Tests
