-- ===== src/Protocol.antt =====
-- src/hornetlib/protocol: the data of the chain and the arithmetic of proof of work.
pub mod Target
pub mod Transaction
pub mod Header
pub mod Block
pub mod Message
pub mod Frame
pub mod Handshake
mod Tests
mod WireTests
