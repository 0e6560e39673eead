-- ===== src/Script.antt =====
-- src/hornetlib/protocol/script: writing and parsing Bitcoin scripts.
pub mod Op
pub mod Minimal
pub mod Writer
pub mod Parser
pub mod RoundTrip
pub mod Runtime
mod Tests
