-- ===== src/Script/Runtime.antt =====
-- src/hornetlib/protocol/script/runtime: the machine that executes scripts.
pub mod Stack
pub mod Engine
pub mod Simulate
pub mod Processor
mod Tests
