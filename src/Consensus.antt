-- ===== src/Consensus.antt =====
-- src/hornetlib/consensus: the rules that make a header, a transaction and a block valid.
pub mod Types
pub mod Rule
pub mod Env
pub mod Ancestry
pub mod Difficulty
pub mod Merkle
pub mod HeaderRules
pub mod TransactionRules
pub mod StructureRules
pub mod ContextRules
pub mod BlockRules
mod Tests
