-- ===== src/Consensus/Tests.antt =====
-- A small environment and small data on which the theorems on src/hornetlib/consensus are tried: a
-- hash of 32 equal bytes, insertion sorts, and a block of one coinbase transaction.
mod Samples
mod Headers
mod Transactions
mod Blocks
mod Arithmetic
