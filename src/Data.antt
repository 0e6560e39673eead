-- ===== src/Data.antt =====
-- src/hornetlib/data: the tree of headers, with the data that is kept beside it.
pub mod Locator
pub mod HashedTree
pub mod KeyframeSidecar
pub mod ChainTree
pub mod HeaderContext
pub mod HeaderTimechain
pub mod Timechain
mod Tests
mod TimechainTests
