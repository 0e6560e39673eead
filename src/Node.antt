-- ===== src/Node.antt =====
-- src/hornetnodelib: the node that drives the protocol with its peers.
pub mod Negotiator
pub mod BlockSync
pub mod HeaderSync
mod Tests
