-- ===== src/Node.antt =====
-- The crate crates/bcc-node.
pub mod Errors
pub mod IndexMap
pub mod Mempool
pub mod Sled
pub mod State
pub mod Handler
pub mod Ticker
pub mod Sync
pub mod Api
pub mod Clock
pub mod Genesis
pub mod Config
