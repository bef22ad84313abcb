-- ===== src/Core.antt =====
-- The crate crates/bcc-core.
pub mod Types
pub mod Crypto
pub mod Address
pub mod Merkle
pub mod Election
pub mod Validation
pub mod Utxo
pub mod Memory
