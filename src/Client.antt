-- ===== src/Client.antt =====
-- The crate crates/bcc-client.
pub mod Errors
pub mod Wallet
pub mod Keystore
pub mod Split
pub mod Rpc
pub mod Commands
