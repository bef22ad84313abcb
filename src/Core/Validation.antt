-- ===== src/Core/Validation.antt =====
-- crates/bcc-core/src/validation: what a node accepts.
pub mod Transactions
pub mod Blocks
