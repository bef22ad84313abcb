-- ===== src/Client/Errors.antt =====
-- crates/bcc-client/src/error.rs; the texts are left out.
use better_call_chain.Prelude.{ℕ}

pub data ClientError : Type 0 where
  keystore_io keystore_parse wrong_passphrase passphrase_mismatch rpc : ClientError
  node_error : (status : ℕ) → ClientError
  address : ClientError
  insufficient_funds : (have need : ℕ) → ClientError
  serialization hex keystore_exists config : ClientError
