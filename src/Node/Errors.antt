-- ===== src/Node/Errors.antt =====
-- crates/bcc-node/src/error.rs; the texts are left out.
use better_call_chain.Core.Types.{StoreError}

pub data NodeError : Type 0 where
  store : StoreError → NodeError
  validation p2p io sled config shutdown : NodeError
