-- ===== src/Node/Sync.antt =====
-- crates/bcc-node/src/ibd.rs: how a batch of blocks of the initial download is applied. The loop
-- over the peers and their batches is in Download.
pub mod Batch
pub mod Download
use better_call_chain.Prelude.{
  ℕ, ◌-◌, List, [], ◌∷◌, Option, none, some, Result, ok, err, ◌>>=◌, ok_or, map_err, if◌then◌else◌,
  ltb,
}
use better_call_chain.Core.Types.{Block, StoreError}
use better_call_chain.Core.Crypto.{Crypto}
use better_call_chain.Core.Memory.{StoreResult}
use better_call_chain.Core.Validation.Blocks.{validate_block}
use better_call_chain.Node.Errors.{NodeError, store, validation, p2p}
use better_call_chain.Node.State.{Stores, and_write}

-- `.map_err(NodeError::Store)?` after the writes.
abbrev pub store_error : {S : Type 0} → S × StoreResult (Unit {0}) → S × Result NodeError (Unit {0})
store_error (s, err e) = (s, err (store e))
store_error (s, ok _) = (s, ok tt)

module _ (c : Crypto) (st : Stores) (slot_duration_secs : ℕ) where
  -- A block above height 0 is validated against the stored parent.
  unfoldable pub check_block : Block → st.Storage → Result NodeError (Unit {0})
  check_block block s =
      if ltb 0 block.header.height
      then (do
        found ← map_err store (st.get_by_height s (block.header.height - 1))
        parent ← ok_or found p2p
        map_err (λ _. validation)
            (validate_block c block parent (st.get_output s) (st.all_active s) slot_duration_secs))
      else ok tt

  unfoldable pub apply_one : Block → st.Storage → st.Storage × Result NodeError (Unit {0})
  apply_one block s = elim (check_block block s) [
    | err e ↦ (s, err e)
    | ok _ ↦ store_error (and_write (st.insert s block) (λ t. st.apply_block t block))
  ]

  -- `for block in &blocks`
  unfoldable pub apply_batch : List Block → st.Storage → st.Storage × Result NodeError (Unit {0})
  apply_batch [] s = (s, ok tt)
  apply_batch (block ∷ blocks) s = elim (apply_one block s).1 [
    | err e ↦ ((apply_one block s).0, err e)
    | ok _ ↦ apply_batch blocks (apply_one block s).0
  ]
