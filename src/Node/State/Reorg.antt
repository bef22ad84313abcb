-- ===== src/Node/State/Reorg.antt =====
-- `reorg_block` over the memory store: the node ends where it had never seen the old tip.
use better_call_chain.Prelude.{ℕ, ◌≡◌, refl, ap, true, [], none, some, ok, arith}
use better_call_chain.Prelude.Trees.{tree_insert, tree_get-insert}
use better_call_chain.Core.Types.{TxOutRef, Block}
use better_call_chain.Core.Crypto.{Crypto}
use better_call_chain.Core.Validation.Blocks.{AllActive, validate_block}
use better_call_chain.Core.Utxo.{UtxoMap, rollback_txs, Tables, get_utxo, apply_txs, created}
use better_call_chain.Core.Utxo.Rollback.{among}
use better_call_chain.Core.Utxo.Agree.{Agree, apply_txs-Agree}
use better_call_chain.Core.Memory.{
  MemoryStore, spent_at, get_output, get_by_height, insert_block, apply_block, rollback_block,
}
use better_call_chain.Core.Memory.Ledger.{rollback_block-apply_block}
use better_call_chain.Node.State.{memory, reorg_block}

module _ (c : Crypto) (s : MemoryStore) (parent old new : Block) (active : AllActive)
    (duration : ℕ) where
  -- A tip that `validate_block` accepted and `apply_block` applied is swapped for another block: the
  -- reorganisation succeeds, each unspent output is as if the new block had been applied in the old
  -- tip's place, and the new block stands at its height, when the outputs that the old tip created
  -- were not there before.
  pub reorg_block-apply_block :
      validate_block c old parent (get_output s) active duration ≡ ok tt
      → ((r : TxOutRef) → among r (created c old.txs) ≡ true → get_utxo r s.utxo ≡ none)
      → (with_old with_new after : MemoryStore) × (apply_block c s old ≡ ok with_old)
        × (apply_block c s new ≡ ok with_new)
        × (reorg_block (memory c) old new with_old ≡ (after, ok tt))
        × ((r : TxOutRef) → get_output after r ≡ get_output with_new r)
        × (get_by_height after new.header.height ≡ ok (some new))
  unfolding reorg_block get_output get_by_height apply_block insert_block rollback_block
  reorg_block-apply_block accepted fresh = (
    _,
    _,
    _,
    refl,
    refl,
    refl,
    λ r. ap ok (
        apply_txs-Agree c new.txs (record { utxo = rolled; spent = [] })
          (record { utxo = s.utxo; spent = [] }) restored r),
    ground (arith, tree_get-insert new.header.height new.header.height new s.blocks),
  )
    where
      t : Tables
      t = apply_txs c old.txs (record { utxo = s.utxo; spent = [] })

      rolled : UtxoMap
      rolled =
          rollback_txs c old.txs
            (spent_at old.header.height (tree_insert old.header.height t.spent s.spent)) t.utxo

      restored : Agree rolled s.utxo
      restored r =
          let (back, e, same, _, _, _, _) =
            rollback_block-apply_block c s parent old active duration accepted fresh in
          ground (arith, e, same r)
