-- ===== src/Node/Sled/Reverts.antt =====
-- `SledStore::rollback_block` takes the store back to where it was before the block was inserted and
-- applied.
use better_call_chain.Prelude.{ℕ, ◌<◌, ◌≡◌, refl, true, none, arith, reverse, ℕ_discrete}
use better_call_chain.Prelude.Words.{u64_mod}
use better_call_chain.Prelude.Trees.{tree_get, tree_get-insert}
use better_call_chain.Core.Types.{TxOutRef, Block}
use better_call_chain.Core.Crypto.{Crypto}
use better_call_chain.Core.Utxo.{get_utxo, created}
use better_call_chain.Core.Utxo
use better_call_chain.Core.Utxo.Rollback.{among, last_of}
use better_call_chain.Core.Memory.{MemoryStore, spent_at}
use better_call_chain.Node.Sled.{Sled, SledLaws, SledStore, Json, JsonLaws, Outcome}
use better_call_chain.Node.Sled.Keys.{spent_key_inj}
use better_call_chain.Node.Sled.Outcomes.{
  Outcome-map, Outcome-all, Outcome-both, Leaves, transaction-Leaves, with_outputs-Leaves,
}
use better_call_chain.Node.Sled.Effects.{as_bytes, HoldsOf}
use better_call_chain.Node.Sled.Frame.{rollback_txs-frame}
use better_call_chain.Node.Sled.Represents.{Represents}
use better_call_chain.Node.Sled.Outputs.{output_list, output_trees, spent_key}
use better_call_chain.Node.Sled.Rollback.{rollback_txs, revert_txs}
use better_call_chain.Node.Sled.Undo.{AreApart, rollback_txs-Holds}
use better_call_chain.Node.Sled.Writes.{applied, tables_of, no_entry}

-- The outputs that the block creates are new, its height has not been applied, and no two of its
-- transactions spend or create the same output.
pub record IsNew (c : Crypto) (b : Block) (m : MemoryStore) : Type 0 where
  pub apart : AreApart c b.txs
  pub fresh : (r : TxOutRef) → among r (created c b.txs) ≡ true → get_utxo r m.utxo ≡ none
  pub unapplied : tree_get b.header.height m.spent ≡ none

module _ (c : Crypto) (d : Sled) (Failed : Type 0) (laws : SledLaws d Failed) (j : Json)
    (jl : JsonLaws j) (b : Block) (small : b.header.height < u64_mod) where
  module _ (m : MemoryStore) (new : IsNew c b m) (s : SledStore d)
      (rep : Represents c d Failed laws j s (applied c b m)) where
    undone :
        (r : TxOutRef)
        → Outcome Failed
            (HoldsOf d Failed laws j jl b.header.height small r (tables_of m))
            (rollback_txs d j c b.header.height (reverse b.txs) (output_trees d s))
    unfolding output_trees last_of
    undone r =
        rollback_txs-Holds d Failed laws j jl b.header.height small r c b.txs (output_trees d s)
          (tables_of m) new.apart (λ p. refl) (new.fresh r)
          (record {
            unspent = rep.unspent r;
            kept = ground (
              arith,
              rep.kept b.header.height r small,
              tree_get-insert b.header.height b.header.height
                  (Utxo.apply_txs c b.txs (tables_of m)).spent m.spent,
            );
          })

    kept-reverted :
        (h : ℕ) (r : TxOutRef)
        → h < u64_mod
        → Outcome Failed
            (λ t.
              laws.find t.spent_h (spent_key j h r)
              ≡ as_bytes j.output (last_of r (spent_at h m.spent)))
            (rollback_txs d j c b.header.height (reverse b.txs) (output_trees d s))
    unfolding output_trees last_of
    kept-reverted h r hs =
        let t = Utxo.apply_txs c b.txs (tables_of m) in
        let stored = tree_get-insert h b.header.height t.spent m.spent in
        elim (ℕ_discrete h b.header.height) [
          | yes e ↦ Outcome-map (undone r) (λ u k. ground (arith, k.kept, e, new.unapplied))
          | no ne ↦
              Outcome-map
                (rollback_txs-frame d Failed laws j b.header.height (spent_key j h r)
                  (λ x q. ne (spent_key_inj j jl h b.header.height r x hs small q).0) c
                  (reverse b.txs) (output_trees d s))
                (λ u k. ground (arith, k, ne, rep.kept h r hs, stored))
        ]

    pub revert_txs-Represents :
        Leaves Failed (λ u. Represents c d Failed laws j u m) (revert_txs d j c s b)
    unfolding revert_txs output_trees
    revert_txs-Represents =
        with_outputs-Leaves d Failed laws s
          (transaction-Leaves d Failed laws (output_list d) (output_trees d s) (
            Outcome-both (Outcome-all no_entry.1 (λ r. Outcome-map (undone r) (λ u k. k.unspent)))
              (Outcome-all no_entry (λ i. kept-reverted i.0 i.1 i.2))))
          (λ t p. record {
            by_height = rep.by_height;
            by_hash = rep.by_hash;
            heights = rep.heights;
            last = rep.last;
            unspent = p.0;
            kept = λ h r hs. p.1 (h, r, hs);
            registered = rep.registered;
          })
