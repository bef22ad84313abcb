-- ===== src/Node/Sled/Writes.antt =====
-- `insert`, `apply_block` and `upsert` of `SledStore` do what they do on `MemoryStore`.
use better_call_chain.Prelude.{ℕ, ◌<◌, ◌≡◌, refl, ◌∙◌, [], ℕ_discrete, ◌≢◌, none, ok, arith}
use better_call_chain.Prelude.Words.{u64_mod}
use better_call_chain.Prelude.Trees.{tree_get, tree_insert, tree_get-insert}
use better_call_chain.Core.Types.{TxOutRef, Block}
use better_call_chain.Core.Crypto.{Crypto}
use better_call_chain.Core.Utxo.{Tables, get_utxo}
use better_call_chain.Core.Utxo
use better_call_chain.Core.Utxo.Rollback.{last_of}
use better_call_chain.Core.Memory.{MemoryStore, spent_at}
use better_call_chain.Core.Memory
use better_call_chain.Node.Sled.{
  Sled, SledLaws, SledStore, Json, JsonLaws, Outcome, height_key, meta_tip, meta_apply_in_progress,
}
use better_call_chain.Node.Sled.Keys.{spent_key_inj}
use better_call_chain.Node.Sled.Outcomes.{
  Outcome-map, Outcome-all, Outcome-both, Leaves, and_write-Leaves, transaction-Leaves,
  with_outputs-Leaves, with_meta-Leaves,
}
use better_call_chain.Node.Sled.Effects.{as_bytes, HoldsOf, apply_txs-Holds}
use better_call_chain.Node.Sled.Frame.{apply_txs-frame}
use better_call_chain.Node.Sled.Represents.{Represents}
use better_call_chain.Node.Sled.Outputs.{
  output_list, output_trees, spent_key, apply_txs, write_txs, apply_block,
}

tip_apart : meta_tip ≢ meta_apply_in_progress
tip_apart e = absurd (cc e)

abbrev pub tables_of : MemoryStore → Tables
tables_of m = record { utxo = m.utxo; spent = [] }

-- The memory store after the block is applied.
abbrev pub applied : Crypto → Block → MemoryStore → MemoryStore
applied c b m =
    let t = Utxo.apply_txs c b.txs (tables_of m) in
    record m { utxo = t.utxo; spent = tree_insert b.header.height t.spent m.spent }

-- A key of `spent_h`.
abbrev pub Entry : Type 0
Entry = (h : ℕ) × TxOutRef × (h < u64_mod)

pub no_entry : Entry
no_entry = (0, record { tx_hash = []; index = 0 }, omega arith)

module _ (c : Crypto) (d : Sled) (Failed : Type 0) (laws : SledLaws d Failed) (j : Json)
    (jl : JsonLaws j) where
  -- A write to `meta` elsewhere than at the tip.
  meta-Represents :
      (s : SledStore d) (m : MemoryStore) (t : d.Tree)
      → laws.find t meta_tip ≡ laws.find s.meta meta_tip
      → Represents c d Failed laws j s m
      → Represents c d Failed laws j (record s { meta = t }) m
  meta-Represents s m t e rep = record {
    by_height = rep.by_height;
    by_hash = rep.by_hash;
    heights = rep.heights;
    last = e ∙ rep.last;
    unspent = rep.unspent;
    kept = rep.kept;
    registered = rep.registered;
  }

  holds_of :
      (s : SledStore d) (m : MemoryStore) (h : ℕ) (small : h < u64_mod)
      → Represents c d Failed laws j s m
      → tree_get h m.spent ≡ none
      → (r : TxOutRef) → HoldsOf d Failed laws j jl h small r (tables_of m) (output_trees d s)
  unfolding output_trees last_of
  holds_of s m h small rep new r = record {
    unspent = rep.unspent r;
    kept = ground (arith, rep.kept h r small, new);
  }

  module _ (b : Block) (small : b.header.height < u64_mod) where
    kept-applied :
        (s : SledStore d) (m : MemoryStore)
        → Represents c d Failed laws j s m
        → tree_get b.header.height m.spent ≡ none
        → (h : ℕ) (r : TxOutRef) → h < u64_mod
        → Outcome Failed
            (λ t.
              laws.find t.spent_h (spent_key j h r)
              ≡ as_bytes j.output (last_of r (spent_at h (applied c b m).spent)))
            (apply_txs d j c b.header.height b.txs (output_trees d s))
    unfolding output_trees
    kept-applied s m rep new h r hs =
        let t = Utxo.apply_txs c b.txs (tables_of m) in
        let stored = tree_get-insert h b.header.height t.spent m.spent in
        elim (ℕ_discrete h b.header.height) [
          | yes e ↦
              Outcome-map
                (apply_txs-Holds d Failed laws j jl b.header.height small r c b.txs
                  (output_trees d s) (tables_of m) (holds_of s m b.header.height small rep new r))
                (λ u k. ground (arith, k.kept, e, stored))
          | no ne ↦
              Outcome-map
                (apply_txs-frame d Failed laws j b.header.height (spent_key j h r)
                  (λ x q. ne (spent_key_inj j jl h b.header.height r x hs small q).0) c b.txs
                  (output_trees d s))
                (λ u k. ground (arith, k, ne, rep.kept h r hs, stored))
        ]

    write_txs-Represents :
        (s : SledStore d) (m : MemoryStore)
        → Represents c d Failed laws j s m
        → tree_get b.header.height m.spent ≡ none
        → Leaves Failed (λ u. Represents c d Failed laws j u (applied c b m)) (write_txs d j c s b)
    unfolding write_txs output_trees
    write_txs-Represents s m rep new =
        with_outputs-Leaves d Failed laws s
          (transaction-Leaves d Failed laws (output_list d) (output_trees d s) (
            Outcome-both
              (Outcome-all no_entry.1 (λ r.
                Outcome-map
                  (apply_txs-Holds d Failed laws j jl b.header.height small r c b.txs
                    (output_trees d s) (tables_of m) (holds_of s m b.header.height small rep new r))
                  (λ u k. k.unspent)))
              (Outcome-all no_entry (λ i. kept-applied s m rep new i.0 i.1 i.2))))
          (λ t p. record {
            by_height = rep.by_height;
            by_hash = rep.by_hash;
            heights = rep.heights;
            last = rep.last;
            unspent = p.0;
            kept = λ h r hs. p.1 (h, r, hs);
            registered = rep.registered;
          })

    -- A block at a height below 2^64 that has not been applied is applied as on the memory store, or
    -- an operation of the database failed.
    pub apply_block-Represents :
        (s : SledStore d) (m : MemoryStore)
        → Represents c d Failed laws j s m
        → tree_get b.header.height m.spent ≡ none
        → (m' : MemoryStore) × (Memory.apply_block c m b ≡ ok m')
          × Leaves Failed (λ u. Represents c d Failed laws j u m') (apply_block d j c s b)
    unfolding apply_block Memory.apply_block
    apply_block-Represents s m rep new = (
      applied c b m,
      refl,
      and_write-Leaves
          (and_write-Leaves
            (with_meta-Leaves d Failed laws s
              {P = λ t. laws.find t meta_tip ≡ laws.find s.meta meta_tip}
              (d.insert s.meta meta_apply_in_progress (height_key b.header.height))
              (Outcome-map
                (laws.insert_lem s.meta meta_apply_in_progress (height_key b.header.height))
                (λ _ f. ground (arith, f meta_tip, tip_apart)))
              (λ t f. meta-Represents s m t f rep))
            (λ u p. write_txs-Represents u m p new))
          (λ u p.
            with_meta-Leaves d Failed laws u
              {P = λ t. laws.find t meta_tip ≡ laws.find u.meta meta_tip}
              (d.remove u.meta meta_apply_in_progress)
              (Outcome-map (laws.remove_lem u.meta meta_apply_in_progress)
                (λ _ f. ground (arith, f meta_tip, tip_apart)))
              (λ t f. meta-Represents u (applied c b m) t f p)),
    )
