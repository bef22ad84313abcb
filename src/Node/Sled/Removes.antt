-- ===== src/Node/Sled/Removes.antt =====
-- `SledStore::rollback_block` takes the store back to where it was before the block was inserted and
-- applied.
use better_call_chain.Prelude.{
  ℕ, ◌-◌, ◌<◌, ◌≡◌, ap, sym, ◌∙◌, ◌==◌, subst, ◌≢◌, ◌⊎◌, inl, inr, false, false, Option, none, some,
  ok, arith, ite,
}
use mathlib.Core.List.{lookup}
use better_call_chain.Prelude.Words.{u64_mod}
use better_call_chain.Prelude.Trees.{tree_get, tree_insert, tree_get-insert}
use better_call_chain.Prelude.Maps.{lookup-insert}
use better_call_chain.Prelude.Maps
use better_call_chain.Core.Types.{Bytes, Block, bytes_discrete}
use better_call_chain.Core.Crypto.{Crypto}
use better_call_chain.Core.Merkle.{block_hash}
use better_call_chain.Core.Memory.{MemoryStore, StoreResult, spent_at}
use better_call_chain.Core.Memory
use better_call_chain.Node.Sled.{
  Sled, SledLaws, SledStore, Json, JsonLaws, Outcome, failing, holding, height_key, meta_tip,
}
use better_call_chain.Node.Sled.Keys.{height_key_inj}
use better_call_chain.Node.Sled.Outcomes.{
  Outcome-bind, Outcome-map, Leaves, broken, and_write-Leaves, transaction-Leaves,
  with_chain-Leaves,
}
use better_call_chain.Node.Sled.Effects.{as_bytes}
use better_call_chain.Node.Sled.Represents.{Represents, tip_of}
use better_call_chain.Node.Sled.Chain.{ChainTrees, chain_list, chain_trees}
use better_call_chain.Node.Sled.Rollback.{
  new_tip, parent_tip, write_tip, remove_body, remove_with, remove_block, rollback_block,
}
use better_call_chain.Node.Sled.Writes.{applied}
use better_call_chain.Node.Sled.Reverts.{IsNew, revert_txs-Represents}
use better_call_chain.Node.Sled.Represents.{get_by_height-Represents}

-- The memory store after the block is inserted.
abbrev pub inserted : Crypto → Block → MemoryStore → MemoryStore
inserted c b m = record m {
  blocks = tree_insert b.header.height b m.blocks;
  index = Maps.insert bytes_discrete (block_hash c b) b.header.height m.index;
}

-- The block follows the tip: it is the first of an empty chain, or the tip is its parent. Neither
-- its height nor its hash is stored.
pub record IsNext (c : Crypto) (b : Block) (m : MemoryStore) : Type 0 where
  pub parent :
      ((b.header.height ≡ 0) × (tip_of c m ≡ none))
      ⊎ ((parent : Block) × (b.header.height ≢ 0)
          × (tree_get (b.header.height - 1) m.blocks ≡ some parent)
          × (tip_of c m ≡ some (b.header.height - 1, block_hash c parent)))
  pub no_height : tree_get b.header.height m.blocks ≡ none
  pub no_hash : lookup bytes_discrete (block_hash c b) m.index ≡ none

module _ (c : Crypto) (d : Sled) (Failed : Type 0) (laws : SledLaws d Failed) (j : Json)
    (jl : JsonLaws j) (b : Block) (small : b.header.height < u64_mod) where
  module _ (m : MemoryStore) (next : IsNext c b m) (s : SledStore d)
      (rep : Represents c d Failed laws j s (inserted c b m)) where
    parent_tip-find :
        (h : ℕ) (p : Block) (x : Option Block)
        → x ≡ some p
        → Outcome Failed (λ o. o ≡ some (j.tip.to_vec (h, block_hash c p))) (parent_tip d j c h x)
    unfolding parent_tip
    parent_tip-find h p none e = absurd (cc e)
    parent_tip-find h p (some q) e = holding (ground (arith, e))

    new_tip-Represents :
        Outcome Failed (λ o. o ≡ as_bytes j.tip (tip_of c m)) (new_tip d j c s b.header.height)
    unfolding new_tip Memory.get_by_height
    new_tip-Represents = elim next.parent [
      | inl (z, e) ↦ rw (z, new_tip) (holding (ground (arith, e)))
      | inr (p, nz, got, e) ↦
          let nonzero : (b.header.height == 0) ≡ false = ground (arith, nz) in
          rw (nonzero, new_tip)
            (Outcome-bind
              (get_by_height-Represents c d Failed laws j jl s (inserted c b m) rep
                (b.header.height - 1) (omega arith))
              (λ x f.
                Outcome-map
                  (parent_tip-find (b.header.height - 1) p x (
                    ground (
                      arith,
                      f,
                      got,
                      nz,
                      tree_get-insert (b.header.height - 1) b.header.height b m.blocks,
                    )))
                  (λ o g. ground (arith, g, e))))
    ]

    write_tip-find :
        (tip : Option Bytes) (t : d.Tree)
        → Outcome Failed (λ u. laws.find u meta_tip ≡ tip) (write_tip d j c tip t)
    unfolding write_tip
    write_tip-find none t =
        Outcome-map (laws.staged_remove_lem t meta_tip) (λ u f. ground (arith, f meta_tip))
    write_tip-find (some v) t =
        Outcome-map (laws.staged_insert_lem t meta_tip v) (λ u f. ground (arith, f meta_tip))

    -- What the transaction of `rollback_block` on the chain writes.
    record Removed (tip : Option Bytes) (t : ChainTrees d) : Type 0 where
      by_height :
          (k : Bytes)
          → laws.find t.blocks_h k
            ≡ ite (bytes_discrete k (height_key b.header.height)) none (laws.find s.blocks_h k)
      by_hash :
          (k : Bytes)
          → laws.find t.blocks_idx k
            ≡ ite (bytes_discrete k (block_hash c b)) none (laws.find s.blocks_idx k)
      last : laws.find t.meta meta_tip ≡ tip

    remove_body-Removed :
        (tip : Option Bytes)
        → Outcome Failed (Removed tip) (remove_body d j c b tip (chain_trees d s))
    unfolding remove_body chain_trees
    remove_body-Removed tip =
        Outcome-bind (laws.staged_remove_lem s.blocks_h (height_key b.header.height)) (λ bh e.
          Outcome-bind (laws.staged_remove_lem s.blocks_idx (block_hash c b)) (λ bi f.
            Outcome-bind (write_tip-find tip s.meta)
              (λ meta g. holding (record { by_height = e; by_hash = f; last = g }))))

    remove_with-Represents :
        {o : StoreResult (Option Bytes)}
        → Outcome Failed (λ o. o ≡ as_bytes j.tip (tip_of c m)) o
        → Leaves Failed (λ u. Represents c d Failed laws j u m) (remove_with d j c s b o)
    unfolding remove_with
    remove_with-Represents (failing x) = broken x
    remove_with-Represents (holding {a = tip} e) =
        with_chain-Leaves d Failed laws s
          (transaction-Leaves d Failed laws (chain_list d) (chain_trees d s)
            (remove_body-Removed tip))
          (λ t p. record {
            by_height = λ h hs. ground (
              arith,
              p.by_height (height_key h),
              height_key_inj h b.header.height hs small,
              rep.by_height h hs,
              next.no_height,
              tree_get-insert h b.header.height b m.blocks,
            );
            by_hash = λ hash. ground (
              arith,
              p.by_hash hash,
              rep.by_hash hash,
              next.no_hash,
              lookup-insert bytes_discrete hash (block_hash c b) b.header.height m.index,
            );
            heights = λ hash h e. ground (
              arith,
              e,
              next.no_hash,
              rep.heights hash h,
              lookup-insert bytes_discrete hash (block_hash c b) b.header.height m.index,
            );
            last = p.last ∙ e;
            unspent = rep.unspent;
            kept = rep.kept;
            registered = rep.registered;
          })

    remove_block-Represents :
        Leaves Failed (λ u. Represents c d Failed laws j u m) (remove_block d j c s b)
    unfolding remove_block
    remove_block-Represents = remove_with-Represents new_tip-Represents

  -- A block that follows the tip of a memory store, whose height is below 2^64, is inserted and
  -- applied there. To roll it back takes a store that represents the result back to one that
  -- represents the memory store before, or an operation of the database failed; none of the block's
  -- outputs was there before, and no two of its transactions spend or create the same output.
  pub rollback_block-Represents :
      (m with_block with_outputs : MemoryStore) (s : SledStore d)
      → IsNext c b m
      → IsNew c b m
      → Memory.insert_block c m b ≡ ok with_block
      → Memory.apply_block c with_block b ≡ ok with_outputs
      → Represents c d Failed laws j s with_outputs
      → Leaves Failed (λ u. Represents c d Failed laws j u m) (rollback_block d j c s b)
  unfolding rollback_block Memory.insert_block Memory.apply_block
  rollback_block-Represents m m1 m2 s next new e f rep =
      let first : inserted c b m ≡ m1 = cc e in
      let second : applied c b m1 ≡ m2 = cc f in
      let start =
        subst (Represents c d Failed laws j s) (sym (ap (applied c b) first ∙ second)) rep in
      and_write-Leaves
        (revert_txs-Represents c d Failed laws j jl b small (inserted c b m)
          (record { apart = new.apart; fresh = new.fresh; unapplied = new.unapplied }) s start)
        (λ u p. remove_block-Represents m next u p)
