-- ===== src/Node/Sled/Inserts.antt =====
-- `insert` and `upsert` of `SledStore` do what they do on `MemoryStore`.
use better_call_chain.Prelude.{
  ◌<◌, ◌≡◌, refl, ◌≢◌, ◌⊎◌, inl, inr, some, ok, err, arith, ensure-yes, ensure-no, ite,
}
use better_call_chain.Prelude.Words.{u64_mod}
use better_call_chain.Prelude.Trees.{tree_insert, tree_last, tree_get-insert}
use better_call_chain.Prelude.Maps.{lookup-insert}
use better_call_chain.Prelude.Maps
use better_call_chain.Core.Types.{
  Bytes, Address, Block, Validator, backend, address_discrete, bytes_discrete,
}
use better_call_chain.Core.Crypto.{Crypto}
use better_call_chain.Core.Address.{from_pubkey_bytes}
use better_call_chain.Core.Merkle.{block_hash}
use better_call_chain.Core.Memory.{MemoryStore}
use better_call_chain.Core.Memory
use better_call_chain.Node.Sled.{
  Sled, SledLaws, SledStore, Json, Outcome, holding, height_key, meta_tip,
}
use better_call_chain.Node.Sled.Keys.{height_key_inj}
use better_call_chain.Node.Sled.Outcomes.{
  Outcome-bind, Outcome-map, Leaves, transaction-Leaves, with_chain-Leaves, with_validators-Leaves,
}
use better_call_chain.Node.Sled.Represents.{Represents}
use better_call_chain.Node.Sled.Chain.{ChainTrees, chain_list, chain_trees, insert_body, insert}
use better_call_chain.Node.Sled.Registry.{upsert}

module _ (c : Crypto) (d : Sled) (Failed : Type 0) (laws : SledLaws d Failed) (j : Json) where
  -- What the transaction of `insert` writes.
  record Inserted (b : Block) (s : SledStore d) (t : ChainTrees d) : Type 0 where
    by_height :
        (k : Bytes)
        → laws.find t.blocks_h k
          ≡ ite
              (bytes_discrete k (height_key b.header.height))
              (some (j.block.to_vec b))
              (laws.find s.blocks_h k)
    by_hash :
        (k : Bytes)
        → laws.find t.blocks_idx k
          ≡ ite
              (bytes_discrete k (block_hash c b))
              (some (height_key b.header.height))
              (laws.find s.blocks_idx k)
    last : laws.find t.meta meta_tip ≡ some (j.tip.to_vec (b.header.height, block_hash c b))

  insert_body-Inserted :
      (b : Block) (s : SledStore d)
      → Outcome Failed (Inserted b s) (insert_body d j c b (j.block.to_vec b) (chain_trees d s))
  unfolding insert_body chain_trees
  insert_body-Inserted b s =
      Outcome-bind
        (laws.staged_insert_lem s.blocks_h (height_key b.header.height) (j.block.to_vec b))
        (λ bh e.
          Outcome-bind
            (laws.staged_insert_lem s.blocks_idx (block_hash c b) (height_key b.header.height))
            (λ bi f.
              Outcome-bind
                (laws.staged_insert_lem s.meta meta_tip
                  (j.tip.to_vec (b.header.height, block_hash c b)))
                (λ meta g.
                  holding
                    (record { by_height = e; by_hash = f; last = ground (arith, g meta_tip) }))))

  -- A block at a height below 2^64 that is the highest of the chain is inserted as into the memory
  -- store, or an operation of the database failed.
  pub insert-Represents :
      (s : SledStore d) (m : MemoryStore) (b : Block)
      → Represents c d Failed laws j s m
      → b.header.height < u64_mod
      → tree_last (tree_insert b.header.height b m.blocks) ≡ some (b.header.height, b)
      → (m' : MemoryStore) × (Memory.insert_block c m b ≡ ok m')
        × Leaves Failed (λ u. Represents c d Failed laws j u m') (insert d j c s b)
  unfolding insert Memory.insert_block
  insert-Represents s m b rep small highest = (
    record m {
      blocks = tree_insert b.header.height b m.blocks;
      index = Maps.insert bytes_discrete (block_hash c b) b.header.height m.index;
    },
    refl,
    with_chain-Leaves d Failed laws s
        (transaction-Leaves d Failed laws (chain_list d) (chain_trees d s)
          (insert_body-Inserted b s))
        (λ t p. record {
          by_height = λ h hs. ground (
            arith,
            p.by_height (height_key h),
            height_key_inj h b.header.height hs small,
            rep.by_height h hs,
            tree_get-insert h b.header.height b m.blocks,
          );
          by_hash = λ hash. ground (
            arith,
            p.by_hash hash,
            rep.by_hash hash,
            lookup-insert bytes_discrete hash (block_hash c b) b.header.height m.index,
          );
          heights = λ hash h e. ground (
            arith,
            e,
            small,
            rep.heights hash h,
            lookup-insert bytes_discrete hash (block_hash c b) b.header.height m.index,
          );
          last = ground (arith, p.last, highest);
          unspent = rep.unspent;
          kept = rep.kept;
          registered = rep.registered;
        }),
  )

  -- A validator is stored as in the memory store, or an operation of the database failed; one whose
  -- address is not that of its key is refused by both, and nothing is written.
  pub upsert-Represents :
      (s : SledStore d) (m : MemoryStore) (v : Validator)
      → Represents c d Failed laws j s m
      → ((v.address ≢ from_pubkey_bytes c v.pubkey)
          × (Memory.upsert c m v ≡ err backend)
          × (upsert d j c s v ≡ (s, err backend)))
        ⊎ ((m' : MemoryStore) × (Memory.upsert c m v ≡ ok m')
            × Leaves Failed (λ u. Represents c d Failed laws j u m') (upsert d j c s v))
  unfolding upsert Memory.upsert
  upsert-Represents s m v rep = elim (address_discrete v.address (from_pubkey_bytes c v.pubkey)) [
    | no n ↦
        rw
          (
            ensure-no (address_discrete v.address (from_pubkey_bytes c v.pubkey)) backend n,
            upsert,
            Memory.upsert,
          )
          (inl (n, refl, refl))
    | yes p ↦
        rw
          (
            ensure-yes (address_discrete v.address (from_pubkey_bytes c v.pubkey)) backend p,
            upsert,
            Memory.upsert,
          )
          (inr (
            record m { validators = Maps.insert address_discrete v.address v m.validators },
            refl,
            with_validators-Leaves d Failed laws s
                {P = λ t.
                  (a : Address)
                  → laws.find t a.text
                    ≡ ite (bytes_discrete a.text v.address.text) (some (j.validator.to_vec v))
                        (laws.find s.validators a.text)}
                (d.insert s.validators v.address.text (j.validator.to_vec v))
                (Outcome-map (laws.insert_lem s.validators v.address.text (j.validator.to_vec v))
                  (λ _ f a. f a.text))
                (λ t f. record {
                  by_height = rep.by_height;
                  by_hash = rep.by_hash;
                  heights = rep.heights;
                  last = rep.last;
                  unspent = rep.unspent;
                  kept = rep.kept;
                  registered = λ a. ground (
                    arith,
                    f a,
                    rep.registered a,
                    lookup-insert address_discrete a v.address v m.validators,
                  );
                }),
          ))
  ]
