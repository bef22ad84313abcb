-- ===== src/Node/Sled/Chain.antt =====
-- `impl BlockStore for SledStore`.
use better_call_chain.Prelude.{ℕ, List, [], ◌∷◌, Option, none, some, Result, ok, err, ◌>>=◌}
use better_call_chain.Core.Types.{Bytes, BlockHash, Block, backend}
use better_call_chain.Core.Crypto.{Crypto}
use better_call_chain.Core.Merkle.{block_hash}
use better_call_chain.Core.Memory.{StoreResult}
use better_call_chain.Node.Sled.{
  Sled, SledError, SledStore, Json, Codec, encode, decode, decode_found, failed, height_key,
  from_height_key, transaction, meta_tip,
}

-- `iter.map(|res| decode(&v)).collect()`: the first error is the answer.
unfoldable pub collect_values :
    {A : Type 0} → Codec A → List (Result SledError (Bytes × Bytes)) → StoreResult (List A)
collect_values k [] = ok []
collect_values k (res ∷ entries) =
    let rest = collect_values k entries in
    do entry ← failed res; value ← decode k entry.1; values ← rest; ok (value ∷ values)

-- The trees of the transactions on the chain.
pub record ChainTrees (d : Sled) : Type 0 where
  pub blocks_h : d.Tree
  pub blocks_idx : d.Tree
  pub meta : d.Tree

unfoldable pub chain_list : (d : Sled) → ChainTrees d → List d.Tree
chain_list d t = t.blocks_h ∷ t.blocks_idx ∷ t.meta ∷ []

unfoldable pub chain_trees : (d : Sled) → SledStore d → ChainTrees d
chain_trees d s = record { blocks_h = s.blocks_h; blocks_idx = s.blocks_idx; meta = s.meta }

-- The store with other trees of the chain, beside an answer.
unfoldable pub with_chain :
    (d : Sled)
    → SledStore d
    → ChainTrees d × StoreResult (Unit {0})
    → SledStore d × StoreResult (Unit {0})
with_chain d s (t, r) =
    (record s { blocks_h = t.blocks_h; blocks_idx = t.blocks_idx; meta = t.meta }, r)

module _ (d : Sled) (j : Json) where
  unfoldable pub get_by_height : SledStore d → ℕ → StoreResult (Option Block)
  get_by_height s height = decode_found j.block (d.get s.blocks_h (height_key height))

  -- The `match` on what the index has for the hash.
  unfoldable pub block_at :
      SledStore d → Result SledError (Option Bytes) → StoreResult (Option Block)
  block_at s (err e) = err backend
  block_at s (ok none) = ok none
  block_at s (ok (some height_bytes)) = from_height_key height_bytes >>= get_by_height s

  unfoldable pub get_by_hash : SledStore d → BlockHash → StoreResult (Option Block)
  get_by_hash s hash = block_at s (d.get s.blocks_idx hash)

  unfoldable pub tip : SledStore d → StoreResult (Option (ℕ × BlockHash))
  tip s = decode_found j.tip (d.get s.meta meta_tip)

  unfoldable pub iter_from : SledStore d → ℕ → StoreResult (List Block)
  iter_from s height = collect_values j.block (d.range_from s.blocks_h (height_key height))

  module _ (c : Crypto) where
    -- The body of the transaction.
    unfoldable pub insert_body : Block → Bytes → ChainTrees d → Result SledError (ChainTrees d)
    insert_body block encoded t = do
      blocks_h ← d.staged_insert t.blocks_h (height_key block.header.height) encoded
      blocks_idx ←
          d.staged_insert t.blocks_idx (block_hash c block) (height_key block.header.height)
      meta ←
          d.staged_insert t.meta meta_tip (j.tip.to_vec (block.header.height, block_hash c block))
      ok (record { blocks_h = blocks_h; blocks_idx = blocks_idx; meta = meta })

    unfoldable pub insert : SledStore d → Block → SledStore d × StoreResult (Unit {0})
    insert s block = elim (encode j.block block) [
      | err e ↦ (s, err e)
      | ok encoded ↦ with_chain d s (
          transaction d (chain_list d) (chain_trees d s)
            (insert_body block encoded (chain_trees d s)))
    ]
