-- ===== src/Node/Sled/Rollback.antt =====
-- `SledStore::rollback_block`.
use better_call_chain.Prelude.{
  ℕ, suc, ◌-◌, List, [], ◌∷◌, Option, none, some, Result, ok, err, ◌>>=◌, reverse, if◌then◌else◌,
  ◌==◌,
}
use better_call_chain.Core.Types.{Bytes, TxHash, TxOutRef, TxInput, TxOutput, Transaction, Block}
use better_call_chain.Core.Crypto.{Crypto}
use better_call_chain.Core.Merkle.{tx_hash, block_hash}
use better_call_chain.Core.Utxo.{out_ref_at}
use better_call_chain.Core.Memory.{StoreResult}
use better_call_chain.Node.State.{and_write}
use better_call_chain.Node.Sled.{
  Sled, SledError, SledStore, Json, encode, height_key, transaction, meta_tip,
}
use better_call_chain.Node.Sled.Chain.{
  ChainTrees, chain_list, chain_trees, with_chain, get_by_height,
}
use better_call_chain.Node.Sled.Outputs.{
  OutputTrees, output_list, output_trees, with_outputs, spent_key,
}

module _ (d : Sled) (j : Json) where
  -- `for idx in 0..tx.outputs.len() { utxo_txn.remove(…)? }`
  unfoldable pub uncreate_all : TxHash → ℕ → List TxOutput → d.Tree → Result SledError d.Tree
  uncreate_all hash index [] utxo = ok utxo
  uncreate_all hash index (output ∷ outputs) utxo =
      d.staged_remove utxo (j.out_ref.to_vec (out_ref_at hash index))
      >>= uncreate_all hash (suc index) outputs

  -- The body of `for input in &tx.inputs` in `rollback_block`.
  unfoldable pub put_back :
      ℕ → TxOutRef → Option Bytes → OutputTrees d → Result SledError (OutputTrees d)
  put_back height r none t = ok t
  put_back height r (some prev_bytes) t = do
    utxo ← d.staged_insert t.utxo (j.out_ref.to_vec r) prev_bytes
    spent_h ← d.staged_remove t.spent_h (spent_key j height r)
    ok (record { utxo = utxo; spent_h = spent_h })

  unfoldable pub restore : ℕ → TxOutRef → OutputTrees d → Result SledError (OutputTrees d)
  restore height r t = do
    found ← d.staged_get t.spent_h (spent_key j height r)
    put_back height r found t

  unfoldable pub restore_all : ℕ → List TxInput → OutputTrees d → Result SledError (OutputTrees d)
  restore_all height [] t = ok t
  restore_all height (input ∷ inputs) t =
      restore height input.out_ref t >>= restore_all height inputs

  module _ (c : Crypto) where
    unfoldable pub rollback_tx : ℕ → Transaction → OutputTrees d → Result SledError (OutputTrees d)
    rollback_tx height tx t = do
      utxo ← uncreate_all (tx_hash c tx) 0 tx.outputs t.utxo
      restore_all height tx.inputs (record t { utxo = utxo })

    -- The loop over transactions that are reversed already.
    unfoldable pub rollback_txs :
        ℕ → List Transaction → OutputTrees d → Result SledError (OutputTrees d)
    rollback_txs height [] t = ok t
    rollback_txs height (tx ∷ txs) t = rollback_tx height tx t >>= rollback_txs height txs

    -- The transaction on the outputs.
    unfoldable pub revert_txs : SledStore d → Block → SledStore d × StoreResult (Unit {0})
    revert_txs s block = with_outputs d s (
        transaction d (output_list d) (output_trees d s)
          (rollback_txs block.header.height (reverse block.txs) (output_trees d s)))

    unfoldable pub parent_tip : ℕ → Option Block → StoreResult (Option Bytes)
    parent_tip parent_height none = ok none
    parent_tip parent_height (some parent) = do
      tip_bytes ← encode j.tip (parent_height, block_hash c parent)
      ok (some tip_bytes)

    unfoldable pub new_tip : SledStore d → ℕ → StoreResult (Option Bytes)
    new_tip s block_height =
        if block_height == 0
        then ok none
        else (get_by_height d j s (block_height - 1) >>= parent_tip (block_height - 1))

    unfoldable pub write_tip : Option Bytes → d.Tree → Result SledError d.Tree
    write_tip none meta = d.staged_remove meta meta_tip
    write_tip (some tip_bytes) meta = d.staged_insert meta meta_tip tip_bytes

    -- The body of the transaction on the chain.
    unfoldable pub remove_body :
        Block → Option Bytes → ChainTrees d → Result SledError (ChainTrees d)
    remove_body block tip t = do
      blocks_h ← d.staged_remove t.blocks_h (height_key block.header.height)
      blocks_idx ← d.staged_remove t.blocks_idx (block_hash c block)
      meta ← write_tip tip t.meta
      ok (record { blocks_h = blocks_h; blocks_idx = blocks_idx; meta = meta })

    -- What follows the transaction on the outputs.
    unfoldable pub remove_with :
        SledStore d → Block → StoreResult (Option Bytes) → SledStore d × StoreResult (Unit {0})
    remove_with s block (err e) = (s, err e)
    remove_with s block (ok tip) =
        with_chain d s
          (transaction d (chain_list d) (chain_trees d s) (remove_body block tip (chain_trees d s)))

    unfoldable pub remove_block : SledStore d → Block → SledStore d × StoreResult (Unit {0})
    remove_block s block = remove_with s block (new_tip s block.header.height)

    unfoldable pub rollback_block : SledStore d → Block → SledStore d × StoreResult (Unit {0})
    rollback_block s block = and_write (revert_txs s block) (λ t. remove_block t block)
