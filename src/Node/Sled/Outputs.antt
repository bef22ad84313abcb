-- ===== src/Node/Sled/Outputs.antt =====
-- `impl UtxoStore for SledStore`.
use better_call_chain.Prelude.{ℕ, suc, ◌++◌, List, [], ◌∷◌, Option, none, some, Result, ok, ◌>>=◌}
use better_call_chain.Core.Types.{Bytes, TxHash, TxOutRef, TxInput, TxOutput, Transaction, Block}
use better_call_chain.Core.Crypto.{Crypto}
use better_call_chain.Core.Merkle.{tx_hash}
use better_call_chain.Core.Utxo.{out_ref_at}
use better_call_chain.Core.Memory.{StoreResult}
use better_call_chain.Node.State.{and_write}
use better_call_chain.Node.Sled.{
  Sled, SledError, SledStore, Json, encode, decode_found, failed, height_key, transaction,
  meta_apply_in_progress,
}

unfoldable pub spent_key : Json → ℕ → TxOutRef → Bytes
spent_key j height r = height_key height ++ j.out_ref.to_vec r

-- The trees of the transactions on the outputs.
pub record OutputTrees (d : Sled) : Type 0 where
  pub utxo : d.Tree
  pub spent_h : d.Tree

unfoldable pub output_list : (d : Sled) → OutputTrees d → List d.Tree
output_list d t = t.utxo ∷ t.spent_h ∷ []

unfoldable pub output_trees : (d : Sled) → SledStore d → OutputTrees d
output_trees d s = record { utxo = s.utxo; spent_h = s.spent_h }

unfoldable pub with_outputs :
    (d : Sled)
    → SledStore d
    → OutputTrees d × StoreResult (Unit {0})
    → SledStore d × StoreResult (Unit {0})
with_outputs d s (t, r) = (record s { utxo = t.utxo; spent_h = t.spent_h }, r)

-- `self.meta.insert(…)?` and `self.meta.remove(…)?`
unfoldable pub with_meta :
    (d : Sled)
    → SledStore d
    → d.Tree × Result SledError (Unit {0})
    → SledStore d × StoreResult (Unit {0})
with_meta d s (t, r) = (record s { meta = t }, failed r)

module _ (d : Sled) (j : Json) where
  unfoldable pub get_output : SledStore d → TxOutRef → StoreResult (Option TxOutput)
  get_output s r = do key ← encode j.out_ref r; decode_found j.output (d.get s.utxo key)

  -- The body of `for input in &tx.inputs` in `apply_block`.
  unfoldable pub keep_spent : ℕ → TxOutRef → Option Bytes → d.Tree → Result SledError d.Tree
  keep_spent height r none spent_h = ok spent_h
  keep_spent height r (some prev_out) spent_h =
      d.staged_insert spent_h (spent_key j height r) prev_out

  unfoldable pub spend : ℕ → TxOutRef → OutputTrees d → Result SledError (OutputTrees d)
  spend height r t = do
    found ← d.staged_get t.utxo (j.out_ref.to_vec r)
    spent_h ← keep_spent height r found t.spent_h
    utxo ← d.staged_remove t.utxo (j.out_ref.to_vec r)
    ok (record { utxo = utxo; spent_h = spent_h })

  unfoldable pub spend_all : ℕ → List TxInput → OutputTrees d → Result SledError (OutputTrees d)
  spend_all height [] t = ok t
  spend_all height (input ∷ inputs) t = spend height input.out_ref t >>= spend_all height inputs

  -- The loop over `tx.outputs.iter().enumerate()`.
  unfoldable pub create_all : TxHash → ℕ → List TxOutput → d.Tree → Result SledError d.Tree
  create_all hash index [] utxo = ok utxo
  create_all hash index (output ∷ outputs) utxo =
      d.staged_insert utxo (j.out_ref.to_vec (out_ref_at hash index)) (j.output.to_vec output)
      >>= create_all hash (suc index) outputs

  module _ (c : Crypto) where
    unfoldable pub apply_tx : ℕ → Transaction → OutputTrees d → Result SledError (OutputTrees d)
    apply_tx height tx t = do
      spent ← spend_all height tx.inputs t
      utxo ← create_all (tx_hash c tx) 0 tx.outputs spent.utxo
      ok (record spent { utxo = utxo })

    unfoldable pub apply_txs :
        ℕ → List Transaction → OutputTrees d → Result SledError (OutputTrees d)
    apply_txs height [] t = ok t
    apply_txs height (tx ∷ txs) t = apply_tx height tx t >>= apply_txs height txs

    -- The transaction of `apply_block`.
    unfoldable pub write_txs : SledStore d → Block → SledStore d × StoreResult (Unit {0})
    write_txs s block = with_outputs d s (
        transaction d (output_list d) (output_trees d s)
          (apply_txs block.header.height block.txs (output_trees d s)))

    unfoldable pub apply_block : SledStore d → Block → SledStore d × StoreResult (Unit {0})
    apply_block s block =
        and_write
          (and_write
            (with_meta d s
              (d.insert s.meta meta_apply_in_progress (height_key block.header.height)))
            (λ t. write_txs t block))
          (λ t. with_meta d t (d.remove t.meta meta_apply_in_progress))
