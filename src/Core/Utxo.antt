-- ===== src/Core/Utxo.antt =====
-- The UTXO part of crates/bcc-core/src/store/memory.rs: `apply_block` and `rollback_block` on the
-- map of unspent outputs, without the lock and the height index.
pub mod Rollback
pub mod Supply
pub mod Agree
use better_call_chain.Prelude.{
  ℕ, zero, suc, ◌%◌, List, [], ◌∷◌, ◌++◌, map, reverse, Option, none, some, length,
}
use mathlib.Core.List.{lookup}
use better_call_chain.Prelude.Maps.{insert, remove}
use better_call_chain.Prelude.Words.{u32_mod}
use better_call_chain.Core.Types.{
  TxHash, TxOutRef, TxInput, TxOutput, Transaction, out_ref_discrete,
}
use better_call_chain.Core.Crypto.{Crypto}
use better_call_chain.Core.Merkle.{tx_hash}

-- `HashMap<TxOutRef, TxOutput>`, and `Vec<(TxOutRef, TxOutput)>`.
abbrev pub UtxoMap : Type 0
UtxoMap = List (TxOutRef × TxOutput)

abbrev pub get_utxo : TxOutRef → UtxoMap → Option TxOutput
get_utxo = lookup out_ref_discrete

abbrev pub put_utxo : TxOutRef → TxOutput → UtxoMap → UtxoMap
put_utxo = insert out_ref_discrete

abbrev pub remove_utxo : TxOutRef → UtxoMap → UtxoMap
remove_utxo = remove out_ref_discrete

-- The two tables that the loops of `apply_block` change.
pub record Tables : Type 0 where
  pub utxo : UtxoMap
  pub spent : UtxoMap

-- `if let Some(prev_out) = utxo.remove(&input.out_ref) { block_spent.push(…) }`
unfoldable pub spend : TxOutRef → Tables → Tables
spend r t = elim (get_utxo r t.utxo) [
  | none ↦ t
  | some prev_out ↦ record t { utxo = remove_utxo r t.utxo; spent = t.spent ++ (r, prev_out) ∷ [] }
]

unfoldable pub spend_all : List TxInput → Tables → Tables
spend_all [] t = t
spend_all (input ∷ inputs) t = spend_all inputs (spend input.out_ref t)

-- `TxOutRef { tx_hash, index: index as u32 }`
abbrev pub out_ref_at : TxHash → ℕ → TxOutRef
out_ref_at hash index = record { tx_hash = hash; index = index % u32_mod }

-- The loop over `tx.outputs.iter().enumerate()`.
unfoldable pub create_all : TxHash → ℕ → List TxOutput → UtxoMap → UtxoMap
create_all hash index [] m = m
create_all hash index (o ∷ os) m =
    create_all hash (suc index) os (put_utxo (out_ref_at hash index) o m)

-- `for index in 0..tx.outputs.len() { utxo.remove(…) }`
unfoldable pub uncreate_all : TxHash → ℕ → List TxOutput → UtxoMap → UtxoMap
uncreate_all hash index [] m = m
uncreate_all hash index (o ∷ os) m =
    uncreate_all hash (suc index) os (remove_utxo (out_ref_at hash index) m)

-- `for (out_ref, output) in restored { utxo.insert(out_ref, output); }`
unfoldable pub restore_all : UtxoMap → UtxoMap → UtxoMap
restore_all [] m = m
restore_all ((r, o) ∷ spent) m = restore_all spent (put_utxo r o m)

-- The references of the outputs that one transaction creates.
unfoldable pub created_at : TxHash → ℕ → List TxOutput → List TxOutRef
created_at hash index [] = []
created_at hash index (o ∷ os) = out_ref_at hash index ∷ created_at hash (suc index) os

-- The references that the transactions spend.
unfoldable pub consumed : List Transaction → List TxOutRef
consumed [] = []
consumed (tx ∷ txs) = map (λ i. i.out_ref) tx.inputs ++ consumed txs

module _ (c : Crypto) where
  unfoldable pub apply_tx : Transaction → Tables → Tables
  apply_tx tx t =
      let t' = spend_all tx.inputs t in
      record t' { utxo = create_all (tx_hash c tx) 0 tx.outputs t'.utxo }

  unfoldable pub apply_txs : List Transaction → Tables → Tables
  apply_txs [] t = t
  apply_txs (tx ∷ txs) t = apply_txs txs (apply_tx tx t)

  unfoldable pub uncreate_tx : Transaction → UtxoMap → UtxoMap
  uncreate_tx tx m = uncreate_all (tx_hash c tx) 0 tx.outputs m

  unfoldable pub uncreate_txs : List Transaction → UtxoMap → UtxoMap
  uncreate_txs [] m = m
  uncreate_txs (tx ∷ txs) m = uncreate_txs txs (uncreate_tx tx m)

  -- The loop `for tx in block.txs.iter().rev()`, and the restored outputs.
  unfoldable pub rollback_txs : List Transaction → UtxoMap → UtxoMap → UtxoMap
  rollback_txs txs spent m = restore_all spent (uncreate_txs (reverse txs) m)

  -- The references of all outputs that the transactions create.
  unfoldable pub created : List Transaction → List TxOutRef
  unfolding created_at
  created [] = []
  created (tx ∷ txs) = created_at (tx_hash c tx) 0 tx.outputs ++ created txs
