-- ===== src/Node/Sled/Frame.antt =====
-- The transactions of a block at one height leave every other key of the tree `spent_h` alone.
use better_call_chain.Prelude.{
  ℕ, suc, ◌≡◌, refl, ◌≢◌, [], ◌∷◌, List, Option, none, some, ◌∙◌, arith,
}
use better_call_chain.Core.Types.{Bytes, TxHash, TxOutput, TxOutRef, TxInput, Transaction}
use better_call_chain.Core.Crypto.{Crypto}
use better_call_chain.Core.Merkle.{tx_hash}
use better_call_chain.Core.Utxo.{out_ref_at}
use better_call_chain.Node.Sled.{Sled, SledLaws, Json, Outcome, holding}
use better_call_chain.Node.Sled.Outcomes.{Outcome-bind, Outcome-map}
use better_call_chain.Node.Sled.Outputs.{
  OutputTrees, spent_key, keep_spent, spend, spend_all, create_all, apply_tx, apply_txs,
}
use better_call_chain.Node.Sled.Rollback.{
  uncreate_all, put_back, restore, restore_all, rollback_tx, rollback_txs,
}

module _ (d : Sled) (Failed : Type 0) (laws : SledLaws d Failed) (j : Json) (h : ℕ) (k : Bytes)
    (other : (s : TxOutRef) → k ≢ spent_key j h s) where
  keep_spent-frame :
      (s : TxOutRef) (found : Option Bytes) (t : d.Tree)
      → Outcome Failed (λ u. laws.find u k ≡ laws.find t k) (keep_spent d j h s found t)
  unfolding keep_spent
  keep_spent-frame s none t = holding refl
  keep_spent-frame s (some prev) t =
      Outcome-map (laws.staged_insert_lem t (spent_key j h s) prev)
        (λ u f. ground (arith, f k, other s))

  spend-frame :
      (s : TxOutRef) (t : OutputTrees d)
      → Outcome Failed (λ u. laws.find u.spent_h k ≡ laws.find t.spent_h k) (spend d j h s t)
  unfolding spend
  spend-frame s t = Outcome-bind (laws.staged_get_lem t.utxo (j.out_ref.to_vec s)) (λ found _.
      Outcome-bind (keep_spent-frame s found t.spent_h) (λ spent_h g.
        Outcome-bind (laws.staged_remove_lem t.utxo (j.out_ref.to_vec s)) (λ utxo _. holding g)))

  spend_all-frame :
      (is : List TxInput) (t : OutputTrees d)
      → Outcome Failed (λ u. laws.find u.spent_h k ≡ laws.find t.spent_h k) (spend_all d j h is t)
  unfolding spend_all
  spend_all-frame [] t = holding refl
  spend_all-frame (i ∷ is) t =
      Outcome-bind (spend-frame i.out_ref t)
        (λ u f. Outcome-map (spend_all-frame is u) (λ _ g. g ∙ f))

  uncreate_all-answers :
      (hash : TxHash) (index : ℕ) (os : List TxOutput) (t : d.Tree)
      → Outcome Failed (λ _. Unit {0}) (uncreate_all d j hash index os t)
  unfolding uncreate_all
  uncreate_all-answers hash index [] t = holding tt
  uncreate_all-answers hash index (o ∷ os) t =
      Outcome-bind (laws.staged_remove_lem t (j.out_ref.to_vec (out_ref_at hash index)))
        (λ u _. uncreate_all-answers hash (suc index) os u)

  put_back-frame :
      (s : TxOutRef) (found : Option Bytes) (t : OutputTrees d)
      → Outcome Failed
          (λ u. laws.find u.spent_h k ≡ laws.find t.spent_h k)
          (put_back d j h s found t)
  unfolding put_back
  put_back-frame s none t = holding refl
  put_back-frame s (some b) t =
      Outcome-bind (laws.staged_insert_lem t.utxo (j.out_ref.to_vec s) b) (λ utxo _.
        Outcome-bind (laws.staged_remove_lem t.spent_h (spent_key j h s))
          (λ spent_h f. holding (ground (arith, f k, other s))))

  restore_all-frame :
      (is : List TxInput) (t : OutputTrees d)
      → Outcome Failed (λ u. laws.find u.spent_h k ≡ laws.find t.spent_h k) (restore_all d j h is t)
  unfolding restore_all restore
  restore_all-frame [] t = holding refl
  restore_all-frame (i ∷ is) t =
      Outcome-bind
        (Outcome-bind (laws.staged_get_lem t.spent_h (spent_key j h i.out_ref))
          (λ found _. put_back-frame i.out_ref found t))
        (λ u f. Outcome-map (restore_all-frame is u) (λ _ g. g ∙ f))

  module _ (c : Crypto) where
    create_all-answers :
        (hash : TxHash) (index : ℕ) (os : List TxOutput) (t : d.Tree)
        → Outcome Failed (λ _. Unit {0}) (create_all d j hash index os t)
    unfolding create_all
    create_all-answers hash index [] t = holding tt
    create_all-answers hash index (o ∷ os) t =
        Outcome-bind
          (laws.staged_insert_lem t (j.out_ref.to_vec (out_ref_at hash index)) (j.output.to_vec o))
          (λ u _. create_all-answers hash (suc index) os u)

    apply_tx-frame :
        (tx : Transaction) (t : OutputTrees d)
        → Outcome Failed
            (λ u. laws.find u.spent_h k ≡ laws.find t.spent_h k)
            (apply_tx d j c h tx t)
    unfolding apply_tx
    apply_tx-frame tx t = Outcome-bind (spend_all-frame tx.inputs t) (λ u f.
        Outcome-bind (create_all-answers (tx_hash c tx) 0 tx.outputs u.utxo) (λ utxo _. holding f))

    pub apply_txs-frame :
        (txs : List Transaction) (t : OutputTrees d)
        → Outcome Failed
            (λ u. laws.find u.spent_h k ≡ laws.find t.spent_h k)
            (apply_txs d j c h txs t)
    unfolding apply_txs
    apply_txs-frame [] t = holding refl
    apply_txs-frame (tx ∷ txs) t =
        Outcome-bind (apply_tx-frame tx t)
          (λ u f. Outcome-map (apply_txs-frame txs u) (λ _ g. g ∙ f))

    rollback_tx-frame :
        (tx : Transaction) (t : OutputTrees d)
        → Outcome Failed
            (λ u. laws.find u.spent_h k ≡ laws.find t.spent_h k)
            (rollback_tx d j c h tx t)
    unfolding rollback_tx
    rollback_tx-frame tx t =
        Outcome-bind (uncreate_all-answers (tx_hash c tx) 0 tx.outputs t.utxo)
          (λ utxo _. restore_all-frame tx.inputs (record t { utxo = utxo }))

    pub rollback_txs-frame :
        (txs : List Transaction) (t : OutputTrees d)
        → Outcome Failed
            (λ u. laws.find u.spent_h k ≡ laws.find t.spent_h k)
            (rollback_txs d j c h txs t)
    unfolding rollback_txs
    rollback_txs-frame [] t = holding refl
    rollback_txs-frame (tx ∷ txs) t =
        Outcome-bind (rollback_tx-frame tx t)
          (λ u f. Outcome-map (rollback_txs-frame txs u) (λ _ g. g ∙ f))
