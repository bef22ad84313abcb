-- ===== src/Node/Sled/Undo.antt =====
-- The transaction of `rollback_block` undoes that of `apply_block`.
use better_call_chain.Prelude.{
  ℕ, ◌<◌, ◌≡◌, refl, true, false, List, [], ◌∷◌, ◌++◌, map, reverse, none, Result, ok, err, ◌>>=◌,
  if◌then◌else◌, arith,
}
use mathlib.Core.List.{reverse-cons}
use better_call_chain.Prelude.Words.{u64_mod}
use better_call_chain.Core.Types.{TxOutRef, Transaction}
use better_call_chain.Core.Crypto.{Crypto}
use better_call_chain.Core.Merkle.{tx_hash}
use better_call_chain.Core.Utxo.{Tables, get_utxo, out_ref_at, created_at, created, consumed}
use better_call_chain.Core.Utxo
use better_call_chain.Core.Utxo.Agree.{get_spend_all_lem, last_of_spend_all_lem}
use better_call_chain.Core.Utxo.Rollback.{among, among-append, get-create_all, last_of, or_else}
use better_call_chain.Node.Sled.{Sled, SledLaws, Json, JsonLaws, Outcome, holding}
use better_call_chain.Node.Sled.Outcomes.{Outcome-bind, Outcome-map}
use better_call_chain.Node.Sled.Effects.{HoldsOf}
use better_call_chain.Node.Sled.Restore.{uncreate_all-find, restore_all-Holds}
use better_call_chain.Node.Sled.Outputs.{OutputTrees}
use better_call_chain.Node.Sled.Rollback.{rollback_tx, rollback_txs}

bind_assoc :
    {E A B C : Type 0} (r : Result E A) {f : A → Result E C} (g : A → Result E B)
    (k : B → Result E C)
    → ((a : A) → f a ≡ g a >>= k)
    → (r >>= f) ≡ (r >>= g) >>= k
bind_assoc (err e) g k p = refl
bind_assoc (ok a) g k p = p a

abbrev pub refs_of : Transaction → List TxOutRef
refs_of tx = map (λ i. i.out_ref) tx.inputs

-- No reference is spent by two of the transactions, nor created by two.
unfoldable pub AreApart : Crypto → List Transaction → Type 0
AreApart c [] = Unit
AreApart c (tx ∷ txs) =
    ((r : TxOutRef) → among r (refs_of tx) ≡ true → among r (consumed txs) ≡ false)
    × ((r : TxOutRef)
        → among r (created_at (tx_hash c tx) 0 tx.outputs) ≡ true
        → among r (created c txs) ≡ false)
    × AreApart c txs

module _ (d : Sled) (Failed : Type 0) (laws : SledLaws d Failed) (j : Json) (jl : JsonLaws j)
    (h : ℕ) (small : h < u64_mod) (r : TxOutRef) where
  module _ (c : Crypto) where
    rollback_tx-Holds :
        (tx : Transaction) (t : OutputTrees d) (m : Tables)
        → HoldsOf d Failed laws j jl h small r (Utxo.apply_tx c tx m) t
        → (among r (refs_of tx) ≡ true → last_of r m.spent ≡ none)
        → (among r (created_at (tx_hash c tx) 0 tx.outputs) ≡ true → get_utxo r m.utxo ≡ none)
        → Outcome Failed (HoldsOf d Failed laws j jl h small r m) (rollback_tx d j c h tx t)
    unfolding rollback_tx Utxo.apply_tx
    rollback_tx-Holds tx t m e unspent fresh =
        Outcome-bind
          (uncreate_all-find d Failed laws j jl h small r (tx_hash c tx) 0 tx.outputs t.utxo _
            e.unspent)
          (λ utxo f.
            Outcome-map
              (restore_all-Holds d Failed laws j jl h small r tx.inputs (record t { utxo = utxo })
                (if among r (created_at (tx_hash c tx) 0 tx.outputs)
                  then none
                  else get_utxo r (Utxo.apply_tx c tx m).utxo)
                (last_of r spent.spent) (record { unspent = f; kept = e.kept }))
              (λ u k. record {
                unspent = ground (arith, k.unspent, at.0, at.1, at.2, unspent, fresh);
                kept = ground (arith, k.kept, at.1, unspent);
              }))
      where
        spent : Tables
        spent = Utxo.spend_all tx.inputs m

        at :
            (get_utxo r spent.utxo
              ≡ (if among r (map (λ i. i.out_ref) tx.inputs) then none else get_utxo r m.utxo))
            × (last_of r spent.spent ≡ (
                if among r (map (λ i. i.out_ref) tx.inputs)
                then or_else (get_utxo r m.utxo) (last_of r m.spent)
                else last_of r m.spent))
            × (among r (created_at (tx_hash c tx) 0 tx.outputs) ≡ false
                → get_utxo r (Utxo.create_all (tx_hash c tx) 0 tx.outputs spent.utxo)
                  ≡ get_utxo r spent.utxo)
        at = (
          get_spend_all_lem r tx.inputs m,
          last_of_spend_all_lem r tx.inputs m,
          get-create_all r (tx_hash c tx) 0 tx.outputs spent.utxo,
        )

    rollback_txs-append :
        (xs ys : List Transaction) (t : OutputTrees d)
        → rollback_txs d j c h (xs ++ ys) t ≡ rollback_txs d j c h xs t >>= rollback_txs d j c h ys
    unfolding rollback_txs
    rollback_txs-append [] ys t = refl
    rollback_txs-append (x ∷ xs) ys t =
        bind_assoc (rollback_tx d j c h x t) (rollback_txs d j c h xs) (rollback_txs d j c h ys)
          (rollback_txs-append xs ys)

    -- The conditions of the transactions that follow the first.
    still_unspent :
        (tx : Transaction) (txs : List Transaction) (m : Tables)
        → AreApart c (tx ∷ txs)
        → (among r (consumed (tx ∷ txs)) ≡ true → last_of r m.spent ≡ none)
        → among r (consumed txs) ≡ true
        → last_of r (Utxo.apply_tx c tx m).spent ≡ none
    unfolding Utxo.apply_tx consumed AreApart
    still_unspent tx txs m a unspent p = ground (
      arith,
      unspent,
      p,
      a.0 r,
      last_of_spend_all_lem r tx.inputs m,
      among-append r (map (λ i. i.out_ref) tx.inputs) (consumed txs),
    )

    still_fresh :
        (tx : Transaction) (txs : List Transaction) (m : Tables)
        → AreApart c (tx ∷ txs)
        → (among r (created c (tx ∷ txs)) ≡ true → get_utxo r m.utxo ≡ none)
        → among r (created c txs) ≡ true
        → get_utxo r (Utxo.apply_tx c tx m).utxo ≡ none
    unfolding Utxo.apply_tx created AreApart
    still_fresh tx txs m a fresh p = ground (
      arith,
      fresh,
      p,
      a.1 r,
      get_spend_all_lem r tx.inputs m,
      get-create_all r (tx_hash c tx) 0 tx.outputs (Utxo.spend_all tx.inputs m).utxo,
      among-append r (created_at (tx_hash c tx) 0 tx.outputs) (created c txs),
    )

    -- To roll the transactions back restores what the trees held for the reference.
    pub rollback_txs-Holds :
        (txs : List Transaction) (t : OutputTrees d) (m : Tables)
        → AreApart c txs
        → (among r (consumed txs) ≡ true → last_of r m.spent ≡ none)
        → (among r (created c txs) ≡ true → get_utxo r m.utxo ≡ none)
        → HoldsOf d Failed laws j jl h small r (Utxo.apply_txs c txs m) t
        → Outcome Failed
            (HoldsOf d Failed laws j jl h small r m)
            (rollback_txs d j c h (reverse txs) t)
    unfolding rollback_txs Utxo.apply_txs created consumed AreApart
    rollback_txs-Holds [] t m a unspent fresh e = holding e
    rollback_txs-Holds (tx ∷ txs) t m a unspent fresh e =
        rw (reverse-cons tx txs, rollback_txs-append (reverse txs) (tx ∷ []) t)
          (Outcome-bind
            (rollback_txs-Holds txs t (Utxo.apply_tx c tx m) a.2 (still_unspent tx txs m a unspent)
              (still_fresh tx txs m a fresh) e)
            (λ u k.
              Outcome-bind
                (rollback_tx-Holds tx u m k
                  (λ p. ground (arith, unspent, p, among-append r (refs_of tx) (consumed txs)))
                  (λ p. ground (
                    arith,
                    fresh,
                    p,
                    among-append r (created_at (tx_hash c tx) 0 tx.outputs) (created c txs),
                  )))
                (λ v k'. holding k')))
