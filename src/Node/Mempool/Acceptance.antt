-- ===== src/Node/Mempool/Acceptance.antt =====
-- What `Mempool::add` accepts, and what it refuses.
use better_call_chain.Prelude.{
  ◌<◌, ◌≡◌, ◌≢◌, ◌↔◌, true, false, Option, none, some, Option-cases, ok, err, Result-cases, arith,
  ◌⊎◌, inl, inr,
}
use better_call_chain.Core.Types.{Bytes, TxHash, TxOutRef, Transaction}
use better_call_chain.Core.Crypto.{Crypto}
use better_call_chain.Core.Merkle.{tx_hash}
use better_call_chain.Core.Utxo.Rollback.{among}
use better_call_chain.Core.Utxo.Supply.{refs}
use better_call_chain.Core.Validation.Transactions.{UtxoGet}
use better_call_chain.Core.Validation.Transactions.Sound.{IsValidTx, validate_transaction_iff}
use better_call_chain.Node.Errors.{validation}
use better_call_chain.Node.IndexMap.{IndexMap}
use better_call_chain.Node.Mempool.{
  AddedToPool, Mempool, value_of, min_entry, conflicts, evict, add_new, add,
}
use better_call_chain.Node.Mempool.InFlight.{conflicts_some}
use better_call_chain.Node.Mempool.Invariant.{SpentBy, IsConsistent}
use better_call_chain.Node.Mempool.Eviction.{least_entry, min_entry-none}
use better_call_chain.Node.Mempool.Admission.{MakesRoom, add-Admits}

module _ (c : Crypto) (im : IndexMap) where
  -- When `add` takes a transaction in: the pool has room, or an entry of a lower value.
  abbrev pub HasPlace : Transaction → Mempool im → Type 0
  HasPlace tx p =
      (im.len p.txs < p.max_size)
      ⊎ ((k : TxHash) × (t : Transaction) × (im.get k p.txs ≡ some t) × (value_of t < value_of tx))

  MakesRoom-HasPlace :
      (tx : Transaction) (p : Mempool im) {gone : Option TxHash} {evicted : Option Bytes}
      → MakesRoom c im (value_of tx) p gone evicted
      → HasPlace tx p
  MakesRoom-HasPlace tx p (inl (space, _, _)) = inl space
  MakesRoom-HasPlace tx p (inr (k, t, full, g, below, _, _, _)) = inr (k, t, g, below)

  evict-ok :
      (tx : Transaction) (p : Mempool im)
      → IsConsistent c im p
      → HasPlace tx p
      → (out : Mempool im × Option Bytes) × (evict c im (value_of tx) p ≡ ok out)
  unfolding evict
  evict-ok tx p w (inl space) = ((p, none), ground (arith, space))
  evict-ok tx p w (inr (k, t, g, below)) = elim (Option-cases (min_entry p.values)) [
    | inl n ↦ absurd (ground (arith, n, w.valued k, g, min_entry-none p.values n k))
    | inr (least, e) ↦
        let (u, h, same, lowest) = least_entry c im p w least e in
        elim (Result-cases (evict c im (value_of tx) p)) [
          | inl (out, f) ↦ (out, f)
          | inr (r, f) ↦ absurd (ground (arith, f, e, same, lowest k t g, below))
        ]
  ]

  -- On a consistent pool `add` succeeds exactly on what is pooled already, and on a valid
  -- transaction that spends nothing in flight and has a place.
  pub add_iff :
      (get : UtxoGet) (tx : Transaction) (p : Mempool im)
      → IsConsistent c im p
      → ((out : Mempool im × AddedToPool) × (add c im get tx p ≡ ok out)) ↔ (
          (im.get (tx_hash c tx) p.txs ≢ none)
          ⊎ (IsValidTx c get tx × (conflicts tx.inputs p.in_flight ≡ false) × HasPlace tx p))
  unfolding add add_new
  add_iff get tx p w = (
    λ (out, h). elim (add-Admits c im get tx p out.0 out.1 w h) [
      | inl (t, there, _, _) ↦ inl (λ n. absurd (cc (n, there)))
      | inr k ↦ inr (k.valid, k.clear, MakesRoom-HasPlace tx p k.makes_room)
    ],
    λ h. elim (Result-cases (add c im get tx p)) [
      | inl (out, f) ↦ (out, f)
      | inr (r, f) ↦ elim h [
        | inl there ↦ absurd (there (ground (arith, f)))
        | inr (valid, clear, place) ↦
            let (out, e) = evict-ok tx p w place in
            absurd (ground (arith, f, (validate_transaction_iff c get tx).1 valid, clear, e))
      ]
    ],
  )

  -- A second transaction that spends what a pooled one spends is refused.
  pub add-double_spend :
      (get : UtxoGet) (tx t : Transaction) (p : Mempool im) (r : TxOutRef) (k : TxHash)
      → IsConsistent c im p
      → im.get (tx_hash c tx) p.txs ≡ none
      → SpentBy c im p r k t
      → among r (refs tx.inputs) ≡ true
      → add c im get tx p ≡ err validation
  unfolding add add_new
  add-double_spend get tx t p r k w n s e =
      ground (arith, n, conflicts_some r tx.inputs p.in_flight e (w.held r k t s))
