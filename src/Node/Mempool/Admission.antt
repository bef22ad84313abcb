-- ===== src/Node/Mempool/Admission.antt =====
-- What `Mempool::add` changes, and that it keeps the pool's invariant.
use better_call_chain.Prelude.{
  ℕ, ◌≤◌, ◌<◌, ◌≡◌, refl, sym, ap, subst, ◌≢◌, Bool, true, false, Option, none, some, Option-cases,
  ok, Result-cases, ite, arith, ◌⊎◌, inl, inr,
}
use better_call_chain.Core.Types.{Bytes, TxHash, TxOutRef, Transaction, bytes_discrete}
use better_call_chain.Core.Crypto.{Crypto}
use better_call_chain.Core.Merkle.{tx_hash}
use better_call_chain.Core.Utxo.Rollback.{among}
use better_call_chain.Core.Utxo.Supply.{refs}
use better_call_chain.Core.Validation.Transactions.{UtxoGet, validate_transaction}
use better_call_chain.Core.Validation.Transactions.Sound.{IsValidTx, validate_transaction_iff}
use better_call_chain.Node.IndexMap.{IndexMap}
use better_call_chain.Node.Mempool.{
  AddedToPool, Mempool, value_of, get_value, or_zero, conflicts, evict, insert_tx, add_new, add,
}
use better_call_chain.Node.Mempool.InFlight.{conflicts_none}
use better_call_chain.Node.Mempool.Invariant.{IsConsistent, insert_tx-IsConsistent, get-remove_one}
use better_call_chain.Node.Mempool.Eviction.{conflicts_idle, Evicts, evict-Evicts, Evicts-HasRoom}

module _ (c : Crypto) (im : IndexMap) where
  -- What `add` answers of a transaction.
  abbrev pub receipt : Transaction → ℕ → Mempool im → Option Bytes → Bool → AddedToPool
  receipt tx value p evicted newly_added = record {
    tx_hash = c.hex_encode (tx_hash c tx);
    value = value;
    pool_size = im.len p.txs;
    evicted = evicted;
    newly_added = newly_added;
  }

  add_new_steps :
      (get : UtxoGet) (tx : Transaction) (p q : Mempool im) (info : AddedToPool)
      → add_new c im get tx p ≡ ok (q, info)
      → (validate_transaction c get tx ≡ ok tt)
        × (conflicts tx.inputs p.in_flight ≡ false)
        × (room : Mempool im) × (evicted : Option Bytes) × (evict c im (value_of tx) p
            ≡ ok (room, evicted))
        × (q ≡ insert_tx c im (tx_hash c tx) tx (value_of tx) room)
        × (info ≡ receipt tx (value_of tx) q evicted true)
  unfolding add_new
  add_new_steps get tx p q info h = elim (Result-cases (evict c im (value_of tx) p)) [
    | inl ((room, evicted), e) ↦ (
      ground (arith, h),
      ground (arith, h),
      room,
      evicted,
      e,
      ground (arith, h, e),
      ground (arith, h, e),
    )
    | inr (r, e) ↦ absurd (ground (arith, h, e))
  ]

  -- The code's way from the pool before to the pool after.
  Steps : UtxoGet → Transaction → Mempool im → Mempool im → AddedToPool → Type 0
  Steps get tx p q info =
      ((t : Transaction) × (im.get (tx_hash c tx) p.txs ≡ some t)
        × (q ≡ p)
        × (info ≡ receipt tx (or_zero (get_value (tx_hash c tx) p.values)) p none false))
      ⊎ ((room : Mempool im) × (im.get (tx_hash c tx) p.txs ≡ none)
          × IsValidTx c get tx
          × (conflicts tx.inputs p.in_flight ≡ false)
          × Evicts c im (value_of tx) p room info.evicted
          × (q ≡ insert_tx c im (tx_hash c tx) tx (value_of tx) room)
          × (info ≡ receipt tx (value_of tx) q info.evicted true))

  add-Steps :
      (get : UtxoGet) (tx : Transaction) (p q : Mempool im) (info : AddedToPool)
      → IsConsistent c im p
      → add c im get tx p ≡ ok (q, info)
      → Steps get tx p q info
  unfolding add Steps
  add-Steps get tx p q info w h = elim (Option-cases (im.get (tx_hash c tx) p.txs)) [
    | inl n ↦
        let (valid, clear, room, evicted, e, same, told) =
          add_new_steps get tx p q info (ground (arith, h, n)) in
        let out : info.evicted ≡ evicted = ap (λ (i : AddedToPool). i.evicted) told in
        inr (
          room,
          n,
          (validate_transaction_iff c get tx).0 valid,
          clear,
          evict-Evicts c im p w (value_of tx) (cc (e, out)),
          same,
          cc (told, out),
        )
    | inr (t, g) ↦ inl (t, g, ground (arith, h, g), ground (arith, h, g))
  ]

  -- An `add` that succeeds keeps a consistent pool consistent, and its maximal size as it was.
  pub add-IsConsistent :
      (get : UtxoGet) (tx : Transaction) (p q : Mempool im) (info : AddedToPool)
      → IsConsistent c im p
      → add c im get tx p ≡ ok (q, info)
      → IsConsistent c im q × (q.max_size ≡ p.max_size)
  unfolding insert_tx Steps
  add-IsConsistent get tx p q info w h = elim (add-Steps get tx p q info w h) [
    | inl (t, there, same, told) ↦
        subst (λ x. IsConsistent c im x × (x.max_size ≡ p.max_size)) (sym same) (w, refl)
    | inr (room, n, valid, clear, e, same, told) ↦
        let r = Evicts-HasRoom c im p w (value_of tx) e in
        subst (λ x. IsConsistent c im x × (x.max_size ≡ p.max_size)) (sym same)
          (
            insert_tx-IsConsistent c im room r.consistent tx r.room (r.absent (tx_hash c tx) n)
                (conflicts_idle tx.inputs p.in_flight room.in_flight r.idle clear),
            r.same_size,
          )
  ]

  -- What makes room for a transaction of value `v`: nothing when the pool is not full, and else the
  -- entry of least value goes, which is below `v`, and the answer names it.
  abbrev pub MakesRoom : ℕ → Mempool im → Option TxHash → Option Bytes → Type 0
  MakesRoom v p gone evicted =
      ((im.len p.txs < p.max_size) × (gone ≡ none) × (evicted ≡ none))
      ⊎ ((k : TxHash) × (t : Transaction) × (p.max_size ≤ im.len p.txs)
          × (im.get k p.txs ≡ some t)
          × (value_of t < v)
          × ((j : TxHash) (u : Transaction) → im.get j p.txs ≡ some u → value_of t ≤ value_of u)
          × (gone ≡ some k)
          × (evicted ≡ some (c.hex_encode k)))

  -- The pool `p` takes the transaction in and becomes `q`.
  pub record TakesIn (get : UtxoGet) (tx : Transaction) (p q : Mempool im) (info : AddedToPool)
      : Type 0 where
    pub fresh : im.get (tx_hash c tx) p.txs ≡ none
    pub valid : IsValidTx c get tx
    pub clear : conflicts tx.inputs p.in_flight ≡ false
    pub apart : (r : TxOutRef) → among r (refs tx.inputs) ≡ true → among r p.in_flight ≡ false
    pub gone : Option TxHash
    pub makes_room : MakesRoom (value_of tx) p gone info.evicted
    pub stored : im.get (tx_hash c tx) q.txs ≡ some tx
    pub goes : (j : TxHash) → gone ≡ some j → im.get j q.txs ≡ none
    pub stays : (j : TxHash) → j ≢ tx_hash c tx → gone ≢ some j → im.get j q.txs ≡ im.get j p.txs
    pub worth : get_value (tx_hash c tx) q.values ≡ some (value_of tx)
    pub held : (r : TxOutRef) → among r (refs tx.inputs) ≡ true → among r q.in_flight ≡ true
    pub same_size : q.max_size ≡ p.max_size
    pub told : info ≡ receipt tx (value_of tx) q info.evicted true

  -- The ways in which `add` succeeds on a consistent pool.
  abbrev pub Admits : UtxoGet → Transaction → Mempool im → Mempool im → AddedToPool → Type 0
  Admits get tx p q info =
      ((t : Transaction) × (im.get (tx_hash c tx) p.txs ≡ some t)
        × (q ≡ p)
        × (info ≡ receipt tx (value_of t) p none false))
      ⊎ TakesIn get tx p q info

  -- What an insert leaves under a hash.
  get-insert_tx :
      (tx : Transaction) (room : Mempool im) (j : TxHash)
      → im.get j (insert_tx c im (tx_hash c tx) tx (value_of tx) room).txs
        ≡ ite (bytes_discrete j (tx_hash c tx)) (some tx) (im.get j room.txs)
  unfolding insert_tx
  get-insert_tx tx room j = im.get-insert j (tx_hash c tx) tx room.txs

  module _ (get : UtxoGet) (tx : Transaction) (p q : Mempool im) (info : AddedToPool)
      (w : IsConsistent c im p) (v : IsConsistent c im q)
      (same_size : q.max_size ≡ p.max_size) where
    taken_in :
        (room : Mempool im) (gone : Option TxHash)
        → im.get (tx_hash c tx) p.txs ≡ none
        → IsValidTx c get tx
        → conflicts tx.inputs p.in_flight ≡ false
        → MakesRoom (value_of tx) p gone info.evicted
        → ((j : TxHash) → gone ≡ some j → im.get j room.txs ≡ none)
        → ((j : TxHash) → gone ≢ some j → im.get j room.txs ≡ im.get j p.txs)
        → ((j : TxHash) → gone ≡ some j → j ≢ tx_hash c tx)
        → q ≡ insert_tx c im (tx_hash c tx) tx (value_of tx) room
        → info ≡ receipt tx (value_of tx) q info.evicted true
        → TakesIn get tx p q info
    taken_in room gone fresh valid clear makes out rest other same told =
        let at : (j : TxHash)
            → im.get j q.txs ≡ ite (bytes_discrete j (tx_hash c tx)) (some tx) (im.get j room.txs) =
          λ j. rw same (get-insert_tx tx room j) in
        let stored : im.get (tx_hash c tx) q.txs ≡ some tx = ground (arith, at (tx_hash c tx)) in
        record {
          fresh = fresh;
          valid = valid;
          clear = clear;
          apart = λ r e. conflicts_none r tx.inputs p.in_flight clear e;
          gone = gone;
          makes_room = makes;
          stored = stored;
          goes = λ j g. ground (arith, at j, out j g, other j g);
          stays = λ j d g. ground (arith, at j, d, rest j g);
          worth = rw (v.valued (tx_hash c tx), stored) refl;
          held = λ r e. v.held r (tx_hash c tx) tx (stored, e);
          same_size = same_size;
          told = told;
        }

  -- An `add` that succeeds on a consistent pool finds the transaction there and changes nothing, or it
  -- takes in a valid transaction that was not there and spends nothing in flight. Then the
  -- transaction is in the pool under its hash, with its value and its inputs in flight, and so is
  -- every other transaction that was there, but for one when the pool was full: the entry of least
  -- value goes, which is below the value of the new one, and the answer names it.
  pub add-Admits :
      (get : UtxoGet) (tx : Transaction) (p q : Mempool im) (info : AddedToPool)
      → IsConsistent c im p
      → add c im get tx p ≡ ok (q, info)
      → Admits get tx p q info
  unfolding Steps
  add-Admits get tx p q info w h =
      let (v, size) = add-IsConsistent get tx p q info w h in
      elim (add-Steps get tx p q info w h) [
        | inl (t, there, same, told) ↦
            let worth : get_value (tx_hash c tx) p.values ≡ some (value_of t) =
              rw (w.valued (tx_hash c tx), there) refl in
            inl (t, there, same, rw worth at told)
        | inr (room, fresh, valid, clear, inl (space, kept, out), same, told) ↦ inr (
            taken_in get tx p q info w v size room none fresh valid clear (inl (space, refl, out))
              (λ j g. absurd (cc (g))) (λ j g. ap (λ (x : Mempool im). im.get j x.txs) kept)
              (λ j g. absurd (cc (g))) same told)
        | inr
              (
                room,
                fresh,
                valid,
                clear,
                inr (k, t, full, g, below, least, left, out),
                same,
                told,
              ) ↦
            inr (
              taken_in get tx p q info w v size room (some k) fresh valid clear
                (inr (k, t, full, g, below, least, refl, out))
                (λ j e. rw left (ground (arith, e, get-remove_one c im j k p)))
                (λ j e. rw left (ground (arith, e, get-remove_one c im j k p)))
                (λ j e. ground (arith, e, g, fresh)) same told)
      ]
