-- ===== src/Node/Mempool/Invariant.antt =====
-- The invariant of the pool, and that `remove` and an insert keep it.
use better_call_chain.Prelude.{
  ℕ, ◌≤◌, ◌<◌, ◌≡◌, refl, ◌≢◌, true, false, List, [], ◌∷◌, none, some, Option-cases, Bool-cases,
  ite, arith, ◌⊎◌, inl, inr,
}
use mathlib.Core.List.{lookup}
use better_call_chain.Prelude.Maps.{
  contains, remove, lookup-insert, lookup-remove, DistinctKeys, DistinctKeys-insert,
  DistinctKeys-remove,
}
use better_call_chain.Core.Types.{TxHash, TxOutRef, Transaction, bytes_discrete}
use better_call_chain.Core.Crypto.{Crypto}
use better_call_chain.Core.Merkle.{tx_hash}
use better_call_chain.Core.Utxo.Rollback.{among}
use better_call_chain.Core.Utxo.Supply.{refs}
use better_call_chain.Node.IndexMap.{IndexMap}
use better_call_chain.Node.Mempool.{
  Mempool, value_of, get_value, release_inputs, conflicts, remove_one, remove_hashes, insert_tx,
  empty,
}
use better_call_chain.Node.Mempool.InFlight.{among-hold, among-release, conflicts_none, value_in}

module _ (c : Crypto) (im : IndexMap) where
  -- The transaction is in the pool under the hash and spends the reference.
  abbrev pub SpentBy : Mempool im → TxOutRef → TxHash → Transaction → Type 0
  SpentBy p r k tx = (im.get k p.txs ≡ some tx) × (among r (refs tx.inputs) ≡ true)

  -- The pool is within its size, each transaction stands under its own hash with its value, the
  -- references in flight are exactly those that the pool's transactions spend, and no two of them
  -- spend the same one.
  pub record IsConsistent (p : Mempool im) : Type 0 where
    pub bounded : im.len p.txs ≤ p.max_size
    pub keyed : (k : TxHash) (tx : Transaction) → im.get k p.txs ≡ some tx → tx_hash c tx ≡ k
    pub distinct : DistinctKeys bytes_discrete p.values
    pub valued : (k : TxHash) → get_value k p.values ≡ value_in (im.get k p.txs)
    pub held :
        (r : TxOutRef) (k : TxHash) (tx : Transaction)
        → SpentBy p r k tx
        → among r p.in_flight ≡ true
    pub covered :
        (r : TxOutRef)
        → among r p.in_flight ≡ true
        → (k : TxHash) × (tx : Transaction) × SpentBy p r k tx
    pub apart :
        (r : TxOutRef) (k j : TxHash) (tx t : Transaction)
        → SpentBy p r k tx
        → SpentBy p r j t
        → k ≡ j

  pub empty-IsConsistent : (max_size : ℕ) → IsConsistent (empty c im max_size)
  unfolding empty contains lookup
  empty-IsConsistent max_size = record {
    bounded = omega (arith, im.len-new);
    keyed = λ k tx e. absurd (cc (im.get-new k));
    distinct = tt;
    valued = λ k. rw (im.get-new k) refl;
    held = λ r k tx s. absurd (cc (im.get-new k, s.0));
    covered = λ r e. absurd (cc);
    apart = λ r k j tx t s u. absurd (cc (im.get-new k, s.0));
  }

  module _ (p : Mempool im) (v : IsConsistent p) where
    removed : (hash : TxHash) (tx : Transaction) → Mempool im
    removed hash tx = record p {
      txs = im.swap_remove hash p.txs;
      in_flight = release_inputs tx.inputs p.in_flight;
      values = remove bytes_discrete hash p.values;
    }

    still :
        (hash : TxHash) (gone : Transaction) (r : TxOutRef) (k : TxHash) (tx : Transaction)
        → SpentBy (removed hash gone) r k tx
        → SpentBy p r k tx × (k ≢ hash)
    unfolding removed
    still hash gone r k tx s = ground (arith, s.0, s.1, im.get-swap_remove k hash p.txs)

    still_covered :
        (hash : TxHash) (gone : Transaction)
        → im.get hash p.txs ≡ some gone
        → (r : TxOutRef) → among r (removed hash gone).in_flight ≡ true
        → (k : TxHash) × (tx : Transaction) × SpentBy (removed hash gone) r k tx
    unfolding removed
    still_covered hash gone e r g =
        let f = v.covered r (ground (arith, g, among-release r gone.inputs p.in_flight)) in
        (
          f.0,
          f.1,
          (
            ground (
              arith,
              f.2.0,
              f.2.1,
              e,
              g,
              among-release r gone.inputs p.in_flight,
              im.get-swap_remove f.0 hash p.txs,
            ),
            f.2.1,
          ),
        )

    removed-IsConsistent :
        (hash : TxHash) (gone : Transaction)
        → im.get hash p.txs ≡ some gone
        → IsConsistent (removed hash gone)
    unfolding removed
    removed-IsConsistent hash gone e = record {
      bounded = omega (arith, v.bounded, im.len-swap_remove hash gone p.txs e);
      keyed = λ k tx g. ground (arith, g, im.get-swap_remove k hash p.txs, v.keyed k tx);
      distinct = DistinctKeys-remove bytes_discrete hash p.values v.distinct;
      valued = λ k. ground (
        arith,
        v.valued k,
        im.get-swap_remove k hash p.txs,
        lookup-remove bytes_discrete k hash p.values,
      );
      held = λ r k tx s.
          let u = still hash gone r k tx s in
          ground (
            arith,
            s.1,
            e,
            u.1,
            among-release r gone.inputs p.in_flight,
            v.held r k tx u.0,
            v.apart r k hash tx gone u.0,
          );
      covered = λ r g. still_covered hash gone e r g;
      apart = λ r k j tx t s u.
          v.apart r k j tx t (still hash gone r k tx s).0 (still hash gone r j t u).0;
    }

    pub remove_one-IsConsistent : (hash : TxHash) → IsConsistent (remove_one c im hash p)
    unfolding remove_one removed
    remove_one-IsConsistent hash = elim (Option-cases (im.get hash p.txs)) [
      | inl e ↦ rw (e, remove_one) v
      | inr (gone, e) ↦ rw (e, remove_one) (removed-IsConsistent hash gone e)
    ]

    -- An insert at a hash that is not in the pool, with room, of a transaction that spends nothing
    -- in flight.
    module _ (tx : Transaction) (room : im.len p.txs < p.max_size)
        (fresh : im.get (tx_hash c tx) p.txs ≡ none)
        (clear : conflicts tx.inputs p.in_flight ≡ false) where
      abbrev pub after : Mempool im
      after = insert_tx c im (tx_hash c tx) tx (value_of tx) p

      stored :
          (r : TxOutRef) (k : TxHash) (t : Transaction)
          → SpentBy after r k t
          → ((k ≡ tx_hash c tx) × (t ≡ tx)) ⊎ SpentBy p r k t
      unfolding insert_tx
      stored r k t s = ground (arith, s.0, s.1, im.get-insert k (tx_hash c tx) tx p.txs)

      newly_apart :
          (r : TxOutRef) (k : TxHash) (t : Transaction)
          → among r (refs tx.inputs) ≡ true
          → ¬ SpentBy p r k t
      newly_apart r k t e s =
          absurd (cc (conflicts_none r tx.inputs p.in_flight clear e, v.held r k t s))

      newly_covered :
          (r : TxOutRef)
          → among r after.in_flight ≡ true
          → (k : TxHash) × (t : Transaction) × SpentBy after r k t
      unfolding insert_tx
      newly_covered r g = elim (Bool-cases (among r (refs tx.inputs))) [
        | inl e ↦ (
          tx_hash c tx,
          tx,
          (ground (arith, im.get-insert (tx_hash c tx) (tx_hash c tx) tx p.txs), e),
        )
        | inr e ↦
            let f = v.covered r (ground (arith, g, e, among-hold r tx.inputs p.in_flight)) in
            (
              f.0,
              f.1,
              (ground (arith, f.2.0, fresh, im.get-insert f.0 (tx_hash c tx) tx p.txs), f.2.1),
            )
      ]

      pub insert_tx-IsConsistent : IsConsistent after
      unfolding insert_tx
      insert_tx-IsConsistent = record {
        bounded = omega (arith, room, im.len-insert (tx_hash c tx) tx p.txs fresh);
        keyed = λ k t g. ground (arith, g, im.get-insert k (tx_hash c tx) tx p.txs, v.keyed k t);
        distinct =
            DistinctKeys-insert bytes_discrete (tx_hash c tx) (value_of tx) p.values v.distinct;
        valued = λ k. ground (
          arith,
          v.valued k,
          im.get-insert k (tx_hash c tx) tx p.txs,
          lookup-insert bytes_discrete k (tx_hash c tx) (value_of tx) p.values,
        );
        held = λ r k t s.
            ground (arith, stored r k t s, s.1, among-hold r tx.inputs p.in_flight, v.held r k t);
        covered = λ r g. newly_covered r g;
        apart = λ r k j t u s w. ground (
          arith,
          stored r k t s,
          stored r j u w,
          newly_apart r k t,
          newly_apart r j u,
          s.1,
          w.1,
          v.apart r k j t u,
        );
      }

  -- To remove any list of hashes, pooled or not, keeps a consistent pool consistent.
  pub remove_hashes-IsConsistent :
      (hs : List TxHash) (p : Mempool im) → IsConsistent p → IsConsistent (remove_hashes c im hs p)
  unfolding remove_hashes
  remove_hashes-IsConsistent [] p v = v
  remove_hashes-IsConsistent (h ∷ hs) p v =
      remove_hashes-IsConsistent hs (remove_one c im h p) (remove_one-IsConsistent p v h)

  -- What `remove` leaves under each hash.
  pub get-remove_one :
      (j hash : TxHash) (p : Mempool im)
      → im.get j (remove_one c im hash p).txs ≡ ite (bytes_discrete j hash) none (im.get j p.txs)
  unfolding remove_one
  get-remove_one j hash p = ground (arith, im.get-swap_remove j hash p.txs)
