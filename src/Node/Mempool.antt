-- ===== src/Node/Mempool.antt =====
-- crates/bcc-node/src/mempool.rs. Log lines are left out.
pub mod InFlight
pub mod Invariant
pub mod Eviction
pub mod Admission
pub mod Acceptance
pub mod Drain
use better_call_chain.Prelude.{
  ℕ, Bool, true, false, ◌||◌, not, List, [], ◌∷◌, map, Option, none, some, Result, ok, err, guard,
  ok_or, map_err, ◌>>=◌, ◌>>◌, if◌then◌else◌, ltb, leb, take,
}
use mathlib.Core.List.{lookup}
use better_call_chain.Prelude.Maps.{insert, remove, contains, add as set_add, delete}
use better_call_chain.Prelude.Words.{sum_u64}
use better_call_chain.Core.Types.{
  Bytes, TxHash, TxOutRef, TxInput, Transaction, bytes_discrete, out_ref_discrete,
}
use better_call_chain.Core.Crypto.{Crypto}
use better_call_chain.Core.Merkle.{tx_hash}
use better_call_chain.Core.Validation.Transactions.{UtxoGet, amounts, validate_transaction}
use better_call_chain.Node.Errors.{NodeError, validation}
use better_call_chain.Node.IndexMap.{IndexMap}

pub record AddedToPool : Type 0 where
  pub tx_hash : Bytes
  pub value : ℕ
  pub pool_size : ℕ
  pub evicted : Option Bytes
  pub newly_added : Bool

pub record Mempool (im : IndexMap) : Type 0 where
  pub txs : im.Map
  pub in_flight : List TxOutRef
  pub values : List (TxHash × ℕ)
  pub max_size : ℕ

-- `tx.outputs.iter().map(|o| o.amount).sum()`
abbrev pub value_of : Transaction → ℕ
value_of tx = sum_u64 (amounts tx.outputs)

abbrev pub get_value : TxHash → List (TxHash × ℕ) → Option ℕ
get_value = lookup bytes_discrete

-- `.copied().unwrap_or(0)`
abbrev pub or_zero : Option ℕ → ℕ
or_zero none = 0
or_zero (some v) = v

-- `values.iter().min_by_key(|&(_, &v)| v)`: the first of the least values.
unfoldable pub min_from : TxHash × ℕ → List (TxHash × ℕ) → TxHash × ℕ
min_from best [] = best
min_from best (e ∷ m) = min_from (if ltb e.1 best.1 then e else best) m

unfoldable pub min_entry : List (TxHash × ℕ) → Option (TxHash × ℕ)
min_entry [] = none
min_entry (e ∷ m) = some (min_from e m)

-- The loops over `tx.inputs` that insert into `in_flight`, remove from it and test it.
unfoldable pub hold_inputs : List TxInput → List TxOutRef → List TxOutRef
hold_inputs [] s = s
hold_inputs (i ∷ is) s = hold_inputs is (set_add out_ref_discrete i.out_ref s)

unfoldable pub release_inputs : List TxInput → List TxOutRef → List TxOutRef
release_inputs [] s = s
release_inputs (i ∷ is) s = release_inputs is (delete out_ref_discrete i.out_ref s)

unfoldable pub conflicts : List TxInput → List TxOutRef → Bool
conflicts [] s = false
conflicts (i ∷ is) s = contains out_ref_discrete i.out_ref s || conflicts is s

-- `sort_unstable_by(|a, b| b.0.cmp(&a.0))`; which order equal values get is open.
unfoldable pub sort_in_desc : ℕ × Transaction → List (ℕ × Transaction) → List (ℕ × Transaction)
sort_in_desc e [] = e ∷ []
sort_in_desc e (f ∷ l) = if ltb e.0 f.0 then f ∷ sort_in_desc e l else e ∷ f ∷ l

unfoldable pub sort_desc : List (ℕ × Transaction) → List (ℕ × Transaction)
sort_desc [] = []
sort_desc (e ∷ l) = sort_in_desc e (sort_desc l)

module _ (c : Crypto) (im : IndexMap) where
  -- `Mempool::new`
  unfoldable pub empty : ℕ → Mempool im
  empty max_size = record { txs = im.new; in_flight = []; values = []; max_size = max_size }

  unfoldable pub remove_one : TxHash → Mempool im → Mempool im
  remove_one hash p = elim (im.get hash p.txs) [
    | none ↦ p
    | some tx ↦ record p {
      txs = im.swap_remove hash p.txs;
      in_flight = release_inputs tx.inputs p.in_flight;
      values = remove bytes_discrete hash p.values;
    }
  ]

  -- `Mempool::remove`
  unfoldable pub remove_hashes : List TxHash → Mempool im → Mempool im
  remove_hashes [] p = p
  remove_hashes (h ∷ hs) p = remove_hashes hs (remove_one h p)

  -- At capacity the entry of least value goes, if the new one is worth more.
  unfoldable pub evict : ℕ → Mempool im → Result NodeError (Mempool im × Option Bytes)
  evict new_value p =
      if leb p.max_size (im.len p.txs)
      then (do
        least ← ok_or (min_entry p.values) validation
        guard (ltb least.1 new_value) validation
        ok (remove_one least.0 p, some (c.hex_encode least.0)))
      else ok (p, none)

  -- The inserts at the end of `Mempool::add`.
  unfoldable pub insert_tx : TxHash → Transaction → ℕ → Mempool im → Mempool im
  insert_tx hash tx value p = record p {
    in_flight = hold_inputs tx.inputs p.in_flight;
    values = insert bytes_discrete hash value p.values;
    txs = im.insert hash tx p.txs;
  }

  -- `Mempool::add` for a transaction that is not in the pool.
  unfoldable pub add_new :
      UtxoGet → Transaction → Mempool im → Result NodeError (Mempool im × AddedToPool)
  add_new get tx p = do
    map_err (λ _. validation) (validate_transaction c get tx)
    guard (not (conflicts tx.inputs p.in_flight)) validation
    (room, evicted) ← evict (value_of tx) p
    let q = insert_tx (tx_hash c tx) tx (value_of tx) room
    ok (
      q,
      record {
        tx_hash = c.hex_encode (tx_hash c tx);
        value = value_of tx;
        pool_size = im.len q.txs;
        evicted = evicted;
        newly_added = true;
      },
    )

  -- `Mempool::add`. An error leaves the pool as it was.
  unfoldable pub add :
      UtxoGet → Transaction → Mempool im → Result NodeError (Mempool im × AddedToPool)
  add get tx p = elim (im.get (tx_hash c tx) p.txs) [
    | none ↦ add_new get tx p
    | some _ ↦ ok (
      p,
      record {
        tx_hash = c.hex_encode (tx_hash c tx);
        value = or_zero (get_value (tx_hash c tx) p.values);
        pool_size = im.len p.txs;
        evicted = none;
        newly_added = false;
      },
    )
  ]

  unfoldable pub drain : ℕ → Mempool im → List Transaction
  drain max p =
      map (λ e. e.1)
        (take max (
          sort_desc
            (map (λ tx. (or_zero (get_value (tx_hash c tx) p.values), tx)) (im.values p.txs))))
