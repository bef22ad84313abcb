-- ===== src/Tests/Pool.antt =====
-- The theorems about the mempool at concrete inputs.
use mathlib.Core.List.{Perm}
use better_call_chain.Prelude.{
  ℕ, suc, ◌≤◌, ◌<◌, ◌≡◌, refl, ◌≢◌, ◌⊎◌, ◌↔◌, inl, inr, Bool, true, false, List, [], ◌∷◌, Option,
  none, some, Result, ok, err, take, arith,
}
use better_call_chain.Core.Types.{Bytes, TxHash, TxOutRef, Transaction}
use better_call_chain.Core.Merkle.{tx_hash}
use better_call_chain.Core.Memory.{get_output}
use better_call_chain.Core.Validation.Transactions.{validate_transaction}
use better_call_chain.Core.Validation.Transactions.Sound.{IsValidTx}
use better_call_chain.Node.Mempool.{
  AddedToPool, Mempool, value_of, conflicts, empty, remove_hashes, insert_tx, add, drain,
}
use better_call_chain.Node.Mempool.Invariant.{IsConsistent, SpentBy, empty-IsConsistent}
use better_call_chain.Node.Mempool.Admission.{Admits, add-Admits, add-IsConsistent}
use better_call_chain.Node.Mempool.Acceptance.{HasPlace, add_iff}
use better_call_chain.Node.Mempool.Drain.{Falling, drain-Falling}
use better_call_chain.Tests.Toy.{toy}
use better_call_chain.Tests.Index.{entries}
use better_call_chain.Tests.Data.{bob, coin, pays, signed, payment, store}

abbrev Pool : Type 0
Pool = Mempool entries

abbrev start : Pool
start = empty toy entries 1

abbrev payment_hash : TxHash
payment_hash = tx_hash toy payment

-- The pool that takes the payment in.
abbrev filled : Pool
filled = insert_tx toy entries payment_hash payment (value_of payment) start

abbrev receipt : AddedToPool
receipt = record {
  tx_hash = toy.hex_encode payment_hash;
  value = 10;
  pool_size = 1;
  evicted = none;
  newly_added = true;
}

start-IsConsistent : IsConsistent toy entries start
start-IsConsistent = empty-IsConsistent toy entries 1

accepted : add toy entries (get_output store) payment start ≡ ok (filled, receipt)
unfolding add mathlib.Core.List.lookup empty better_call_chain.Node.Mempool.add_new
    validate_transaction better_call_chain.Core.Validation.Transactions.has_outputs
    better_call_chain.Core.Validation.Transactions.check_outputs
    better_call_chain.Core.Validation.Transactions.check_inputs get_output
    better_call_chain.Core.Types.out_ref_discrete better_call_chain.Core.Types.address_discrete
    better_call_chain.Core.Address.from_pubkey_bytes better_call_chain.Core.Crypto.sha256
    better_call_chain.Core.Crypto.verify better_call_chain.Core.Types.bytes_discrete
    better_call_chain.Core.Validation.Transactions.tx_signing_bytes
    better_call_chain.Core.Validation.Transactions.check_funds
    better_call_chain.Prelude.Words.sum_from better_call_chain.Core.Crypto.sha256d tx_hash conflicts
    better_call_chain.Node.Mempool.evict better_call_chain.Node.Mempool.hold_inputs insert_tx
    better_call_chain.Node.Mempool.min_entry better_call_chain.Node.Mempool.min_from
    better_call_chain.Node.Mempool.release_inputs better_call_chain.Node.Mempool.remove_one
    better_call_chain.Prelude.Maps.add better_call_chain.Prelude.Maps.contains
    better_call_chain.Prelude.Maps.delete better_call_chain.Prelude.Maps.insert
    better_call_chain.Prelude.Maps.remove better_call_chain.Prelude.ℕ_discrete
accepted = refl

add-Admits_example : Admits toy entries (get_output store) payment start filled receipt
add-Admits_example =
    add-Admits toy entries (get_output store) payment start filled receipt start-IsConsistent
      accepted

add-IsConsistent_example : IsConsistent toy entries filled × (filled.max_size ≡ start.max_size)
add-IsConsistent_example =
    add-IsConsistent toy entries (get_output store) payment start filled receipt start-IsConsistent
      accepted

filled-IsConsistent : IsConsistent toy entries filled
filled-IsConsistent =
    (add-IsConsistent toy entries (get_output store) payment start filled receipt start-IsConsistent
      accepted).0

add_iff_example :
    ((out : Pool × AddedToPool) × (add toy entries (get_output store) payment start ≡ ok out)) ↔ (
      (entries.get payment_hash start.txs ≢ none)
      ⊎ (IsValidTx toy (get_output store) payment
          × (conflicts payment.inputs start.in_flight ≡ false)
          × HasPlace toy entries payment start))
add_iff_example = add_iff toy entries (get_output store) payment start start-IsConsistent

abbrev rival : Transaction
rival = signed (coin ∷ []) (pays 9 bob ∷ [])

payment-spends : SpentBy toy entries filled coin payment_hash payment
unfolding mathlib.Core.List.lookup insert_tx better_call_chain.Prelude.Maps.insert
    better_call_chain.Core.Types.bytes_discrete tx_hash better_call_chain.Core.Crypto.sha256d
    better_call_chain.Prelude.Maps.contains better_call_chain.Core.Types.out_ref_discrete
payment-spends = (refl, refl)

drain-Falling_example :
    (pooled : List Transaction) × Perm pooled (entries.values filled.txs)
    × Falling value_of pooled
    × (drain toy entries 5 filled ≡ take 5 pooled)
drain-Falling_example = drain-Falling toy entries 5 filled filled-IsConsistent
