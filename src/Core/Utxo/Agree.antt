-- ===== src/Core/Utxo/Agree.antt =====
-- Two maps of unspent outputs with the same entries stay so under the same transactions.
use better_call_chain.Prelude.{
  ℕ, suc, ◌≡◌, List, [], ◌∷◌, none, ite, arith, Option-cases, map, refl, if◌then◌else◌, inl, inr,
}
use better_call_chain.Prelude.Maps.{contains, lookup-remove, lookup-insert}
use better_call_chain.Core.Types.{
  TxHash, TxOutRef, TxOutput, TxInput, Transaction, out_ref_discrete,
}
use better_call_chain.Core.Crypto.{Crypto}
use better_call_chain.Core.Merkle.{tx_hash}
use better_call_chain.Core.Utxo.{
  UtxoMap, Tables, get_utxo, put_utxo, out_ref_at, spend, spend_all, create_all, apply_tx,
  apply_txs,
}
use better_call_chain.Core.Utxo.Rollback.{among, last_of, or_else, last_of-append}

abbrev pub Agree : UtxoMap → UtxoMap → Type 0
Agree m m' = (r : TxOutRef) → get_utxo r m ≡ get_utxo r m'

pub get-spend :
    (r s : TxOutRef) (t : Tables)
    → get_utxo r (spend s t).utxo ≡ ite (out_ref_discrete r s) none (get_utxo r t.utxo)
unfolding spend
get-spend r s t = ground (arith, lookup-remove out_ref_discrete r s t.utxo)

pub last_of_spend_lem :
    (r s : TxOutRef) (t : Tables)
    → last_of r (spend s t).spent
      ≡ ite
          (out_ref_discrete r s)
          (or_else (get_utxo r t.utxo) (last_of r t.spent))
          (last_of r t.spent)
unfolding spend
last_of_spend_lem r s t = elim (Option-cases (get_utxo s t.utxo)) [
  | inl e ↦ rw (e, spend) (ground (arith, e))
  | inr (o, e) ↦ rw (e, spend) (ground (arith, e, last_of-append r s o t.spent))
]

-- What the inputs of a transaction do to the two tables at one reference.
pub get_spend_all_lem :
    (r : TxOutRef) (is : List TxInput) (t : Tables)
    → get_utxo r (spend_all is t).utxo
      ≡ (if among r (map (λ i. i.out_ref) is) then none else get_utxo r t.utxo)
unfolding spend_all contains
get_spend_all_lem r [] t = refl
get_spend_all_lem r (i ∷ is) t =
    ground (arith, get_spend_all_lem r is (spend i.out_ref t), get-spend r i.out_ref t)

pub last_of_spend_all_lem :
    (r : TxOutRef) (is : List TxInput) (t : Tables)
    → last_of r (spend_all is t).spent ≡ (
        if among r (map (λ i. i.out_ref) is)
        then or_else (get_utxo r t.utxo) (last_of r t.spent)
        else last_of r t.spent)
unfolding spend_all contains
last_of_spend_all_lem r [] t = refl
last_of_spend_all_lem r (i ∷ is) t = ground (
  arith,
  last_of_spend_all_lem r is (spend i.out_ref t),
  get-spend r i.out_ref t,
  last_of_spend_lem r i.out_ref t,
)

spend_all-Agree :
    (is : List TxInput) (t u : Tables)
    → Agree t.utxo u.utxo
    → Agree (spend_all is t).utxo (spend_all is u).utxo
unfolding spend_all
spend_all-Agree [] t u a = a
spend_all-Agree (i ∷ is) t u a =
    spend_all-Agree is (spend i.out_ref t) (spend i.out_ref u)
      (λ r. ground (arith, get-spend r i.out_ref t, get-spend r i.out_ref u, a r))

create_all-Agree :
    (h : TxHash) (index : ℕ) (os : List TxOutput) (m m' : UtxoMap)
    → Agree m m'
    → Agree (create_all h index os m) (create_all h index os m')
unfolding create_all
create_all-Agree h index [] m m' a = a
create_all-Agree h index (o ∷ os) m m' a =
    create_all-Agree h (suc index) os (put_utxo (out_ref_at h index) o m)
      (put_utxo (out_ref_at h index) o m')
      (λ r. ground (
        arith,
        lookup-insert out_ref_discrete r (out_ref_at h index) o m,
        lookup-insert out_ref_discrete r (out_ref_at h index) o m',
        a r,
      ))

module _ (c : Crypto) where
  pub apply_txs-Agree :
      (txs : List Transaction) (t u : Tables)
      → Agree t.utxo u.utxo
      → Agree (apply_txs c txs t).utxo (apply_txs c txs u).utxo
  unfolding apply_txs apply_tx
  apply_txs-Agree [] t u a = a
  apply_txs-Agree (tx ∷ txs) t u a = apply_txs-Agree txs (apply_tx c tx t) (apply_tx c tx u) (
      create_all-Agree (tx_hash c tx) 0 tx.outputs (spend_all tx.inputs t).utxo
        (spend_all tx.inputs u).utxo (spend_all-Agree tx.inputs t u a))
