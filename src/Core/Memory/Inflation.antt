-- ===== src/Core/Memory/Inflation.antt =====
-- Inputs that name one output twice: neither `validate_transaction` nor `apply_block` looks for them.
use better_call_chain.Prelude.{
  ◌+◌, ◌*◌, ◌≤◌, ◌<◌, ◌≡◌, refl, ap, ◌∙◌, true, false, List, [], ◌∷◌, map, none, some, ok, arith,
}
use mathlib.Core.List.{lookup}
use better_call_chain.Prelude.Maps.{contains, lookup-remove, insert, remove}
use better_call_chain.Prelude.Words.{u64_mod, total, sum_from}
use better_call_chain.Core.Types.{TxOutRef, TxInput, TxOutput, Transaction, out_ref_discrete}
use better_call_chain.Core.Crypto.{Crypto}
use better_call_chain.Core.Address.{from_pubkey_bytes}
use better_call_chain.Core.Merkle.{tx_hash}
use better_call_chain.Core.Validation.Transactions.{tx_signing_bytes, validate_transaction}
use better_call_chain.Core.Validation.Transactions.Sound.{IsValidTx, validate_transaction_iff}
use better_call_chain.Core.Utxo.{
  UtxoMap, Tables, get_utxo, put_utxo, remove_utxo, spend, spend_all, apply_tx, create_all,
  out_ref_at,
}
use better_call_chain.Core.Utxo.Rollback.{among}
use better_call_chain.Core.Utxo.Supply.{supply, Distinct}
use better_call_chain.Core.Memory.{MemoryStore, get_output}

-- The references of a map, each once.
abbrev pub keys : UtxoMap → List TxOutRef
keys = map (λ e. e.0)

remove_absent : (r : TxOutRef) (m : UtxoMap) → among r (keys m) ≡ false → remove_utxo r m ≡ m
unfolding remove contains
remove_absent r [] h = refl
remove_absent r ((s, o) ∷ m) h = ground (arith, remove_absent r m)

absent : (r : TxOutRef) (m : UtxoMap) → get_utxo r m ≡ none → among r (keys m) ≡ false
unfolding lookup contains
absent r [] h = refl
absent r ((s, o) ∷ m) h = ground (arith, absent r m)

supply-remove_eq :
    (r : TxOutRef) (o : TxOutput) (m : UtxoMap)
    → Distinct (keys m)
    → get_utxo r m ≡ some o
    → supply (remove_utxo r m) + o.amount ≡ supply m
unfolding supply remove lookup
supply-remove_eq r o [] d h = absurd (cc)
supply-remove_eq r o ((s, p) ∷ m) d h = elim (out_ref_discrete r s) [
  | yes e ↦ ground (arith, remove_absent s m d.0)
  | no e ↦ ground (arith, supply-remove_eq r o m d.1)
]

spend_present :
    (r : TxOutRef) (o : TxOutput) (t : Tables)
    → get_utxo r t.utxo ≡ some o
    → (spend r t).utxo ≡ remove_utxo r t.utxo
unfolding spend
spend_present r o t e = rw (e, spend) refl

spend_absent : (r : TxOutRef) (t : Tables) → get_utxo r t.utxo ≡ none → spend r t ≡ t
unfolding spend
spend_absent r t e = rw (e, spend) refl

spend_twice :
    (r : TxOutRef) (o : TxOutput) (t : Tables)
    → get_utxo r t.utxo ≡ some o
    → (spend r (spend r t)).utxo ≡ remove_utxo r t.utxo
spend_twice r o t e =
    ap (λ (u : Tables). u.utxo)
      (spend_absent r (spend r t)
        (ground (arith, spend_present r o t e, lookup-remove out_ref_discrete r r t.utxo)))
    ∙ spend_present r o t e

-- To put a new entry in place of the removed one.
supply-replace :
    (r k : TxOutRef) (o p : TxOutput) (m : UtxoMap)
    → Distinct (keys m)
    → get_utxo r m ≡ some o
    → get_utxo k m ≡ none
    → supply (put_utxo k p (remove_utxo r m)) + o.amount ≡ supply m + p.amount
unfolding supply insert
supply-replace r k o p m d e f =
    let gone : get_utxo k (remove_utxo r m) ≡ none =
      ground (arith, lookup-remove out_ref_discrete k r m) in
    rw (remove_absent k (remove_utxo r m) (absent k (remove_utxo r m) gone))
      (omega (arith, supply-remove_eq r o m d e))

module _ (c : Crypto) (s : MemoryStore) where
  -- An output `o` is spent by both inputs of a transaction, which pays `p`.
  pub record SpendsTwice (tx : Transaction) (i : TxInput) (o p : TxOutput) : Type 0 where
    pub inputs : tx.inputs ≡ i ∷ i ∷ []
    pub outputs : tx.outputs ≡ p ∷ []
    pub stored : get_utxo i.out_ref s.utxo ≡ some o
    pub owned : o.address ≡ from_pubkey_bytes c i.pubkey
    pub signed : c.signature_ok i.pubkey (tx_signing_bytes c tx) i.signature ≡ true

  twice-valid :
      (tx : Transaction) (i : TxInput) (o p : TxOutput)
      → SpendsTwice tx i o p
      → 0 < p.amount
      → p.amount ≤ 2 * o.amount
      → p.amount < u64_mod
      → IsValidTx c (get_output s) tx
  unfolding get_output sum_from total
  twice-valid tx i o p t pos le b = record {
    has_output = ground (arith, t.outputs);
    positive = rw t.outputs (pos, tt);
    spent = o ∷ o ∷ [];
    spends =
        simp t.inputs
          ((ap ok t.stored, t.owned, t.signed, (ap ok t.stored, t.owned, t.signed, tt)));
    funded = rw t.outputs (omega arith);
  }

  -- A transaction that names one output twice is accepted when it pays up to twice that output, and
  -- when it pays more than the output, to apply it raises the sum of the unspent outputs.
  pub duplicate_input_mints :
      (tx : Transaction) (i : TxInput) (o p : TxOutput)
      → SpendsTwice tx i o p
      → o.amount < p.amount
      → p.amount ≤ 2 * o.amount
      → p.amount < u64_mod
      → Distinct (keys s.utxo)
      → get_utxo (out_ref_at (tx_hash c tx) 0) s.utxo ≡ none
      → (validate_transaction c (get_output s) tx ≡ ok tt)
        × (supply s.utxo < supply (apply_tx c tx (record { utxo = s.utxo; spent = [] })).utxo)
  unfolding apply_tx spend_all create_all
  duplicate_input_mints tx i o p t more le b d fresh = (
    (validate_transaction_iff c (get_output s) tx).1 (twice-valid tx i o p t (omega arith) le b),
    simp
        (
          t.inputs,
          t.outputs,
          spend_twice i.out_ref o (record { utxo = s.utxo; spent = [] }) t.stored,
        )
        (omega (
          arith,
          supply-replace i.out_ref (out_ref_at (tx_hash c tx) 0) o p s.utxo d t.stored fresh,
        )),
  )
