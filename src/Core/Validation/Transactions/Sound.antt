-- ===== src/Core/Validation/Transactions/Sound.antt =====
-- What an accepted transaction satisfies, and that all such transactions are accepted.
use better_call_chain.Prelude.{
  ℕ, suc, ◌+◌, ◌-◌, ◌≤◌, ◌<◌, ◌≡◌, refl, ap, ◌∙◌, ◌≢◌, ◌↔◌, true, List, [], ◌∷◌, some, ok, arith,
  All, min,
}
use better_call_chain.Prelude.Words.{u64_mod, sum_u64, saturating_add, total, sum_u64-total}
use better_call_chain.Core.Types.{Bytes, TxInput, TxOutput, Transaction}
use better_call_chain.Core.Crypto.{Crypto, verify}
use better_call_chain.Core.Address.{from_pubkey_bytes}
use better_call_chain.Core.Validation.Transactions.{
  UtxoGet, amounts, check_outputs, check_inputs, check_funds, has_outputs, tx_signing_bytes,
  validate_transaction,
}

check_outputs_iff :
    (i : ℕ) (outputs : List TxOutput)
    → (check_outputs i outputs ≡ ok tt) ↔ All (λ o. 0 < o.amount) outputs
unfolding check_outputs
check_outputs_iff i [] = (λ _. tt, λ _. refl)
check_outputs_iff i (o ∷ outputs) = ground (arith, check_outputs_iff (suc i) outputs)

module _ (c : Crypto) where
  -- The store has each input's output, the input's key owns it, and the signature is valid.
  abbrev pub Spends : UtxoGet → Bytes → List TxInput → List TxOutput → Type 0
  Spends get msg [] [] = Unit
  Spends get msg (i ∷ is) (o ∷ os) =
      (get i.out_ref ≡ ok (some o))
      × (o.address ≡ from_pubkey_bytes c i.pubkey)
      × (c.signature_ok i.pubkey msg i.signature ≡ true)
      × Spends get msg is os
  Spends get msg _ _ = ⊥

  -- What one round of the loop passes.
  abbrev Passes : UtxoGet → Bytes → TxInput → TxOutput → Type 0
  Passes get msg i o =
      (get i.out_ref ≡ ok (some o))
      × (o.address ≡ from_pubkey_bytes c i.pubkey)
      × (c.signature_ok i.pubkey msg i.signature ≡ true)

  check_inputs_step :
      (get : UtxoGet) (msg : Bytes) (idx acc : ℕ) (i : TxInput) (inputs : List TxInput) (r : ℕ)
      → check_inputs c get msg idx acc (i ∷ inputs) ≡ ok r
      → (o : TxOutput) × Passes get msg i o
        × (check_inputs c get msg (suc idx) (saturating_add acc o.amount) inputs ≡ ok r)
  unfolding check_inputs verify
  check_inputs_step get msg idx acc i inputs r h = ground arith

  check_inputs_pass :
      (get : UtxoGet) (msg : Bytes) (idx acc : ℕ) (i : TxInput) (inputs : List TxInput)
      (o : TxOutput)
      → Passes get msg i o
      → check_inputs c get msg idx acc (i ∷ inputs)
        ≡ check_inputs c get msg (suc idx) (saturating_add acc o.amount) inputs
  unfolding check_inputs verify
  check_inputs_pass get msg idx acc i inputs o p = ground arith

  check_inputs-Spends :
      (get : UtxoGet) (msg : Bytes) (idx acc : ℕ) (inputs : List TxInput) (r : ℕ)
      → check_inputs c get msg idx acc inputs ≡ ok r
      → acc < u64_mod
      → (spent : List TxOutput) × Spends get msg inputs spent
        × (r ≡ min (acc + total (amounts spent)) (u64_mod - 1))
  unfolding check_inputs total
  check_inputs-Spends get msg idx acc [] r h b = ([], tt, ground arith)
  check_inputs-Spends get msg idx acc (i ∷ inputs) r h b =
      let (o, p, rest) = check_inputs_step get msg idx acc i inputs r h in
      let (spent, s, e) =
        check_inputs-Spends get msg (suc idx) (saturating_add acc o.amount) inputs r rest
          (omega arith) in
      (o ∷ spent, (p.0, p.1, p.2, s), omega arith)

  Spends-check_inputs :
      (get : UtxoGet) (msg : Bytes) (idx acc : ℕ) (inputs : List TxInput) (spent : List TxOutput)
      → Spends get msg inputs spent
      → acc < u64_mod
      → check_inputs c get msg idx acc inputs ≡ ok (min (acc + total (amounts spent)) (u64_mod - 1))
  unfolding check_inputs total
  Spends-check_inputs get msg idx acc [] [] s b = ap ok (omega arith)
  Spends-check_inputs get msg idx acc [] (o ∷ spent) s b = absurd s
  Spends-check_inputs get msg idx acc (i ∷ inputs) [] s b = absurd s
  Spends-check_inputs get msg idx acc (i ∷ inputs) (o ∷ spent) s b =
      check_inputs_pass get msg idx acc i inputs o (s.0, s.1, s.2)
      ∙ Spends-check_inputs get msg (suc idx) (saturating_add acc o.amount) inputs spent s.3
          (omega arith)
      ∙ ap ok (omega arith)

  -- The rules of the chain for one transaction, over the outputs that its inputs refer to.
  pub record IsValidTx (get : UtxoGet) (tx : Transaction) : Type 0 where
    pub has_output : tx.outputs ≢ []
    pub positive : All (λ o. 0 < o.amount) tx.outputs
    pub spent : List TxOutput
    pub spends : Spends get (tx_signing_bytes c tx) tx.inputs spent
    -- as the code adds them: the inputs saturating, the outputs wrapping
    pub funded : sum_u64 (amounts tx.outputs) ≤ min (total (amounts spent)) (u64_mod - 1)

  validate_transaction_parts :
      (get : UtxoGet) (tx : Transaction)
      → validate_transaction c get tx ≡ ok tt
      → (tx.outputs ≢ [])
        × (check_outputs 0 tx.outputs ≡ ok tt)
        × (r : ℕ) × (check_inputs c get (tx_signing_bytes c tx) 0 0 tx.inputs ≡ ok r)
        × (sum_u64 (amounts tx.outputs) ≤ r)
  unfolding validate_transaction has_outputs check_funds
  validate_transaction_parts get tx h = ground arith

  validate_transaction-IsValidTx :
      (get : UtxoGet) (tx : Transaction) → validate_transaction c get tx ≡ ok tt → IsValidTx get tx
  validate_transaction-IsValidTx get tx h =
      let (ne, outs, r, ins, le) = validate_transaction_parts get tx h in
      let (spent, s, e) =
        check_inputs-Spends get (tx_signing_bytes c tx) 0 0 tx.inputs r ins (omega arith) in
      record {
        has_output = ne;
        positive = (check_outputs_iff 0 tx.outputs).0 outs;
        spent = spent;
        spends = s;
        funded = omega arith;
      }

  IsValidTx-validate_transaction :
      (get : UtxoGet) (tx : Transaction) → IsValidTx get tx → validate_transaction c get tx ≡ ok tt
  unfolding validate_transaction has_outputs check_funds
  IsValidTx-validate_transaction get tx v = ground (
    arith,
    v.funded,
    (check_outputs_iff 0 tx.outputs).1 v.positive,
    Spends-check_inputs get (tx_signing_bytes c tx) 0 0 tx.inputs v.spent v.spends,
  )

  -- `validate_transaction` accepts exactly the transactions with at least one output, no output of
  -- value zero, inputs that the store holds, that their keys own and that they sign, and with
  -- outputs that add up, in wrapping 64-bit arithmetic, to at most the saturating sum of the inputs.
  pub validate_transaction_iff :
      (get : UtxoGet) (tx : Transaction)
      → (validate_transaction c get tx ≡ ok tt) ↔ IsValidTx get tx
  validate_transaction_iff get tx =
      (validate_transaction-IsValidTx get tx, IsValidTx-validate_transaction get tx)

  -- An accepted transaction whose outputs add up below 2^64 does not pay out more than the outputs
  -- that it refers to are worth.
  pub validate_transaction-le :
      (get : UtxoGet) (tx : Transaction)
      → validate_transaction c get tx ≡ ok tt
      → total (amounts tx.outputs) < u64_mod
      → (spent : List TxOutput) × Spends get (tx_signing_bytes c tx) tx.inputs spent
        × (total (amounts tx.outputs) ≤ total (amounts spent))
  validate_transaction-le get tx h bound =
      let v = validate_transaction-IsValidTx get tx h in
      (v.spent, v.spends, omega (arith, v.funded, sum_u64-total (amounts tx.outputs) bound))
