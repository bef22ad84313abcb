-- ===== src/Core/Validation/Transactions.antt =====
-- crates/bcc-core/src/validation/transaction.rs. The store is its `get`.
pub mod Sound
use better_call_chain.Prelude.{
  ℕ, suc, List, [], ◌∷◌, map, Option, Result, ok, err, guard, ensure, ok_or, map_err, ◌>>=◌, ◌>>◌,
  if◌then◌else◌, ltb, leb, ◌==◌, not,
}
use better_call_chain.Prelude.Words.{sum_u64, saturating_add}
use better_call_chain.Core.Types.{
  Bytes, TxOutRef, TxInput, TxOutput, Transaction, StoreError, address_discrete,
}
use better_call_chain.Core.Crypto.{Crypto, verify}
use better_call_chain.Core.Address.{from_pubkey_bytes}

pub data TxValidationError : Type 0 where
  empty_outputs : TxValidationError
  zero_value_output : ℕ → TxValidationError
  input_not_found : TxValidationError
  invalid_owner invalid_signature : ℕ → TxValidationError
  insufficient_funds : ℕ → ℕ → TxValidationError
  store : StoreError → TxValidationError

abbrev pub amounts : List TxOutput → List ℕ
amounts = map (λ o. o.amount)

-- `UtxoStore::get`
abbrev pub UtxoGet : Type 0
UtxoGet = TxOutRef → Result StoreError (Option TxOutput)

-- The loop over `tx.outputs.iter().enumerate()`.
unfoldable pub check_outputs : ℕ → List TxOutput → Result TxValidationError (Unit {0})
check_outputs i [] = ok tt
check_outputs i (output ∷ outputs) = do
  guard (not (output.amount == 0)) (zero_value_output i)
  check_outputs (suc i) outputs

-- The last test: the outputs are paid for.
unfoldable pub check_funds : ℕ → ℕ → Result TxValidationError (Unit {0})
check_funds total_in total_out =
    guard (leb total_out total_in) (insufficient_funds total_in total_out)

-- `tx.outputs.is_empty()`
unfoldable pub has_outputs : List TxOutput → Result TxValidationError (Unit {0})
has_outputs [] = err empty_outputs
has_outputs (o ∷ os) = ok tt

module _ (c : Crypto) where
  unfoldable pub tx_signing_bytes : Transaction → Bytes
  tx_signing_bytes tx =
      c.signing_json
        (record { kind = tx.kind; inputs = map (λ i. i.out_ref) tx.inputs; outputs = tx.outputs })

  -- The loop over `tx.inputs.iter().enumerate()`, which adds up `total_in`.
  unfoldable pub check_inputs : UtxoGet → Bytes → ℕ → ℕ → List TxInput → Result TxValidationError ℕ
  check_inputs get msg idx total_in [] = ok total_in
  check_inputs get msg idx total_in (input ∷ inputs) = do
    found ← map_err store (get input.out_ref)
    unspent ← ok_or found input_not_found
    ensure (address_discrete unspent.address (from_pubkey_bytes c input.pubkey)) (invalid_owner idx)
    map_err (λ _. invalid_signature idx) (verify c input.pubkey msg input.signature)
    check_inputs get msg (suc idx) (saturating_add total_in unspent.amount) inputs

  unfoldable pub validate_transaction : UtxoGet → Transaction → Result TxValidationError (Unit {0})
  validate_transaction get tx = do
    has_outputs tx.outputs
    check_outputs 0 tx.outputs
    total_in ← check_inputs get (tx_signing_bytes tx) 0 0 tx.inputs
    check_funds total_in (sum_u64 (amounts tx.outputs))
