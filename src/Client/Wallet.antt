-- ===== src/Client/Wallet.antt =====
-- crates/bcc-client/src/wallet.rs, with the `UtxoItem` of rpc.rs.
pub mod Selection
pub mod Transfer
use better_call_chain.Prelude.{
  ℕ, ◌-◌, List, [], ◌∷◌, ◌++◌, map, Option, none, some, Result, ok, err, ok_or, guard, ◌>>=◌, ◌>>◌,
  if◌then◌else◌, ltb, leb, ◌==◌, length,
}
use better_call_chain.Prelude.Words.{sum_u64, saturating_add}
use better_call_chain.Core.Types.{Bytes, TxHash, Address, TxInput, TxOutput, Transaction, transfer}
use better_call_chain.Core.Crypto.{Crypto}
use better_call_chain.Core.Merkle.{zeros}
use better_call_chain.Core.Validation.Transactions.{tx_signing_bytes}
use better_call_chain.Client.Errors.{ClientError, insufficient_funds, serialization, hex}

pub record UtxoItem : Type 0 where
  pub tx_hash : Bytes
  pub index : ℕ
  pub amount : ℕ

pub record CoinSelection : Type 0 where
  pub selected : List UtxoItem
  pub sum : ℕ

-- `sort_unstable_by_key(|u| u.amount)`; which order equal amounts get is open.
unfoldable pub sort_in : UtxoItem → List UtxoItem → List UtxoItem
sort_in u [] = u ∷ []
sort_in u (v ∷ us) = if ltb v.amount u.amount then v ∷ sort_in u us else u ∷ v ∷ us

unfoldable pub sort_by_amount : List UtxoItem → List UtxoItem
sort_by_amount [] = []
sort_by_amount (u ∷ us) = sort_in u (sort_by_amount us)

-- The loop over the sorted outputs, which pushes them and adds them up.
unfoldable pub pick : ℕ → List UtxoItem → ℕ → List UtxoItem → Option CoinSelection
pick target selected sum [] = none
pick target selected sum (u ∷ us) =
    let selected' = selected ++ u ∷ [] in
    let sum' = saturating_add sum u.amount in
    let rest = pick target selected' sum' us in
    if leb target sum' then some (record { selected = selected'; sum = sum' }) else rest

abbrev pub values : List UtxoItem → List ℕ
values = map (λ u. u.amount)

unfoldable pub select_coins : List UtxoItem → ℕ → Result ClientError CoinSelection
select_coins utxos target =
    ok_or (pick target [] 0 (sort_by_amount utxos))
      (insufficient_funds (sum_u64 (values utxos)) target)

-- The recipient's output, and the change if there is any.
unfoldable pub outputs_for : ℕ → Address → ℕ → Address → List TxOutput
outputs_for sum recipient amount change_address =
    record { amount = amount; address = recipient }
    ∷ (if ltb amount sum
        then record { amount = sum - amount; address = change_address } ∷ []
        else [])

module _ (c : Crypto) where
  -- `hex::decode(&utxo.tx_hash)?.try_into()`
  unfoldable pub tx_hash_bytes : Bytes → Result ClientError TxHash
  tx_hash_bytes text = do
    hash ← ok_or (c.hex_decode text) hex
    guard (length hash == 32) serialization
    ok hash

  -- The loop over `&utxos`, with placeholders for the signatures.
  unfoldable pub inputs_of : Bytes → List UtxoItem → Result ClientError (List TxInput)
  inputs_of signing_key [] = ok []
  inputs_of signing_key (utxo ∷ utxos) = do
    hash ← tx_hash_bytes utxo.tx_hash
    inputs ← inputs_of signing_key utxos
    ok (
        record {
          out_ref = record { tx_hash = hash; index = utxo.index };
          signature = zeros 64;
          pubkey = c.verifying_key signing_key;
        }
        ∷ inputs)

  -- `input.signature = signing_key.sign(&msg)` for every input.
  unfoldable pub sign_all : Bytes → Transaction → Transaction
  sign_all signing_key tx =
      let msg = tx_signing_bytes c tx in
      let signed : TxInput → TxInput = λ i. record i { signature = c.sign signing_key msg } in
      record tx { inputs = map signed tx.inputs }

  unfoldable pub build_transfer :
      Bytes → List UtxoItem → Address → ℕ → Address → Result ClientError Transaction
  build_transfer signing_key utxos recipient amount change_address = do
    inputs ← inputs_of signing_key utxos
    ok (
        sign_all signing_key (record {
          kind = transfer;
          inputs = inputs;
          outputs = outputs_for (sum_u64 (values utxos)) recipient amount change_address;
        }))
