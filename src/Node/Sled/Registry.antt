-- ===== src/Node/Sled/Registry.antt =====
-- `impl ValidatorStore for SledStore`, and the queries on the outputs of an address.
use better_call_chain.Prelude.{
  ℕ, List, [], ◌∷◌, Option, Result, ok, err, ◌>>=◌, ◌>>◌, ensure, ite, if◌then◌else◌, leb, ltb,
  ◌&&◌,
}
use better_call_chain.Prelude.Words.{saturating_add}
use better_call_chain.Core.Types.{
  Bytes, Address, TxOutRef, TxOutput, Validator, backend, address_discrete,
}
use better_call_chain.Core.Crypto.{Crypto}
use better_call_chain.Core.Address.{from_pubkey_bytes}
use better_call_chain.Core.Memory.{StoreResult}
use better_call_chain.Node.Sled.{
  Sled, SledError, SledStore, Json, encode, decode, decode_found, failed,
}

-- `self.validators.insert(key, value).map(|_| ()).map_err(…)`
unfoldable pub with_validators :
    (d : Sled)
    → SledStore d
    → d.Tree × Result SledError (Unit {0})
    → SledStore d × StoreResult (Unit {0})
with_validators d s (t, r) = (record s { validators = t }, failed r)

module _ (d : Sled) (j : Json) where
  -- `try_fold` over the entries: the first error is the answer.
  unfoldable pub balance_from :
      Address → ℕ → List (Result SledError (Bytes × Bytes)) → StoreResult ℕ
  balance_from address acc [] = ok acc
  balance_from address acc (res ∷ entries) = do
    entry ← failed res
    output ← decode j.output entry.1
    balance_from address
        (ite (address_discrete output.address address) (saturating_add acc output.amount) acc)
        entries

  unfoldable pub balance : SledStore d → Address → StoreResult ℕ
  balance s address = balance_from address 0 (d.iter s.utxo)

  -- `filter_map` and `collect`: the first error is the answer.
  unfoldable pub owned_entries :
      Address → List (Result SledError (Bytes × Bytes)) → StoreResult (List (TxOutRef × TxOutput))
  owned_entries address [] = ok []
  owned_entries address (res ∷ entries) =
      let rest = owned_entries address entries in
      do
        entry ← failed res
        out_ref ← decode j.out_ref entry.0
        output ← decode j.output entry.1
        found ← rest
        ok (ite (address_discrete output.address address) ((out_ref, output) ∷ found) found)

  unfoldable pub list_utxos : SledStore d → Address → StoreResult (List (TxOutRef × TxOutput))
  list_utxos s address = owned_entries address (d.iter s.utxo)

  unfoldable pub get_validator : SledStore d → Address → StoreResult (Option Validator)
  get_validator s address = decode_found j.validator (d.get s.validators address.text)

  unfoldable pub active_entries :
      ℕ → List (Result SledError (Bytes × Bytes)) → StoreResult (List Validator)
  active_entries slot [] = ok []
  active_entries slot (res ∷ entries) =
      let rest = active_entries slot entries in
      do
        entry ← failed res
        v ← decode j.validator entry.1
        found ← rest
        ok (if leb v.active_since slot && ltb 0 v.stake then v ∷ found else found)

  unfoldable pub all_active : SledStore d → ℕ → StoreResult (List Validator)
  all_active s slot = active_entries slot (d.iter s.validators)

  unfoldable pub upsert : Crypto → SledStore d → Validator → SledStore d × StoreResult (Unit {0})
  upsert c s v =
      elim (do
        ensure (address_discrete v.address (from_pubkey_bytes c v.pubkey)) backend
        encode j.validator v) [
          | err e ↦ (s, err e)
          | ok value ↦ with_validators d s (d.insert s.validators v.address.text value)
        ]
