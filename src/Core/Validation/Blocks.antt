-- ===== src/Core/Validation/Blocks.antt =====
-- crates/bcc-core/src/validation/block.rs. The stores are their `get` and `all_active`.
pub mod Sound
use better_call_chain.Prelude.{
  ℕ, ◌+◌, List, [], ◌∷◌, Option, Result, ok, err, guard, ensure, ok_or, map_err, ◌>>=◌, ◌>>◌, ◌==◌,
  not,
}
use better_call_chain.Prelude.Words.{ℤ, pos, add_u64, as_i64, add_i64, mul_i64, ltb_i64}
use better_call_chain.Core.Types.{
  Bytes, BlockHeader, Block, Transaction, Validator, Address, StoreError, address_discrete,
  bytes_discrete,
}
use better_call_chain.Core.Crypto.{Crypto, verify}
use better_call_chain.Core.Merkle.{block_hash, compute_merkle_root}
use better_call_chain.Core.Election.{elect_proposer}
use better_call_chain.Core.Validation.Transactions.{
  TxValidationError, UtxoGet, validate_transaction,
}

-- `serde_json::to_vec` does not fail on a header, so `Serialization` is not raised.
pub data BlockValidationError : Type 0 where
  bad_signature : BlockValidationError
  proposer_mismatch : Address → Address → BlockValidationError
  no_validators : ℕ → BlockValidationError
  bad_parent_hash bad_height bad_timestamp : BlockValidationError
  timestamp_beyond_slot : ℤ → ℕ → ℤ → BlockValidationError
  invalid_transaction : TxValidationError → BlockValidationError
  bad_merkle_root : BlockValidationError
  store : StoreError → BlockValidationError
  serialization : BlockValidationError

-- `ValidatorStore::all_active`
abbrev pub AllActive : Type 0
AllActive = ℕ → Result StoreError (List Validator)

-- `(slot as i64 + 1) * slot_duration_secs as i64`
unfoldable pub slot_end : ℕ → ℕ → ℤ
slot_end slot duration = mul_i64 (add_i64 (as_i64 slot) (pos 1)) (as_i64 duration)

module _ (c : Crypto) where
  -- Steps 1 to 3b: the block against its parent and its slot.
  unfoldable pub check_header : BlockHeader → Block → ℕ → Result BlockValidationError (Unit {0})
  check_header header parent duration = do
    guard (header.height == add_u64 parent.header.height 1) bad_height
    ensure (bytes_discrete header.prev_hash (block_hash c parent)) bad_parent_hash
    guard (not (ltb_i64 header.timestamp parent.header.timestamp)) bad_timestamp
    guard (ltb_i64 header.timestamp (slot_end header.slot duration))
        (timestamp_beyond_slot header.timestamp header.slot (slot_end header.slot duration))

  -- Steps 4 and 5: the proposer is the elected one, and signed the header.
  unfoldable pub check_proposer : Block → Block → AllActive → Result BlockValidationError (Unit {0})
  check_proposer block parent all_active = do
    active ← map_err store (all_active block.header.slot)
    elected ←
        ok_or (elect_proposer c block.header.slot (block_hash c parent) active)
          (no_validators block.header.slot)
    ensure (address_discrete elected.address block.header.proposer)
        (proposer_mismatch elected.address block.header.proposer)
    map_err (λ _. bad_signature)
        (verify c elected.pubkey (c.header_json block.header) block.signature)

  -- Step 7: the loop over `block.txs`.
  unfoldable pub check_txs : UtxoGet → List Transaction → Result BlockValidationError (Unit {0})
  check_txs get [] = ok tt
  check_txs get (tx ∷ txs) = do
    map_err invalid_transaction (validate_transaction c get tx)
    check_txs get txs

  unfoldable pub validate_block :
      Block → Block → UtxoGet → AllActive → ℕ → Result BlockValidationError (Unit {0})
  validate_block block parent get all_active duration = do
    check_header block.header parent duration
    check_proposer block parent all_active
    ensure (bytes_discrete block.header.merkle_root (compute_merkle_root c block.txs))
        bad_merkle_root
    check_txs get block.txs
