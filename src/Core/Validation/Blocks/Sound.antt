-- ===== src/Core/Validation/Blocks/Sound.antt =====
-- What an accepted block satisfies, and that all such blocks are accepted.
use better_call_chain.Prelude.{ℕ, ◌≡◌, refl, ◌↔◌, true, false, List, [], ◌∷◌, some, ok, arith, All}
use better_call_chain.Prelude.Words.{pos, as_i64, add_u64, add_i64, mul_i64, ltb_i64}
use better_call_chain.Core.Types.{Block, Transaction, Validator}
use better_call_chain.Core.Crypto.{Crypto, verify}
use better_call_chain.Core.Merkle.{block_hash, compute_merkle_root}
use better_call_chain.Core.Election.{elect_proposer}
use better_call_chain.Core.Validation.Transactions.{UtxoGet}
use better_call_chain.Core.Validation.Transactions.Sound.{IsValidTx, validate_transaction_iff}
use better_call_chain.Core.Validation.Blocks.{
  AllActive, slot_end, check_header, check_proposer, check_txs, validate_block,
}

module _ (c : Crypto) where
  -- The rules of the chain for a block behind its parent, over the UTXO set and the validators.
  pub record IsValidBlock (get : UtxoGet) (all_active : AllActive) (duration : ℕ)
      (parent block : Block) : Type 0 where
    pub height : block.header.height ≡ add_u64 parent.header.height 1
    pub linked : block.header.prev_hash ≡ block_hash c parent
    pub not_before : ltb_i64 block.header.timestamp parent.header.timestamp ≡ false
    pub in_slot :
        ltb_i64 block.header.timestamp
          (mul_i64 (add_i64 (as_i64 block.header.slot) (pos 1)) (as_i64 duration))
        ≡ true
    pub active : List Validator
    pub registered : all_active block.header.slot ≡ ok active
    pub elected : Validator
    pub by_election : elect_proposer c block.header.slot (block_hash c parent) active ≡ some elected
    pub proposer : elected.address ≡ block.header.proposer
    pub signed : c.signature_ok elected.pubkey (c.header_json block.header) block.signature ≡ true
    pub merkle_root : block.header.merkle_root ≡ compute_merkle_root c block.txs
    pub valid_txs : All (IsValidTx c get) block.txs

  check_txs-All :
      (get : UtxoGet) (txs : List Transaction)
      → check_txs c get txs ≡ ok tt
      → All (IsValidTx c get) txs
  unfolding check_txs
  check_txs-All get [] h = tt
  check_txs-All get (tx ∷ txs) h =
      ((validate_transaction_iff c get tx).0 (ground arith), check_txs-All get txs (ground arith))

  All-check_txs :
      (get : UtxoGet) (txs : List Transaction)
      → All (IsValidTx c get) txs
      → check_txs c get txs ≡ ok tt
  unfolding check_txs
  All-check_txs get [] v = refl
  All-check_txs get (tx ∷ txs) v =
      rw ((validate_transaction_iff c get tx).1 v.0) (All-check_txs get txs v.1)

  module _ (get : UtxoGet) (all_active : AllActive) (duration : ℕ) (parent block : Block) where
    stages :
        validate_block c block parent get all_active duration ≡ ok tt
        → (check_header c block.header parent duration ≡ ok tt)
          × (check_proposer c block parent all_active ≡ ok tt)
          × (block.header.merkle_root ≡ compute_merkle_root c block.txs)
          × (check_txs c get block.txs ≡ ok tt)
    unfolding validate_block
    stages h = ground arith

    header_parts :
        check_header c block.header parent duration ≡ ok tt
        → (block.header.height ≡ add_u64 parent.header.height 1)
          × (block.header.prev_hash ≡ block_hash c parent)
          × (ltb_i64 block.header.timestamp parent.header.timestamp ≡ false)
          × (ltb_i64 block.header.timestamp
                (mul_i64 (add_i64 (as_i64 block.header.slot) (pos 1)) (as_i64 duration))
              ≡ true)
    unfolding check_header slot_end
    header_parts h = ground arith

    proposer_parts :
        check_proposer c block parent all_active ≡ ok tt
        → (active : List Validator) × (elected : Validator) × (all_active block.header.slot
            ≡ ok active)
          × (elect_proposer c block.header.slot (block_hash c parent) active ≡ some elected)
          × (elected.address ≡ block.header.proposer)
          × (c.signature_ok elected.pubkey (c.header_json block.header) block.signature ≡ true)
    unfolding check_proposer verify
    proposer_parts h = ground arith

    validate_block-IsValidBlock :
        validate_block c block parent get all_active duration ≡ ok tt
        → IsValidBlock get all_active duration parent block
    validate_block-IsValidBlock h =
        let (hdr, prop, root, txs) = stages h in
        let (height, linked, not_before, in_slot) = header_parts hdr in
        let (active, elected, registered, by_election, proposer, signed) = proposer_parts prop in
        record {
          height = height;
          linked = linked;
          not_before = not_before;
          in_slot = in_slot;
          active = active;
          registered = registered;
          elected = elected;
          by_election = by_election;
          proposer = proposer;
          signed = signed;
          merkle_root = root;
          valid_txs = check_txs-All get block.txs txs;
        }

    before_end :
        IsValidBlock get all_active duration parent block
        → ltb_i64 block.header.timestamp (slot_end block.header.slot duration) ≡ true
    unfolding slot_end
    before_end v = v.in_slot

    header_pass :
        IsValidBlock get all_active duration parent block
        → check_header c block.header parent duration ≡ ok tt
    unfolding check_header
    header_pass v = ground (arith, v.height, v.linked, v.not_before, before_end v)

    proposer_pass :
        IsValidBlock get all_active duration parent block
        → check_proposer c block parent all_active ≡ ok tt
    unfolding check_proposer verify
    proposer_pass v = ground (arith, v.registered, v.by_election, v.proposer, v.signed)

    IsValidBlock-validate_block :
        IsValidBlock get all_active duration parent block
        → validate_block c block parent get all_active duration ≡ ok tt
    unfolding validate_block
    IsValidBlock-validate_block v = ground (
      arith,
      header_pass v,
      proposer_pass v,
      v.merkle_root,
      All-check_txs get block.txs v.valid_txs,
    )

    -- `validate_block` accepts exactly the blocks at the next height that name the parent's hash, are
    -- not older than the parent and dated before the end of their slot, come from the validator
    -- that the election names and bear its signature, carry the Merkle root of their
    -- transactions, and hold only transactions that are valid over the UTXO set before the block.
    pub validate_block_iff :
        (validate_block c block parent get all_active duration ≡ ok tt)
        ↔ IsValidBlock get all_active duration parent block
    validate_block_iff = (validate_block-IsValidBlock, IsValidBlock-validate_block)
