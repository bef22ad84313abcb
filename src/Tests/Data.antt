-- ===== src/Tests/Data.antt =====
-- Two owners, an unspent output, a transaction that spends it, and a block that carries it.
use better_call_chain.Core.Utxo.Rollback.{among}
use better_call_chain.Prelude.Maps.{contains}
use better_call_chain.Prelude.{
  All, true, subst, sym, arith, ℕ, List, [], ◌∷◌, map, ok, none, some, refl, ◌≡◌,
}
use better_call_chain.Prelude.Words.{pos}
use better_call_chain.Core.Types.{
  Bytes, Address, TxOutRef, TxInput, TxOutput, Transaction, transfer, BlockHeader, Block, Validator,
  out_ref_discrete,
}
use better_call_chain.Core.Crypto.{Crypto, sha256, verify}
use better_call_chain.Core.Address.{from_pubkey_bytes}
use better_call_chain.Core.Merkle.{tx_hash, block_hash, compute_merkle_root}
use better_call_chain.Core.Validation.Transactions.{tx_signing_bytes, validate_transaction}
use better_call_chain.Core.Validation.Blocks.{AllActive, validate_block}
use better_call_chain.Core.Utxo.{UtxoMap}
use better_call_chain.Core.Memory.{MemoryStore, get_output, all_active}
use better_call_chain.Tests.Toy.{toy}

-- What holds of the members of a list one by one.
pub All-among :
    (P : TxOutRef → Type 0) (l : List TxOutRef) → All P l → (r : TxOutRef) → among r l ≡ true → P r
unfolding contains
All-among P [] h r e = absurd (cc)
All-among P (s ∷ l) h r e = elim (out_ref_discrete r s) [
  | yes p ↦ subst P (sym p) h.0
  | no ne ↦ All-among P l h.1 r (ground (arith, e, ne))
]

abbrev pub alice_key : Bytes
alice_key = 1 ∷ []

abbrev pub bob_key : Bytes
bob_key = 2 ∷ []

abbrev pub alice : Address
alice = from_pubkey_bytes toy alice_key

abbrev pub bob : Address
bob = from_pubkey_bytes toy bob_key

abbrev pub coin : TxOutRef
coin = record { tx_hash = 7 ∷ []; index = 0 }

abbrev pub pays : ℕ → Address → TxOutput
pays amount address = record { amount = amount; address = address }

-- Ten tokens of Alice's.
abbrev pub utxo : UtxoMap
utxo = (coin, pays 10 alice) ∷ []

-- A transfer of Alice's that spends the references for the outputs.
abbrev pub signed : List TxOutRef → List TxOutput → Transaction
signed refs outputs =
    let input : Bytes → TxOutRef → TxInput =
      λ sig r. record { out_ref = r; signature = sig; pubkey = alice_key } in
    let unsigned : Transaction = record {
      kind = transfer;
      inputs = map (input []) refs;
      outputs = outputs;
    } in
    record unsigned {
      inputs = map (input (toy.sign alice_key (tx_signing_bytes toy unsigned))) refs;
    }

abbrev pub payment : Transaction
payment = signed (coin ∷ []) (pays 6 bob ∷ pays 4 alice ∷ [])

abbrev pub validator : Validator
validator = record { address = alice; pubkey = alice_key; stake = 5; active_since = 0 }

abbrev pub other_validator : Validator
other_validator = record { address = bob; pubkey = bob_key; stake = 3; active_since = 0 }

abbrev pub genesis : Block
genesis = record {
  header = record {
    prev_hash = [];
    merkle_root = [];
    timestamp = pos 0;
    height = 0;
    slot = 0;
    proposer = alice;
  };
  signature = [];
  txs = [];
}

-- The block at the height and in the slot that Alice makes of the transactions.
abbrev pub block_of : ℕ → List Transaction → Block
block_of height txs =
    let header : BlockHeader = record {
      prev_hash = block_hash toy genesis;
      merkle_root = compute_merkle_root toy txs;
      timestamp = pos 5;
      height = height;
      slot = height;
      proposer = alice;
    } in
    record { header = header; signature = toy.sign alice_key (toy.header_json header); txs = txs }

abbrev pub block : Block
block = block_of 1 (payment ∷ [])

abbrev pub store : MemoryStore
store = record {
  blocks = (0, genesis) ∷ [];
  index = (block_hash toy genesis, 0) ∷ [];
  utxo = utxo;
  spent = [];
  validators = (alice, validator) ∷ [];
}

abbrev pub active : AllActive
active = all_active store

pub payment-valid : validate_transaction toy (get_output store) payment ≡ ok tt
unfolding validate_transaction better_call_chain.Core.Validation.Transactions.has_outputs
    better_call_chain.Core.Validation.Transactions.check_outputs
    better_call_chain.Core.Validation.Transactions.check_inputs get_output mathlib.Core.List.lookup
    better_call_chain.Core.Types.out_ref_discrete better_call_chain.Core.Types.address_discrete
    from_pubkey_bytes sha256 verify better_call_chain.Core.Types.bytes_discrete tx_signing_bytes
    better_call_chain.Core.Validation.Transactions.check_funds
    better_call_chain.Prelude.Words.sum_from
payment-valid = refl

pub block-valid : validate_block toy block genesis (get_output store) active 100 ≡ ok tt
unfolding validate_block better_call_chain.Core.Validation.Blocks.check_header
    better_call_chain.Core.Types.bytes_discrete block_hash better_call_chain.Core.Crypto.sha256d
    better_call_chain.Core.Validation.Blocks.slot_end
    better_call_chain.Core.Validation.Blocks.check_proposer all_active
    better_call_chain.Core.Election.elect_proposer better_call_chain.Core.Election.elect_at
    better_call_chain.Core.Memory.sort_by_address better_call_chain.Core.Memory.eligible
    better_call_chain.Core.Memory.sort_in better_call_chain.Prelude.Words.sum_from
    better_call_chain.Core.Election.scan better_call_chain.Core.Election.seed_of
    better_call_chain.Core.Election.of_le_bytes better_call_chain.Core.Types.address_discrete
    from_pubkey_bytes sha256 verify better_call_chain.Core.Election.le_bytes
    better_call_chain.Core.Memory.ltb_bytes compute_merkle_root
    better_call_chain.Core.Merkle.hash_pairs better_call_chain.Core.Merkle.merkle_loop
    better_call_chain.Core.Merkle.pad better_call_chain.Core.Merkle.push_last
    better_call_chain.Core.Merkle.root_of_layer tx_hash
    better_call_chain.Core.Validation.Blocks.check_txs
    better_call_chain.Core.Validation.Transactions.check_funds
    better_call_chain.Core.Validation.Transactions.check_inputs
    better_call_chain.Core.Validation.Transactions.check_outputs
    better_call_chain.Core.Validation.Transactions.has_outputs tx_signing_bytes validate_transaction
    get_output better_call_chain.Core.Types.out_ref_discrete mathlib.Core.List.lookup
    better_call_chain.Prelude.ℕ_discrete
block-valid = refl
