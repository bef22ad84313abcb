-- ===== src/Node/Genesis.antt =====
-- crates/bcc-node/src/genesis.rs over the store traits, after the configuration is read.
pub mod Seeding
use better_call_chain.Prelude.{
  ℕ, Bool, List, [], ◌∷◌, Option, none, some, Result, ok, err, ok_or, guard, map_err, ◌>>=◌, ◌>>◌,
  ◌==◌, length,
}
use better_call_chain.Prelude.Words.{ℤ}
use better_call_chain.Core.Types.{
  Bytes, BlockHash, Address, TxOutput, Transaction, transfer, Block, Validator,
}
use better_call_chain.Core.Crypto.{Crypto, sha256d}
use better_call_chain.Core.Address.{validate, from_pubkey_bytes}
use better_call_chain.Core.Merkle.{zeros}
use better_call_chain.Core.Memory.{StoreResult}
use better_call_chain.Node.Errors.{NodeError, store, config}
use better_call_chain.Node.State.{Stores, and_write}

abbrev pub genesis_message : Bytes
genesis_message =
    b'S' ∷ b'l' ∷ b'i' ∷ b'p' ∷ b'p' ∷ b'i' ∷ b'n' ∷ b'g' ∷ b' ' ∷ b'J' ∷ b'i' ∷ b'm' ∷ b'm' ∷ b'y'
    ∷ b',' ∷ b' ' ∷ b'c' ∷ b'o' ∷ b'u' ∷ b'n' ∷ b's' ∷ b'e' ∷ b'l' ∷ b'o' ∷ b'r' ∷ b' ' ∷ b'a'
    ∷ b't' ∷ b' ' ∷ b'l' ∷ b'a' ∷ b'w' ∷ b'.' ∷ []

pub record GenesisValidator : Type 0 where
  pub address : Bytes
  pub pubkey : Bytes
  pub stake : ℕ

pub record GenesisAccount : Type 0 where
  pub address : Bytes
  pub balance : ℕ

pub record GenesisConfig : Type 0 where
  pub timestamp : ℤ
  pub validators : List GenesisValidator
  pub accounts : List GenesisAccount

-- `map` and `collect` over the accounts: the first error is the answer.
unfoldable pub alloc_txs : List GenesisAccount → Result NodeError (List Transaction)
alloc_txs [] = ok []
alloc_txs (entry ∷ accounts) = do
  address ← map_err (λ _. config) (validate entry.address)
  txs ← alloc_txs accounts
  ok (
      record {
        kind = transfer;
        inputs = [];
        outputs = record { amount = entry.balance; address = address } ∷ [];
      }
      ∷ txs)

-- What follows a write to the stores, whose error is a `NodeError::Store`.
abbrev pub and_then_node :
    {S : Type 0}
    → S × StoreResult (Unit {0})
    → (S → S × Result NodeError (Unit {0}))
    → S × Result NodeError (Unit {0})
and_then_node (s, err e) k = (s, err (store e))
and_then_node (s, ok _) k = k s

-- `key_ok` says which byte strings are keys for `VerifyingKey::from_bytes`.
module _ (c : Crypto) (key_ok : Bytes → Bool) where
  unfoldable pub genesis_merkle_root : BlockHash
  genesis_merkle_root = sha256d c genesis_message

  unfoldable pub build_genesis_block : ℤ → List Transaction → Block
  build_genesis_block timestamp txs = record {
    header = record {
      prev_hash = zeros 32;
      merkle_root = genesis_merkle_root;
      timestamp = timestamp;
      height = 0;
      slot = 0;
      proposer = from_pubkey_bytes c (zeros 32);
    };
    signature = zeros 64;
    txs = txs;
  }

  -- One round of the loop over the validators, before the write.
  unfoldable pub validator_of : GenesisValidator → Result NodeError Validator
  validator_of entry = do
    address ← map_err (λ _. config) (validate entry.address)
    pubkey ← ok_or (c.hex_decode entry.pubkey) config
    guard (length pubkey == 32) config
    guard (key_ok pubkey) config
    ok (record { address = address; pubkey = pubkey; stake = entry.stake; active_since = 0 })

  module _ (st : Stores) where
    unfoldable pub register :
        List GenesisValidator → st.Storage → st.Storage × Result NodeError (Unit {0})
    register [] s = (s, ok tt)
    register (entry ∷ entries) s = elim (validator_of entry) [
      | err e ↦ (s, err e)
      | ok v ↦ and_then_node (st.upsert s v) (register entries)
    ]

    -- What follows the allocation: the block is written, then the validators.
    unfoldable pub seed :
        GenesisConfig → Block → st.Storage → st.Storage × Result NodeError (Unit {0})
    seed cfg genesis s =
        and_then_node (and_write (st.insert s genesis) (λ t. st.apply_block t genesis))
          (register cfg.validators)

    -- The rest of `apply_genesis`, where the store has no block at height 0.
    unfoldable pub allocate : GenesisConfig → st.Storage → st.Storage × Result NodeError (Unit {0})
    allocate cfg s = elim (alloc_txs cfg.accounts) [
      | err e ↦ (s, err e)
      | ok txs ↦ seed cfg (build_genesis_block cfg.timestamp txs) s
    ]

    unfoldable pub apply_genesis :
        GenesisConfig → st.Storage → st.Storage × Result NodeError (Unit {0})
    apply_genesis cfg s = elim (st.get_by_height s 0) [
      | err e ↦ (s, err (store e))
      | ok (some _) ↦ (s, ok tt)
      | ok none ↦ allocate cfg s
    ]
