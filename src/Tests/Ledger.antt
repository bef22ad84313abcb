-- ===== src/Tests/Ledger.antt =====
-- The theorems about the tables of the store at concrete inputs.
use mathlib.Core.List.{Permᴰ, Nodup, Nodup-cons, mem-singleton, lookup}
use mathlib.Mathlib.Data.List.Nodup.{Nodup-singleton}
use better_call_chain.Prelude.{
  ℕ, subst, sym, ◌≤◌, ◌<◌, ◌≡◌, refl, ◌≢◌, ◌⊎◌, true, List, [], ◌∷◌, map, none, some, ok, err,
  ◌>>=◌, arith, All, get_or, ap, ite, if◌then◌else◌, leb, ◌==◌,
}
use better_call_chain.Prelude.Maps.{contains}
use better_call_chain.Prelude.Words.{total}
use better_call_chain.Prelude.Trees.{tree_get}
use better_call_chain.Core.Types.{
  Bytes, Address, TxOutRef, TxInput, TxOutput, Transaction, Block, backend, out_ref_discrete,
  address_discrete, bytes_discrete,
}
use better_call_chain.Core.Address.{from_pubkey_bytes}
use better_call_chain.Core.Merkle.{merkle_loop, compute_merkle_root, block_hash}
use better_call_chain.Core.Validation.Transactions.{tx_signing_bytes, validate_transaction}
use better_call_chain.Core.Utxo.{Tables, get_utxo, apply_tx, apply_txs, created, consumed}
use better_call_chain.Core.Utxo.Rollback.{among, IsApplicable}
use better_call_chain.Core.Utxo.Supply.{supply, IsFunded}
use better_call_chain.Core.Memory.{
  MemoryStore, get_output, get_by_height, get_by_hash, apply_block, rollback_block, insert_block,
  iter_from, tip, all_active, upsert, get_validator,
}
use better_call_chain.Core.Memory.Ledger.{rollback_block-apply_block, supply-apply_block}
use better_call_chain.Core.Memory.Inflation.{SpendsTwice, duplicate_input_mints}
use better_call_chain.Core.Memory.Chain.{IsOrdered, get_by_hash_stale}
use better_call_chain.Core.Memory.Validators.{entry_text, IsRegistry}
use better_call_chain.Node.State.{memory, reorg_block}
use better_call_chain.Node.Sync.{check_block, apply_one, apply_batch}
use better_call_chain.Node.State.Reorg.{reorg_block-apply_block}
use better_call_chain.Tests.Toy.{toy}
use better_call_chain.Tests.Data.{
  All-among, alice, alice_key, bob, coin, pays, utxo, signed, payment, validator, other_validator,
  genesis, block, store, active, block-valid,
}

some_ne : {o : TxOutput} → some o ≢ none
some_ne e = cc (e)

payment-fresh :
    (r : TxOutRef) → among r (created toy (payment ∷ [])) ≡ true → get_utxo r utxo ≡ none
unfolding created lookup out_ref_discrete better_call_chain.Core.Merkle.tx_hash
    better_call_chain.Core.Crypto.sha256d
payment-fresh =
    All-among (λ r. get_utxo r utxo ≡ none) (created toy (payment ∷ [])) (refl, (refl, tt))

payment-stored : (r : TxOutRef) → among r (consumed (payment ∷ [])) ≡ true → get_utxo r utxo ≢ none
unfolding consumed lookup out_ref_discrete
payment-stored =
    All-among (λ r. get_utxo r utxo ≢ none) (consumed (payment ∷ [])) ((λ e. some_ne e), tt)

payment-IsApplicable : IsApplicable toy utxo (payment ∷ [])
payment-IsApplicable = record { fresh = payment-fresh; stored = payment-stored }

abbrev paid : Tables
paid = apply_txs toy (payment ∷ []) (record { utxo = utxo; spent = [] })

payment-IsFunded : IsFunded utxo payment
unfolding lookup out_ref_discrete total
payment-IsFunded = record { spent = pays 10 alice ∷ []; holds = (refl, tt); funded = omega arith }

rollback_block-apply_block_example :
    (back : MemoryStore) × ((apply_block toy store block >>= λ after.
    rollback_block toy after block)
      ≡ ok back)
    × ((r : TxOutRef) → get_output back r ≡ get_output store r)
    × ((h : ℕ) → h ≢ block.header.height → tree_get h back.spent ≡ tree_get h store.spent)
    × (back.blocks ≡ store.blocks)
    × (back.index ≡ store.index)
    × (back.validators ≡ store.validators)
rollback_block-apply_block_example =
    rollback_block-apply_block toy store genesis block active 100 block-valid payment-fresh

supply-apply_block_example :
    (after : MemoryStore) × (apply_block toy store block ≡ ok after)
    × (supply after.utxo ≤ supply store.utxo)
unfolding total consumed contains
supply-apply_block_example =
    supply-apply_block toy store genesis block active 100 block-valid payment-fresh
      (omega arith, tt) (refl, tt)

abbrev twice : Transaction
twice = signed (coin ∷ coin ∷ []) (pays 15 bob ∷ [])

abbrev twice_input : TxInput
twice_input = record {
  out_ref = coin;
  signature = toy.sign alice_key (tx_signing_bytes toy twice);
  pubkey = alice_key;
}

twice-SpendsTwice : SpendsTwice toy store twice twice_input (pays 10 alice) (pays 15 bob)
unfolding tx_signing_bytes lookup out_ref_discrete bytes_discrete
twice-SpendsTwice = record {
  inputs = refl;
  outputs = refl;
  stored = refl;
  owned = refl;
  signed = refl;
}

duplicate_input_mints_example :
    (validate_transaction toy (get_output store) twice ≡ ok tt)
    × (supply store.utxo < supply (apply_tx toy twice (record { utxo = utxo; spent = [] })).utxo)
unfolding contains lookup out_ref_discrete better_call_chain.Core.Merkle.tx_hash
    better_call_chain.Core.Crypto.sha256d
duplicate_input_mints_example =
    duplicate_input_mints toy store twice twice_input (pays 10 alice) (pays 15 bob)
      twice-SpendsTwice (omega arith) (omega arith) (omega arith) (refl, tt) refl

store-IsOrdered : IsOrdered store
unfolding tree_get
store-IsOrdered = record { rising = (omega arith, tt); placed = λ h b e. ground (arith, e) }

abbrev sibling : Block
sibling = record block { header = record block.header { slot = 2 } }

apart_at : (a b : Bytes) → get_or a 1 0 ≡ 1 → get_or b 1 0 ≡ 2 → a ≢ b
apart_at a b p q e = absurd (cc (p, q, e))

hash-slot : get_or (block_hash toy block) 1 0 ≡ 1
unfolding block_hash better_call_chain.Core.Crypto.sha256d
hash-slot = refl

sibling-slot : get_or (block_hash toy sibling) 1 0 ≡ 2
unfolding block_hash better_call_chain.Core.Crypto.sha256d
sibling-slot = refl

get_by_hash_stale_example :
    (s' : MemoryStore) × ((insert_block toy store block >>= λ t. insert_block toy t sibling)
      ≡ ok s')
    × (get_by_hash s' (block_hash toy block) ≡ ok (some sibling))
get_by_hash_stale_example =
    get_by_hash_stale toy store block sibling refl
      (apart_at (block_hash toy block) (block_hash toy sibling) hash-slot sibling-slot)

abbrev swapped : MemoryStore
swapped = record store { validators = (bob, other_validator) ∷ (alice, validator) ∷ [] }

abbrev ordered : MemoryStore
ordered = record store { validators = (alice, validator) ∷ (bob, other_validator) ∷ [] }

first-alice : get_or alice.text 5 0 ≡ 49
unfolding from_pubkey_bytes better_call_chain.Core.Crypto.sha256
first-alice = refl

first-bob : get_or bob.text 5 0 ≡ 50
unfolding from_pubkey_bytes better_call_chain.Core.Crypto.sha256
first-bob = refl

text_apart : (a b : Bytes) → get_or a 5 0 ≡ 49 → get_or b 5 0 ≡ 50 → a ≢ b
text_apart a b p q e = ground (arith, p, q, ap (λ l. get_or l 5 0) e)

bytes_set : IsSet Bytes
bytes_set = hlevel

other_text : alice.text ≢ bob.text
other_text e = text_apart alice.text bob.text first-alice first-bob e

ordered-Nodup : Nodup (map entry_text ordered.validators)
ordered-Nodup = Nodup-cons.1 (
  (λ m. other_text ((mem-singleton bytes_set).0 m)),
  Nodup-singleton (entry_text (bob, other_validator)),
)

store-IsRegistry : IsRegistry toy store
store-IsRegistry = record {
  entries = ((refl, refl), tt);
  distinct = Nodup-singleton (entry_text (alice, validator));
}

reorg_block-apply_block_example :
    (with_old with_new after : MemoryStore) × (apply_block toy store block ≡ ok with_old)
    × (apply_block toy store sibling ≡ ok with_new)
    × (reorg_block (memory toy) block sibling with_old ≡ (after, ok tt))
    × ((r : TxOutRef) → get_output after r ≡ get_output with_new r)
    × (get_by_height after 1 ≡ ok (some sibling))
reorg_block-apply_block_example =
    reorg_block-apply_block toy store genesis block sibling active 100 block-valid payment-fresh

abbrev pub synced : MemoryStore
synced = (apply_batch toy (memory toy) 100 (block ∷ []) store).0

pub batch-ok : (apply_batch toy (memory toy) 100 (block ∷ []) store).1 ≡ ok tt
unfolding apply_batch apply_one check_block better_call_chain.Core.Memory.get_by_height
    better_call_chain.Prelude.Trees.tree_get better_call_chain.Core.Memory.insert_block
    better_call_chain.Core.Memory.apply_block
    better_call_chain.Core.Validation.Blocks.validate_block
    better_call_chain.Core.Validation.Blocks.check_header
    better_call_chain.Core.Types.bytes_discrete better_call_chain.Core.Merkle.block_hash
    better_call_chain.Core.Crypto.sha256d better_call_chain.Core.Validation.Blocks.slot_end
    better_call_chain.Core.Validation.Blocks.check_proposer better_call_chain.Core.Memory.all_active
    better_call_chain.Core.Election.elect_proposer better_call_chain.Core.Election.elect_at
    better_call_chain.Core.Memory.sort_by_address better_call_chain.Core.Memory.eligible
    better_call_chain.Core.Memory.sort_in better_call_chain.Prelude.Words.sum_from
    better_call_chain.Core.Election.scan better_call_chain.Core.Election.seed_of
    better_call_chain.Core.Election.of_le_bytes better_call_chain.Core.Types.address_discrete
    better_call_chain.Core.Address.from_pubkey_bytes better_call_chain.Core.Crypto.sha256
    better_call_chain.Core.Crypto.verify better_call_chain.Core.Election.le_bytes
    better_call_chain.Core.Memory.ltb_bytes better_call_chain.Core.Merkle.compute_merkle_root
    better_call_chain.Core.Merkle.hash_pairs better_call_chain.Core.Merkle.merkle_loop
    better_call_chain.Core.Merkle.pad better_call_chain.Core.Merkle.push_last
    better_call_chain.Core.Merkle.root_of_layer better_call_chain.Core.Merkle.tx_hash
    better_call_chain.Core.Validation.Blocks.check_txs
    better_call_chain.Core.Validation.Transactions.check_funds
    better_call_chain.Core.Validation.Transactions.check_inputs
    better_call_chain.Core.Validation.Transactions.check_outputs
    better_call_chain.Core.Validation.Transactions.has_outputs
    better_call_chain.Core.Validation.Transactions.tx_signing_bytes
    better_call_chain.Core.Validation.Transactions.validate_transaction
    better_call_chain.Core.Memory.get_output better_call_chain.Core.Types.out_ref_discrete
    mathlib.Core.List.lookup better_call_chain.Prelude.ℕ_discrete
batch-ok = refl
