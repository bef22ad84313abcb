-- ===== src/Tests/Slots.antt =====
-- The theorems about the slot ticker at concrete inputs.
use better_call_chain.Prelude.{ℕ, ◌≤◌, ◌≡◌, refl, List, [], ◌∷◌, Option, some, ok, All, length}
use better_call_chain.Prelude.Words.{pos}
use better_call_chain.Core.Types.{BlockHash, Transaction, Block}
use better_call_chain.Core.Merkle.{block_hash}
use better_call_chain.Core.Election.{elect_proposer}
use better_call_chain.Core.Memory.{get_output, all_active}
use better_call_chain.Core.Validation.Transactions.Sound.{validate_transaction_iff}
use better_call_chain.Core.Validation.Blocks.{validate_block}
use better_call_chain.Node.Mempool.{empty, drain}
use better_call_chain.Node.State.{NodeState, memory}
use better_call_chain.Node.Ticker.{Proposer, build_block, tick}
use better_call_chain.Node.Ticker.Proposal.{
  IsElectedHere, IsProposal, validate_block-build_block, tick-IsElectedHere,
}
use better_call_chain.Tests.Toy.{toy, toy-laws}
use better_call_chain.Tests.Index.{entries}
use better_call_chain.Tests.Data.{
  alice, alice_key, validator, genesis, payment, payment-valid, store, active,
}

abbrev me : Proposer
me = record { my_address = alice; my_signing_key = alice_key }

abbrev node : NodeState (memory toy) entries
node = record {
  stores = store;
  mempool = empty toy entries 4;
  peer_set = [];
  slot_duration_secs = 100;
}

active-alice : active 1 ≡ ok (validator ∷ [])
unfolding all_active better_call_chain.Core.Memory.sort_by_address
    better_call_chain.Core.Memory.eligible better_call_chain.Core.Memory.sort_in
active-alice = refl

elected-alice : elect_proposer toy 1 (block_hash toy genesis) (validator ∷ []) ≡ some validator
unfolding elect_proposer better_call_chain.Core.Election.elect_at
    better_call_chain.Prelude.Words.sum_from better_call_chain.Core.Election.scan
    better_call_chain.Core.Election.seed_of better_call_chain.Core.Election.of_le_bytes
    better_call_chain.Core.Crypto.sha256d block_hash
elected-alice = refl

validate_block-build_block_example :
    validate_block toy
      (build_block toy
        (memory toy)
        entries
        me
        0
        (block_hash toy genesis)
        1
        (pos 105)
        (payment ∷ []))
      genesis
      (get_output store)
      active
      100
    ≡ ok tt
unfolding better_call_chain.Core.Validation.Blocks.slot_end
validate_block-build_block_example =
    validate_block-build_block toy toy-laws (memory toy) entries me (get_output store) active 100 1
      (pos 105) genesis (payment ∷ []) (validator ∷ []) validator active-alice elected-alice refl
      refl refl refl ((validate_transaction_iff toy (get_output store) payment).0 payment-valid, tt)

abbrev made : Block
made = build_block toy (memory toy) entries me 0 (block_hash toy genesis) 1 (pos 105) []

tick-made : (tick toy (memory toy) entries me 105 node).produced ≡ some made
unfolding tick better_call_chain.Core.Validation.Blocks.slot_end
    better_call_chain.Node.Ticker.on_slot better_call_chain.Core.Memory.tip
    better_call_chain.Prelude.Trees.tree_last all_active
    better_call_chain.Node.Ticker.already_covered better_call_chain.Core.Memory.get_by_height
    better_call_chain.Prelude.Trees.tree_get elect_proposer better_call_chain.Core.Election.elect_at
    better_call_chain.Core.Memory.sort_by_address better_call_chain.Core.Memory.eligible
    better_call_chain.Core.Memory.sort_in better_call_chain.Prelude.Words.sum_from
    better_call_chain.Core.Election.scan better_call_chain.Core.Election.seed_of
    better_call_chain.Core.Election.of_le_bytes better_call_chain.Core.Crypto.sha256d
    better_call_chain.Core.Election.le_bytes better_call_chain.Core.Memory.ltb_bytes block_hash
    better_call_chain.Core.Merkle.compute_merkle_root better_call_chain.Core.Merkle.hash_pairs
    better_call_chain.Core.Merkle.merkle_loop better_call_chain.Core.Merkle.pad
    better_call_chain.Core.Merkle.push_last better_call_chain.Core.Merkle.root_of_layer
    better_call_chain.Core.Merkle.tx_hash better_call_chain.Core.Types.address_discrete
    better_call_chain.Core.Types.bytes_discrete better_call_chain.Core.Types.out_ref_discrete drain
    better_call_chain.Node.Mempool.release_inputs better_call_chain.Node.Mempool.remove_hashes
    better_call_chain.Node.Mempool.remove_one better_call_chain.Node.Mempool.sort_desc
    better_call_chain.Node.Mempool.sort_in_desc better_call_chain.Node.Ticker.announce build_block
    better_call_chain.Node.Ticker.on_elected better_call_chain.Node.Ticker.propose_block
    better_call_chain.Prelude.Maps.delete better_call_chain.Prelude.Maps.remove
    better_call_chain.Core.Memory.insert_block better_call_chain.Core.Memory.apply_block empty
    better_call_chain.Core.Utxo.apply_txs mathlib.Core.List.lookup
    better_call_chain.Prelude.ℕ_discrete better_call_chain.Core.Address.from_pubkey_bytes
    better_call_chain.Core.Crypto.sha256
tick-made = refl

tick-IsElectedHere_example :
    (h : ℕ) × (hash : BlockHash) × IsElectedHere toy (memory toy) entries me 105 node h hash
    × IsProposal toy (memory toy) entries me 105 node h hash made
tick-IsElectedHere_example = tick-IsElectedHere toy (memory toy) entries me 105 node made tick-made
