-- ===== src/Tests/Chain.antt =====
-- The theorems about the core at concrete inputs.
use better_call_chain.Prelude.{
  ℕ, zero, suc, ◌%◌, ◌≡◌, refl, ◌≢◌, ◌⊎◌, Bool, List, [], ◌∷◌, ◌++◌, map, some, ok, arith, ◌==◌,
}
use better_call_chain.Prelude.Words.{total}
use better_call_chain.Core.Types.{Bytes, Address, Transaction, Validator}
use better_call_chain.Core.Address.{
  AddressError, validate, prefix, from_pubkey_bytes, all_hexdigits,
}
use better_call_chain.Core.Address.Laws.{uppercase_unspendable}
use better_call_chain.Core.Merkle.{compute_merkle_root}
use better_call_chain.Core.Merkle.Rounds.{compute_merkle_root_repeated}
use better_call_chain.Core.Merkle.Binding.{Collision, hashed, compute_merkle_root_binding}
use better_call_chain.Core.Election.{elect_at}
use better_call_chain.Core.Election.Scan.{staked, IsElected, elect_at-IsElected}
use better_call_chain.Core.Election.Fairness.{count, won, weight, count-elect_at}
use better_call_chain.Core.Validation.Transactions.Sound.{IsValidTx, validate_transaction_iff}
use better_call_chain.Core.Validation.Blocks.Sound.{IsValidBlock, validate_block_iff}
use better_call_chain.Core.Memory.{get_output}
use better_call_chain.Tests.Toy.{toy, toy-laws}
use better_call_chain.Tests.Data.{
  alice, alice_key, bob, coin, pays, signed, payment, validator, other_validator, genesis, block,
  store, active, payment-valid, block-valid,
}

abbrev zeros : ℕ → Bytes
zeros zero = []
zeros (suc n) = b'0' ∷ zeros n

abbrev shouted : Address
shouted = record { text = prefix ++ b'A' ∷ zeros 39 }

shouted-valid : validate shouted.text ≡ ok shouted
unfolding validate better_call_chain.Core.Address.starts_with all_hexdigits
    better_call_chain.Core.Address.is_hexdigit
shouted-valid = refl

uppercase_unspendable_example : shouted ≢ alice
uppercase_unspendable_example =
    uppercase_unspendable toy toy-laws shouted.text (zeros 39) b'A' [] shouted alice_key
      shouted-valid refl (omega arith) (omega arith)

abbrev other : Transaction
other = signed (coin ∷ []) (pays 5 bob ∷ [])

abbrev third : Transaction
third = signed (coin ∷ []) (pays 9 bob ∷ [])

compute_merkle_root_repeated_example :
    compute_merkle_root toy (payment ∷ other ∷ third ∷ [])
    ≡ compute_merkle_root toy (payment ∷ other ∷ third ∷ third ∷ [])
compute_merkle_root_repeated_example =
    compute_merkle_root_repeated toy payment (other ∷ []) third refl

-- The digest of the stand-in keeps the beginning of a text only, so these lists share a root.
one_root :
    compute_merkle_root toy (payment ∷ other ∷ []) ≡ compute_merkle_root toy (payment ∷ third ∷ [])
unfolding compute_merkle_root better_call_chain.Core.Merkle.root_of_layer
    better_call_chain.Core.Merkle.merkle_loop better_call_chain.Core.Merkle.hash_pairs
    better_call_chain.Core.Merkle.pad better_call_chain.Core.Merkle.tx_hash
    better_call_chain.Core.Crypto.sha256d better_call_chain.Core.Merkle.push_last
one_root = refl

compute_merkle_root_binding_example :
    Collision toy (hashed toy (payment ∷ other ∷ [])) (hashed toy (payment ∷ third ∷ []))
    ⊎ (map toy.transaction_json (payment ∷ other ∷ [])
        ≡ map toy.transaction_json (payment ∷ third ∷ []))
compute_merkle_root_binding_example =
    compute_merkle_root_binding toy toy-laws (payment ∷ other ∷ []) (payment ∷ third ∷ []) refl
      one_root

abbrev both : List Validator
both = validator ∷ other_validator ∷ []

elect_at-IsElected_example :
    (v : Validator) × (elect_at 14 both ≡ some v) × IsElected (14 % staked both) both v
unfolding total
elect_at-IsElected_example = elect_at-IsElected 14 both (omega arith) (omega arith)

abbrev is_alice : Validator → Bool
is_alice v = v.stake == 5

count-elect_at_example :
    count 0 (staked both) (λ seed. won is_alice (elect_at seed both)) ≡ weight is_alice both
unfolding total
count-elect_at_example = count-elect_at is_alice both (omega arith) (omega arith)

validate_transaction_iff_example : IsValidTx toy (get_output store) payment
validate_transaction_iff_example =
    (validate_transaction_iff toy (get_output store) payment).0 payment-valid

validate_block_iff_example : IsValidBlock toy (get_output store) active 100 genesis block
validate_block_iff_example =
    (validate_block_iff toy (get_output store) active 100 genesis block).0 block-valid
