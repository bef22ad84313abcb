-- ===== src/Tests/Halves.antt =====
-- The theorems about the splitting of outputs at concrete inputs.
use better_call_chain.Prelude.{ℕ, ◌≡◌, refl, List, Option, some, Result, ok, true, length, arith}
use better_call_chain.Core.Merkle.{zeros}
use better_call_chain.Client.Wallet.{UtxoItem}
use better_call_chain.Client.Split.{SplitError, Node, split_utxo}
use better_call_chain.Client.Split.Conserves.{Splits, split_utxo-Splits}
use better_call_chain.Client.Split.Exact.{Accepts, split_utxo-Exact}
use better_call_chain.Tests.Toy.{toy, toy-laws}
use better_call_chain.Tests.Data.{alice, alice_key}

abbrev item : ℕ → UtxoItem
item amount = record { tx_hash = toy.hex_encode (zeros 32); index = 0; amount = amount }

abbrev willing : Node
willing = record { post_tx = λ _ _. ok tt; confirms = λ _ _. true }

willing-Accepts : Accepts willing
willing-Accepts = record { posted = λ _ _. refl; seen = λ _ _. refl }

split_utxo-Splits_example : Splits 3 10 (split_utxo toy alice_key alice 4 willing (item 10) 3)
split_utxo-Splits_example =
    split_utxo-Splits toy alice_key alice 4 willing (item 10) 3 (omega arith)

split_utxo-Exact_example :
    (us : List UtxoItem) × (split_utxo toy alice_key alice 6 willing (item 10) 5 ≡ some (ok us))
    × (length us ≡ 5)
split_utxo-Exact_example =
    split_utxo-Exact toy toy-laws alice_key alice 6 willing (item 10) 5 willing-Accepts
      (zeros 32, refl, refl) (omega arith) (omega arith) (omega arith)

abbrev count_of : Option (Result SplitError (List UtxoItem)) → ℕ
count_of (some (ok us)) = length us
count_of _ = 0

-- An output of three could be split into three, but the loop stops at two.
split_utxo_stuck : count_of (split_utxo toy alice_key alice 9 willing (item 3) 3) ≡ 2
unfolding split_utxo better_call_chain.Client.Wallet.build_transfer
    better_call_chain.Client.Wallet.inputs_of better_call_chain.Client.Wallet.tx_hash_bytes
split_utxo_stuck = refl
