-- ===== src/Tests/Purse.antt =====
-- The theorems about the wallet at concrete inputs.
use better_call_chain.Prelude.{ℕ, refl, List, [], ◌∷◌, All}
use mathlib.Core.List.{Perm}
use better_call_chain.Core.Types.{Bytes, Transaction, TxOutRef}
use better_call_chain.Core.Merkle.{zeros}
use better_call_chain.Core.Validation.Transactions.{UtxoGet}
use better_call_chain.Core.Memory.{get_output}
use better_call_chain.Client.Wallet.{UtxoItem, select_coins, sort_by_amount}
use better_call_chain.Client.Wallet.Selection.{Rising, Selects, select_coins-Selects}
use better_call_chain.Client.Wallet.Transfer.{IsOwned}
use better_call_chain.Tests.Toy.{toy}
use better_call_chain.Tests.Data.{alice, alice_key, pays, store}

abbrev item : ℕ → ℕ → UtxoItem
item index amount = record { tx_hash = toy.hex_encode (zeros 32); index = index; amount = amount }

abbrev purse : List UtxoItem
purse = item 0 10 ∷ item 1 4 ∷ item 2 7 ∷ []

abbrev at : ℕ → TxOutRef
at index = record { tx_hash = zeros 32; index = index }

abbrev get : UtxoGet
get = get_output (record store {
  utxo = (at 0, pays 10 alice) ∷ (at 1, pays 4 alice) ∷ (at 2, pays 7 alice) ∷ [];
})

purse-IsOwned : All (IsOwned toy get alice_key) purse
unfolding get_output mathlib.Core.List.lookup better_call_chain.Core.Types.out_ref_discrete
purse-IsOwned = (
  record { hash = zeros 32; decoded = refl; sized = refl; stored = refl },
  (
    record { hash = zeros 32; decoded = refl; sized = refl; stored = refl },
    (record { hash = zeros 32; decoded = refl; sized = refl; stored = refl }, tt),
  ),
)

select_coins-Selects_example :
    Rising (sort_by_amount purse)
    × Perm (sort_by_amount purse) purse
    × Selects purse 9 (select_coins purse 9)
select_coins-Selects_example = select_coins-Selects purse 9
