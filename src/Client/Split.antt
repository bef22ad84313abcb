-- ===== src/Client/Split.antt =====
-- crates/bcc-client/src/split.rs: split_utxo. What the node answers is a parameter.
pub mod Rounds
pub mod Conserves
pub mod Exact
use better_call_chain.Prelude.{
  ℕ, zero, suc, ◌+◌, ◌-◌, ◌/◌, min, Bool, true, false, List, [], ◌∷◌, ◌++◌, map, Option, none, some,
  Result, ok, err, map_err, guard, ◌>>=◌, ◌>>◌, if◌then◌else◌, ltb, leb, length, take, drop,
}
use better_call_chain.Core.Types.{Bytes, Address, Transaction}
use better_call_chain.Core.Crypto.{Crypto}
use better_call_chain.Core.Merkle.{tx_hash}
use better_call_chain.Client.Errors.{ClientError}
use better_call_chain.Client.Wallet.{UtxoItem, build_transfer}

-- The `String` of a failed split, by its cause.
pub data SplitError : Type 0 where
  build_failed post_failed : ClientError → SplitError
  timed_out : SplitError

-- The node, by the number of the round: what it answers to `POST /tx`, and whether all transactions
-- with the given hashes are seen among the outputs before the deadline.
pub record Node : Type 0 where
  pub post_tx : ℕ → Transaction → Result ClientError (Unit {0})
  pub confirms : ℕ → List Bytes → Bool

pub record SplitEntry : Type 0 where
  pub tx : Transaction
  pub out0 : UtxoItem
  pub out1 : UtxoItem

-- The two lists that the loop over `splitting` pushes to.
pub record Built : Type 0 where
  pub next : List UtxoItem
  pub built : List SplitEntry

-- `[o0.tx_hash.clone(), o1.tx_hash.clone()]` of every entry.
unfoldable pub expected : List SplitEntry → List Bytes
expected [] = []
expected (e ∷ es) = e.out0.tx_hash ∷ e.out1.tx_hash ∷ expected es

abbrev pub to_split : ℕ → List UtxoItem → ℕ
to_split target current = min (target - length current) (length current)

abbrev pub finish : ℕ → List UtxoItem → Option (Result SplitError (List UtxoItem))
finish target current = some (ok (take target current))

-- How the loop goes on after a round that left the outputs as given or changed them.
abbrev pub after :
    (List UtxoItem → Option (Result SplitError (List UtxoItem)))
    → ℕ
    → List UtxoItem
    → Result SplitError (Option (List UtxoItem))
    → Option (Result SplitError (List UtxoItem))
after more target current (err e) = some (err e)
after more target current (ok none) = finish target current
after more target current (ok (some next)) = more next

module _ (c : Crypto) (key : Bytes) (addr : Address) where
  -- One transaction that halves an output, with the two outputs that it makes.
  unfoldable pub entry_of : UtxoItem → Transaction → SplitEntry
  entry_of utxo tx =
      let half = utxo.amount / 2 in
      let hash_hex = c.hex_encode (tx_hash c tx) in
      record {
        tx = tx;
        out0 = record { tx_hash = hash_hex; index = 0; amount = half };
        out1 = record { tx_hash = hash_hex; index = 1; amount = utxo.amount - half };
      }

  unfoldable pub halve : UtxoItem → Built → Result SplitError Built
  unfolding entry_of
  halve utxo b = do
    tx ← map_err build_failed (build_transfer c key (utxo ∷ []) addr (utxo.amount / 2) addr)
    ok (record b { built = b.built ++ entry_of utxo tx ∷ [] })

  unfoldable pub split_one : UtxoItem → Built → Result SplitError Built
  unfolding halve
  split_one utxo b =
      if ltb utxo.amount 2 then ok (record b { next = b.next ++ utxo ∷ [] }) else halve utxo b

  -- `for utxo in splitting`
  unfoldable pub build_all : List UtxoItem → Built → Result SplitError Built
  unfolding split_one
  build_all [] b = ok b
  build_all (utxo ∷ utxos) b = do b' ← split_one utxo b; build_all utxos b'

  -- The results of the requests, in order.
  unfoldable pub push_all :
      Node → ℕ → List SplitEntry → List UtxoItem → Result SplitError (List UtxoItem)
  push_all node round [] next = ok next
  push_all node round (e ∷ es) next = do
    map_err post_failed (node.post_tx round e.tx)
    push_all node round es (next ++ e.out0 ∷ e.out1 ∷ [])

  -- A round: `none` where nothing is left to split.
  unfoldable pub submit :
      Node → ℕ → List SplitEntry → List UtxoItem → Result SplitError (Option (List UtxoItem))
  unfolding push_all expected
  submit node round [] next = ok none
  submit node round (e ∷ es) next = do
    next' ← push_all node round (e ∷ es) next
    guard (node.confirms round (expected (e ∷ es))) timed_out
    ok (some next')

  unfoldable pub split_round :
      Node → ℕ → ℕ → List UtxoItem → Result SplitError (Option (List UtxoItem))
  unfolding build_all submit
  split_round node round target current = do
    b ←
        build_all (take (to_split target current) current)
          (record { next = drop (to_split target current) current; built = [] })
    submit node round b.built b.next

  -- `while current.len() < target_count`; `none` means that the fuel ran out.
  unfoldable pub split_rounds :
      ℕ → Node → ℕ → ℕ → List UtxoItem → Option (Result SplitError (List UtxoItem))
  unfolding split_round
  split_rounds zero node round target current = none
  split_rounds (suc fuel) node round target current =
      let rest =
        after (λ next. split_rounds fuel node (round + 1) target next) target current
          (split_round node round target current) in
      if ltb (length current) target then rest else finish target current

  unfoldable pub split_utxo : ℕ → Node → UtxoItem → ℕ → Option (Result SplitError (List UtxoItem))
  unfolding split_rounds
  split_utxo fuel node input_utxo target_count =
      if leb target_count 1
      then some (ok (input_utxo ∷ []))
      else split_rounds fuel node 0 target_count (input_utxo ∷ [])
