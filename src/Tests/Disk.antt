-- ===== src/Tests/Disk.antt =====
-- A small stand-in for `sled` on which no operation fails, and the theorems about `SledStore` at
-- concrete inputs.
use better_call_chain.Prelude.{
  ℕ, ◌<◌, ◌≡◌, ◌≢◌, refl, sym, subst, ◌⊎◌, inl, inr, true, Bool, List, [], ◌∷◌, map, Option, none,
  some, Result, ok, err, test, if◌then◌else◌, not, arith, ◌-◌,
}
use mathlib.Core.List.{lookup}
use better_call_chain.Prelude.Maps.{insert, remove, lookup-insert, lookup-remove}
use better_call_chain.Prelude.Trees.{tree_insert, tree_get, tree_last}
use better_call_chain.Core.Types.{
  Bytes, TxOutRef, Address, Transaction, transfer, Block, StoreError, bytes_discrete, backend,
}
use better_call_chain.Core.Merkle.{tx_hash, block_hash}
use better_call_chain.Core.Utxo.{get_utxo, created}
use better_call_chain.Core.Memory.{MemoryStore, new, ltb_bytes}
use better_call_chain.Core.Memory
use better_call_chain.Node.Sled.{
  Sled, SledError, SledLaws, SledStore, holding, height_key, from_height_key, Outcome,
}
use better_call_chain.Node.Sled.Chain
use better_call_chain.Node.Sled.Outputs
use better_call_chain.Node.Sled.Rollback
use better_call_chain.Node.Sled.Outcomes.{Leaves, left, broken}
use better_call_chain.Node.Sled.Registry
use better_call_chain.Node.Sled.Represents.{Represents, reads-Represents}
use better_call_chain.Node.Sled.Inserts.{insert-Represents}
use better_call_chain.Node.Sled.Writes.{apply_block-Represents, applied}
use better_call_chain.Node.Sled.Removes.{rollback_block-Represents, IsNext, inserted}
use better_call_chain.Node.Sled.Reverts.{IsNew}
use better_call_chain.Node.Sled.Atomic.{IsWhole, apply_block-IsWhole}
use better_call_chain.Tests.Toy.{toy}
use better_call_chain.Tests.Codecs.{json, json-laws}
use better_call_chain.Tests.Data.{All-among, alice, bob, pays, signed, block_of}

abbrev Table : Type 0
Table = List (Bytes × Bytes)

abbrev entries_from : Bytes → Table → List (Result SledError (Bytes × Bytes))
entries_from k [] = []
entries_from k (e ∷ t) = if ltb_bytes e.0 k then entries_from k t else ok e ∷ entries_from k t

abbrev disk : Sled
disk = record {
  Tree = Table;
  get = λ t k. ok (lookup bytes_discrete k t);
  insert = λ t k v. (insert bytes_discrete k v t, ok tt);
  remove = λ t k. (remove bytes_discrete k t, ok tt);
  iter = λ t. entries_from [] t;
  range_from = λ t k. entries_from k t;
  staged_get = λ t k. ok (lookup bytes_discrete k t);
  staged_insert = λ t k v. ok (insert bytes_discrete k v t);
  staged_remove = λ t k. ok (remove bytes_discrete k t);
  commit = λ ts us. ok tt;
}

disk-laws : SledLaws disk ⊥
disk-laws = record {
  find = λ t k. lookup bytes_discrete k t;
  get_lem = λ t k. holding refl;
  insert_lem = λ t k v. holding (λ i. lookup-insert bytes_discrete i k v t);
  remove_lem = λ t k. holding (λ i. lookup-remove bytes_discrete i k t);
  staged_get_lem = λ t k. holding refl;
  staged_insert_lem = λ t k v. holding (λ i. lookup-insert bytes_discrete i k v t);
  staged_remove_lem = λ t k. holding (λ i. lookup-remove bytes_discrete i k t);
  commit_lem = λ ts us. holding tt;
}

abbrev fresh_disk : SledStore disk
fresh_disk = record {
  blocks_h = [];
  blocks_idx = [];
  utxo = [];
  validators = [];
  meta = [];
  spent_h = [];
}

fresh_disk-Represents : Represents toy disk ⊥ disk-laws json fresh_disk new
unfolding disk-laws lookup tree_get tree_last better_call_chain.Core.Utxo.Rollback.last_of
fresh_disk-Represents = record {
  by_height = λ h hs. refl;
  by_hash = λ hash. refl;
  heights = λ hash h e. absurd (cc e);
  last = refl;
  unspent = λ r. refl;
  kept = λ h r hs. refl;
  registered = λ a. refl;
}

abbrev HoldsOn : SledStore disk → MemoryStore → Type 0
HoldsOn = Represents toy disk ⊥ disk-laws json

landed :
    {P : SledStore disk → Type 0} {w : SledStore disk × Result StoreError (Unit {0})}
    → Leaves ⊥ P w
    → P w.0
landed (left p) = p
landed (broken x) = absurd x

settled :
    {s : SledStore disk} {m m' : MemoryStore}
    → ◌≡◌ {A = Memory.StoreResult MemoryStore} (ok m) (ok m')
    → HoldsOn s m'
    → HoldsOn s m
settled {s = s} {m = m} e rep = subst (HoldsOn s) (sym (cc e)) rep

-- A block that mints an output, and one that spends it.
abbrev mint : Transaction
mint = record { kind = transfer; inputs = []; outputs = pays 10 alice ∷ [] }

abbrev minted : TxOutRef
minted = record { tx_hash = tx_hash toy mint; index = 0 }

abbrev first : Block
first = block_of 0 (mint ∷ [])

abbrev second : Block
second = block_of 1 (signed (minted ∷ []) (pays 6 bob ∷ pays 4 alice ∷ []) ∷ [])

abbrev disk1 : SledStore disk
disk1 = (Chain.insert disk json toy fresh_disk first).0

abbrev memory1 : MemoryStore
memory1 = inserted toy first new

first-inserted : HoldsOn disk1 memory1
unfolding Memory.insert_block tree_last tree_insert
first-inserted =
    let (m, e, l) =
      insert-Represents toy disk ⊥ disk-laws json fresh_disk new first fresh_disk-Represents
        (omega arith) refl in
    settled e (landed l)

abbrev disk2 : SledStore disk
disk2 = (Outputs.apply_block disk json toy disk1 first).0

abbrev memory2 : MemoryStore
memory2 = applied toy first memory1

first-applied : HoldsOn disk2 memory2
unfolding Memory.apply_block tree_get
first-applied =
    let (m, e, l) =
      apply_block-Represents toy disk ⊥ disk-laws json json-laws first (omega arith) disk1 memory1
        first-inserted refl in
    settled e (landed l)

reads-Represents_example :
    Outcome ⊥ (λ x. Memory.get_by_height memory2 0 ≡ ok x) (Chain.get_by_height disk json disk2 0)
    × Outcome ⊥
        (λ x. Memory.get_by_hash memory2 (block_hash toy first) ≡ ok x)
        (Chain.get_by_hash disk json disk2 (block_hash toy first))
    × Outcome ⊥ (λ x. Memory.tip toy memory2 ≡ ok x) (Chain.tip disk json disk2)
    × Outcome ⊥
        (λ x. Memory.get_output memory2 minted ≡ ok x)
        (Outputs.get_output disk json disk2 minted)
    × Outcome ⊥
        (λ x. Memory.get_validator memory2 alice ≡ ok x)
        (Registry.get_validator disk json disk2 alice)
reads-Represents_example =
    reads-Represents toy disk ⊥ disk-laws json json-laws disk2 memory2 first-applied 0
      (block_hash toy first) minted alice (omega arith)

insert-Represents_example :
    (m : MemoryStore) × (Memory.insert_block toy memory2 second ≡ ok m)
    × Leaves ⊥ (λ u. HoldsOn u m) (Chain.insert disk json toy disk2 second)
unfolding tree_last tree_insert
insert-Represents_example =
    insert-Represents toy disk ⊥ disk-laws json disk2 memory2 second first-applied (omega arith)
      refl

abbrev disk3 : SledStore disk
disk3 = (Chain.insert disk json toy disk2 second).0

abbrev memory3 : MemoryStore
memory3 = inserted toy second memory2

second-inserted : HoldsOn disk3 memory3
unfolding Memory.insert_block
second-inserted = let (m, e, l) = insert-Represents_example in settled e (landed l)

apply_block-Represents_example :
    (m : MemoryStore) × (Memory.apply_block toy memory3 second ≡ ok m)
    × Leaves ⊥ (λ u. HoldsOn u m) (Outputs.apply_block disk json toy disk3 second)
unfolding tree_get tree_insert
apply_block-Represents_example =
    apply_block-Represents toy disk ⊥ disk-laws json json-laws second (omega arith) disk3 memory3
      second-inserted refl

abbrev disk4 : SledStore disk
disk4 = (Outputs.apply_block disk json toy disk3 second).0

abbrev memory4 : MemoryStore
memory4 = applied toy second memory3

second-applied : HoldsOn disk4 memory4
unfolding Memory.apply_block
second-applied = let (m, e, l) = apply_block-Represents_example in settled e (landed l)

second-IsNext : IsNext toy second memory2
unfolding tree_get tree_insert tree_last lookup insert bytes_discrete block_hash
    better_call_chain.Core.Crypto.sha256d
second-IsNext = record {
  parent = inr (first, (λ e. absurd (omega (arith, e))), refl, refl);
  no_height = refl;
  no_hash = refl;
}

second-IsNew : IsNew toy second memory2
unfolding better_call_chain.Node.Sled.Undo.AreApart better_call_chain.Prelude.Maps.contains
    better_call_chain.Core.Utxo.consumed created lookup better_call_chain.Core.Utxo.apply_txs
    better_call_chain.Core.Utxo.apply_tx better_call_chain.Core.Utxo.create_all insert
    better_call_chain.Core.Types.out_ref_discrete tx_hash better_call_chain.Core.Crypto.sha256d
    better_call_chain.Core.Utxo.spend_all tree_get tree_insert
second-IsNew = record {
  apart = ((λ r e. refl), (λ r e. refl), tt);
  fresh =
      All-among (λ r. get_utxo r memory2.utxo ≡ none) (created toy second.txs) (refl, (refl, tt));
  unapplied = refl;
}

rollback_block-Represents_example :
    Leaves ⊥ (λ u. HoldsOn u memory2) (Rollback.rollback_block disk json toy disk4 second)
unfolding Memory.insert_block Memory.apply_block
rollback_block-Represents_example =
    rollback_block-Represents toy disk ⊥ disk-laws json json-laws second (omega arith) memory2
      memory3 memory4 disk4 second-IsNext second-IsNew refl refl second-applied

apply_block-IsWhole_example :
    IsWhole disk json toy second disk3 (Outputs.apply_block disk json toy disk3 second).0
apply_block-IsWhole_example = apply_block-IsWhole disk json toy second disk3
