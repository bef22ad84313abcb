-- ===== src/Core/Memory.antt =====
-- crates/bcc-core/src/store/memory.rs: `MemoryStore` behind its locks. A lock is poisoned only after
-- a panic in another thread, so `lock_err` is not raised and every operation answers.
pub mod Chain
pub mod Ledger
pub mod Inflation
pub mod Validators
use better_call_chain.Prelude.{
  ℕ, ◌+◌, ◌%◌, Bool, true, false, ◌&&◌, List, [], ◌∷◌, ◌++◌, map, Option, none, some, Result, ok,
  err, ensure, ◌>>=◌, ◌>>◌, ltb, leb, ◌==◌, if◌then◌else◌, ite, length,
}
use mathlib.Core.List.{lookup}
use better_call_chain.Prelude.Maps.{insert, remove}
use better_call_chain.Prelude.Trees.{tree_insert, tree_get, tree_last, tree_from, tree_remove}
use better_call_chain.Prelude.Words.{sum_u64}
use better_call_chain.Core.Types.{
  Bytes, BlockHash, Address, TxOutRef, TxOutput, Transaction, Block, Validator, StoreError, backend,
  address_discrete, bytes_discrete,
}
use better_call_chain.Core.Crypto.{Crypto}
use better_call_chain.Core.Address.{from_pubkey_bytes}
use better_call_chain.Core.Merkle.{block_hash}
use better_call_chain.Core.Validation.Transactions.{amounts}
use better_call_chain.Core.Utxo.{UtxoMap, Tables, get_utxo, apply_txs, rollback_txs}

pub record MemoryStore : Type 0 where
  pub blocks : List (ℕ × Block)
  pub index : List (BlockHash × ℕ)
  pub utxo : UtxoMap
  pub spent : List (ℕ × UtxoMap)
  pub validators : List (Address × Validator)

-- `MemoryStore::new`
abbrev pub new : MemoryStore
new = record { blocks = []; index = []; utxo = []; spent = []; validators = [] }

abbrev pub StoreResult : Type 0 → Type 0
StoreResult = Result StoreError

-- `index.get(hash).and_then(|h| blocks.get(h))`
abbrev pub and_then : {A B : Type 0} → Option A → (A → Option B) → Option B
and_then none f = none
and_then (some a) f = f a

-- BlockStore
unfoldable pub get_by_height : MemoryStore → ℕ → StoreResult (Option Block)
get_by_height s height = ok (tree_get height s.blocks)

unfoldable pub get_by_hash : MemoryStore → BlockHash → StoreResult (Option Block)
get_by_hash s hash = ok (and_then (lookup bytes_discrete hash s.index) (λ h. tree_get h s.blocks))

unfoldable pub iter_from : MemoryStore → ℕ → StoreResult (List Block)
iter_from s height = ok (map (λ e. e.1) (tree_from height s.blocks))

-- UtxoStore
unfoldable pub get_output : MemoryStore → TxOutRef → StoreResult (Option TxOutput)
get_output s r = ok (get_utxo r s.utxo)

-- `.filter(|o| &o.address == address)`
unfoldable pub owned_by : Address → UtxoMap → UtxoMap
owned_by a [] = []
owned_by a ((r, o) ∷ m) = ite (address_discrete o.address a) ((r, o) ∷ owned_by a m) (owned_by a m)

unfoldable pub balance : MemoryStore → Address → StoreResult ℕ
balance s a = ok (sum_u64 (amounts (map (λ e. e.1) (owned_by a s.utxo))))

unfoldable pub list_utxos : MemoryStore → Address → StoreResult (List (TxOutRef × TxOutput))
list_utxos s a = ok (owned_by a s.utxo)

-- ValidatorStore
unfoldable pub get_validator : MemoryStore → Address → StoreResult (Option Validator)
get_validator s a = ok (lookup address_discrete a s.validators)

-- The order of `str::cmp`: bytewise, a prefix first.
unfoldable pub ltb_bytes : Bytes → Bytes → Bool
ltb_bytes [] [] = false
ltb_bytes [] (y ∷ t) = true
ltb_bytes (x ∷ s) [] = false
ltb_bytes (x ∷ s) (y ∷ t) = if ltb x y then true else if x == y then ltb_bytes s t else false

-- `.filter(|v| v.active_since <= slot && v.stake > 0)`
unfoldable pub eligible : ℕ → List (Address × Validator) → List Validator
eligible slot [] = []
eligible slot ((a, v) ∷ m) =
    if leb v.active_since slot && ltb 0 v.stake then v ∷ eligible slot m else eligible slot m

-- `sort_unstable_by(|a, b| a.address.cmp(b.address))`; which order two equal addresses get is open,
-- and the keys of the map are distinct.
unfoldable pub sort_in : Validator → List Validator → List Validator
sort_in v [] = v ∷ []
sort_in v (w ∷ vs) =
    if ltb_bytes w.address.text v.address.text then w ∷ sort_in v vs else v ∷ w ∷ vs

unfoldable pub sort_by_address : List Validator → List Validator
sort_by_address [] = []
sort_by_address (v ∷ vs) = sort_in v (sort_by_address vs)

unfoldable pub all_active : MemoryStore → ℕ → StoreResult (List Validator)
all_active s slot = ok (sort_by_address (eligible slot s.validators))

-- `spent.remove(&height)`: a missing entry restores nothing.
abbrev pub spent_at : ℕ → List (ℕ × UtxoMap) → UtxoMap
spent_at height m = elim (tree_get height m) [ none ↦ [] | some l ↦ l ]

module _ (c : Crypto) where
  unfoldable pub insert_block : MemoryStore → Block → StoreResult MemoryStore
  insert_block s block = ok (record s {
    blocks = tree_insert block.header.height block s.blocks;
    index = insert bytes_discrete (block_hash c block) block.header.height s.index;
  })

  unfoldable pub tip : MemoryStore → StoreResult (Option (ℕ × BlockHash))
  tip s = ok (elim (tree_last s.blocks) [ none ↦ none | some (h, b) ↦ some (h, block_hash c b) ])

  unfoldable pub apply_block : MemoryStore → Block → StoreResult MemoryStore
  apply_block s block =
      let t = apply_txs c block.txs (record { utxo = s.utxo; spent = [] }) in
      ok (record s { utxo = t.utxo; spent = tree_insert block.header.height t.spent s.spent })

  unfoldable pub rollback_block : MemoryStore → Block → StoreResult MemoryStore
  rollback_block s block = ok (record s {
    utxo = rollback_txs c block.txs (spent_at block.header.height s.spent) s.utxo;
    spent = tree_remove block.header.height s.spent;
  })

  unfoldable pub upsert : MemoryStore → Validator → StoreResult MemoryStore
  upsert s v = do
    ensure (address_discrete v.address (from_pubkey_bytes c v.pubkey)) backend
    ok (record s { validators = insert address_discrete v.address v s.validators })
