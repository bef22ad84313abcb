-- ===== src/Node/Sled/Represents.antt =====
-- When a `SledStore` holds what a `MemoryStore` has, and that its queries then answer the same.
use better_call_chain.Prelude.{ℕ, ◌<◌, ◌≡◌, refl, Option, none, some, Result, ok, arith}
use better_call_chain.Prelude.Words.{u64_mod}
use better_call_chain.Prelude.Trees.{tree_get, tree_last}
use mathlib.Core.List.{lookup}
use better_call_chain.Core.Types.{
  Bytes, BlockHash, Address, TxOutRef, Block, address_discrete, bytes_discrete,
}
use better_call_chain.Core.Crypto.{Crypto}
use better_call_chain.Core.Merkle.{block_hash}
use better_call_chain.Core.Utxo.{get_utxo}
use better_call_chain.Core.Utxo.Rollback.{last_of}
use better_call_chain.Core.Memory.{MemoryStore, StoreResult, spent_at}
use better_call_chain.Core.Memory
use better_call_chain.Node.Sled.{
  Sled, SledError, SledLaws, SledStore, Json, JsonLaws, Codec, IsRoundTrip, Outcome, failing,
  holding, height_key, from_height_key, meta_tip, decode, decode_found,
}
use better_call_chain.Node.Sled.Keys.{from_height_key-height_key}
use better_call_chain.Node.Sled.Effects.{as_bytes}
use better_call_chain.Node.Sled.Outputs.{spent_key, get_output}
use better_call_chain.Node.Sled.Chain.{get_by_height, get_by_hash, block_at, tip}
use better_call_chain.Node.Sled.Registry.{get_validator}

abbrev pub as_height : Option ℕ → Option Bytes
as_height none = none
as_height (some h) = some (height_key h)

-- `BTreeMap::iter().next_back()` as the entry of the tip.
abbrev pub tip_of : Crypto → MemoryStore → Option (ℕ × BlockHash)
tip_of c m = elim (tree_last m.blocks) [ none ↦ none | some (h, b) ↦ some (h, block_hash c b) ]

module _ (c : Crypto) (d : Sled) (Failed : Type 0) (laws : SledLaws d Failed) (j : Json) where
  pub record Represents (s : SledStore d) (m : MemoryStore) : Type 0 where
    pub by_height :
        (h : ℕ)
        → h < u64_mod
        → laws.find s.blocks_h (height_key h) ≡ as_bytes j.block (tree_get h m.blocks)
    pub by_hash :
        (hash : BlockHash)
        → laws.find s.blocks_idx hash ≡ as_height (lookup bytes_discrete hash m.index)
    pub heights :
        (hash : BlockHash) (h : ℕ) → lookup bytes_discrete hash m.index ≡ some h → h < u64_mod
    pub last : laws.find s.meta meta_tip ≡ as_bytes j.tip (tip_of c m)
    pub unspent :
        (r : TxOutRef)
        → laws.find s.utxo (j.out_ref.to_vec r) ≡ as_bytes j.output (get_utxo r m.utxo)
    pub kept :
        (h : ℕ) (r : TxOutRef)
        → h < u64_mod
        → laws.find s.spent_h (spent_key j h r) ≡ as_bytes j.output (last_of r (spent_at h m.spent))
    pub registered :
        (a : Address)
        → laws.find s.validators a.text
          ≡ as_bytes j.validator (lookup address_discrete a m.validators)

decode_found_lem :
    {A : Type 0} {F : Type 0} (k : Codec A) (law : IsRoundTrip k) (o : Option A) {b : Option Bytes}
    {r : Result SledError (Option Bytes)}
    → Outcome F (λ x. x ≡ b) r
    → b ≡ as_bytes k o
    → Outcome F (λ x. ◌≡◌ {A = StoreResult (Option A)} (ok o) (ok x)) (decode_found k r)
unfolding decode_found decode
decode_found_lem k law o (failing x) e = failing x
decode_found_lem k law none (holding {a = none} f) e = holding refl
decode_found_lem k law none (holding {a = some v} f) e = absurd (cc (f, e))
decode_found_lem k law (some o) (holding {a = none} f) e = absurd (cc (f, e))
decode_found_lem k law (some o) (holding {a = some v} f) e =
    let read : k.from_slice v ≡ some o = ground (arith, f, e, law o) in
    rw (read, decode_found, decode) (holding refl)

module _ (c : Crypto) (d : Sled) (Failed : Type 0) (laws : SledLaws d Failed) (j : Json)
    (jl : JsonLaws j) (s : SledStore d) (m : MemoryStore)
    (rep : Represents c d Failed laws j s m) where
  pub get_by_height-Represents :
      (h : ℕ)
      → h < u64_mod
      → Outcome Failed (λ x. Memory.get_by_height m h ≡ ok x) (get_by_height d j s h)
  unfolding get_by_height Memory.get_by_height
  get_by_height-Represents h small =
      decode_found_lem j.block jl.block_lem (tree_get h m.blocks)
        (laws.get_lem s.blocks_h (height_key h)) (rep.by_height h small)

  block_at-Represents :
      (hash : BlockHash) (entry : Option ℕ)
      → lookup bytes_discrete hash m.index ≡ entry
      → {r : Result SledError (Option Bytes)}
      → Outcome Failed (λ x. x ≡ laws.find s.blocks_idx hash) r
      → Outcome Failed
          (λ x.
            ◌≡◌ {A = StoreResult (Option Block)}
              (ok (Memory.and_then entry (λ h. tree_get h m.blocks)))
              (ok x))
          (block_at d j s r)
  unfolding block_at Memory.get_by_height
  block_at-Represents hash entry e (failing x) = failing x
  block_at-Represents hash none e (holding {a = none} f) = holding refl
  block_at-Represents hash none e (holding {a = some v} f) = absurd (cc (f, e, rep.by_hash hash))
  block_at-Represents hash (some h) e (holding {a = none} f) = absurd (cc (f, e, rep.by_hash hash))
  block_at-Represents hash (some h) e (holding {a = some v} f) =
      let small = rep.heights hash h e in
      let read : from_height_key v ≡ ok h =
        ground (arith, f, e, rep.by_hash hash, from_height_key-height_key h small) in
      rw read (get_by_height-Represents h small)

  get_by_hash-Represents :
      (hash : BlockHash)
      → Outcome Failed (λ x. Memory.get_by_hash m hash ≡ ok x) (get_by_hash d j s hash)
  unfolding get_by_hash Memory.get_by_hash
  get_by_hash-Represents hash =
      block_at-Represents hash (lookup bytes_discrete hash m.index) refl
        (laws.get_lem s.blocks_idx hash)

  -- The queries of single entries answer as those of the memory store, for a height below 2^64, or
  -- an operation of the database failed.
  pub reads-Represents :
      (h : ℕ) (hash : BlockHash) (r : TxOutRef) (a : Address)
      → h < u64_mod
      → Outcome Failed (λ x. Memory.get_by_height m h ≡ ok x) (get_by_height d j s h)
        × Outcome Failed (λ x. Memory.get_by_hash m hash ≡ ok x) (get_by_hash d j s hash)
        × Outcome Failed (λ x. Memory.tip c m ≡ ok x) (tip d j s)
        × Outcome Failed (λ x. Memory.get_output m r ≡ ok x) (get_output d j s r)
        × Outcome Failed (λ x. Memory.get_validator m a ≡ ok x) (get_validator d j s a)
  unfolding tip Memory.tip get_output Memory.get_output get_validator Memory.get_validator
  reads-Represents h hash r a small = (
    get_by_height-Represents h small,
    get_by_hash-Represents hash,
    decode_found_lem j.tip jl.tip_lem (tip_of c m) (laws.get_lem s.meta meta_tip) rep.last,
    decode_found_lem j.output jl.output_lem (get_utxo r m.utxo)
        (laws.get_lem s.utxo (j.out_ref.to_vec r)) (rep.unspent r),
    decode_found_lem j.validator jl.validator_lem (lookup address_discrete a m.validators)
        (laws.get_lem s.validators a.text) (rep.registered a),
  )
