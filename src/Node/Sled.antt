-- ===== src/Node/Sled.antt =====
-- crates/bcc-node/src/storage/sled_store.rs: `SledStore`, its keys and its encoding. The database
-- `sled` and `serde_json` are parameters.
pub mod Keys
pub mod Outcomes
pub mod Effects
pub mod Frame
pub mod Represents
pub mod Atomic
pub mod Writes
pub mod Restore
pub mod Undo
pub mod Reverts
pub mod Removes
pub mod Inserts
pub mod Chain
pub mod Outputs
pub mod Rollback
pub mod Registry
use better_call_chain.Prelude.{
  ℕ, ◌≡◌, Bool, true, false, List, [], ◌∷◌, reverse, Option, none, some, Result, ok, err, ok_or,
  map_err, length, ◌==◌, if◌then◌else◌, ite,
}
use better_call_chain.Core.Types.{
  Bytes, BlockHash, Address, TxOutRef, TxOutput, Block, Validator, StoreError, backend,
  bytes_discrete,
}
use better_call_chain.Core.Election.{le_bytes, of_le_bytes}
use better_call_chain.Core.Memory.{StoreResult}

-- `sled::Error` and the errors of a transaction; their text is left out.
pub data SledError : Type 0 where
  sled : SledError

-- What the program calls of `sled`. A write returns the tree that it leaves behind, also when it
-- fails; a write of a transaction returns the staged tree. `commit` ends a transaction: it has the
-- trees as they were and as they are staged.
pub record Sled : Type 1 where
  pub Tree : Type 0
  pub get : Tree → Bytes → Result SledError (Option Bytes)
  pub insert : Tree → Bytes → Bytes → Tree × Result SledError (Unit {0})
  pub remove : Tree → Bytes → Tree × Result SledError (Unit {0})
  pub iter : Tree → List (Result SledError (Bytes × Bytes))
  pub range_from : Tree → Bytes → List (Result SledError (Bytes × Bytes))
  pub staged_get : Tree → Bytes → Result SledError (Option Bytes)
  pub staged_insert : Tree → Bytes → Bytes → Result SledError Tree
  pub staged_remove : Tree → Bytes → Result SledError Tree
  pub commit : List Tree → List Tree → Result SledError (Unit {0})

-- What holds of an answer, and what is known when there is none.
pub data Outcome {E A : Type 0} (Failed : Type 0) (P : A → Type 0) : Result E A → Type 0 where
  failing : {e : E} → Failed → Outcome Failed P (err e)
  holding : {a : A} → P a → Outcome Failed P (ok a)

-- What `sled` documents: an operation that succeeds reads or changes the one key, and a transaction
-- reads its own writes. `find` is the content of a tree and `Failed` what a failure tells: it is
-- empty for a database on which no operation fails.
pub record SledLaws (d : Sled) (Failed : Type 0) : Type 0 where
  pub find : d.Tree → Bytes → Option Bytes
  pub get_lem : (t : d.Tree) (k : Bytes) → Outcome Failed (λ o. o ≡ find t k) (d.get t k)
  pub insert_lem :
      (t : d.Tree) (k v : Bytes)
      → Outcome Failed
          (λ _.
            (i : Bytes) → find (d.insert t k v).0 i ≡ ite (bytes_discrete i k) (some v) (find t i))
          (d.insert t k v).1
  pub remove_lem :
      (t : d.Tree) (k : Bytes)
      → Outcome Failed
          (λ _. (i : Bytes) → find (d.remove t k).0 i ≡ ite (bytes_discrete i k) none (find t i))
          (d.remove t k).1
  pub staged_get_lem :
      (t : d.Tree) (k : Bytes) → Outcome Failed (λ o. o ≡ find t k) (d.staged_get t k)
  pub staged_insert_lem :
      (t : d.Tree) (k v : Bytes)
      → Outcome Failed
          (λ t'. (i : Bytes) → find t' i ≡ ite (bytes_discrete i k) (some v) (find t i))
          (d.staged_insert t k v)
  pub staged_remove_lem :
      (t : d.Tree) (k : Bytes)
      → Outcome Failed
          (λ t'. (i : Bytes) → find t' i ≡ ite (bytes_discrete i k) none (find t i))
          (d.staged_remove t k)
  pub commit_lem : (ts us : List d.Tree) → Outcome Failed (λ _. Unit {0}) (d.commit ts us)

-- `serde_json::to_vec` and `serde_json::from_slice` at one type. The types that the store writes
-- are structs, enums and sequences of numbers and texts, on which `to_vec` does not fail.
pub record Codec (A : Type 0) : Type 0 where
  pub to_vec : A → Bytes
  pub from_slice : Bytes → Option A

-- What is written is read back.
abbrev pub IsRoundTrip : {A : Type 0} → Codec A → Type 0
IsRoundTrip {A = A} k = (a : A) → k.from_slice (k.to_vec a) ≡ some a

-- The types that the store writes.
pub record Json : Type 0 where
  pub block : Codec Block
  pub tip : Codec (ℕ × BlockHash)
  pub out_ref : Codec TxOutRef
  pub output : Codec TxOutput
  pub validator : Codec Validator

pub record JsonLaws (j : Json) : Type 0 where
  pub block_lem : IsRoundTrip j.block
  pub tip_lem : IsRoundTrip j.tip
  pub out_ref_lem : IsRoundTrip j.out_ref
  pub output_lem : IsRoundTrip j.output
  pub validator_lem : IsRoundTrip j.validator

-- `SledStore`, without the handle of the database.
pub record SledStore (d : Sled) : Type 0 where
  pub blocks_h : d.Tree
  pub blocks_idx : d.Tree
  pub utxo : d.Tree
  pub validators : d.Tree
  pub meta : d.Tree
  pub spent_h : d.Tree

-- `b"tip"` and `b"apply_in_progress"`.
abbrev pub meta_tip : Bytes
meta_tip = b't' ∷ b'i' ∷ b'p' ∷ []

abbrev pub meta_apply_in_progress : Bytes
meta_apply_in_progress =
    b'a' ∷ b'p' ∷ b'p' ∷ b'l' ∷ b'y' ∷ b'_' ∷ b'i' ∷ b'n' ∷ b'_' ∷ b'p' ∷ b'r' ∷ b'o' ∷ b'g' ∷ b'r'
    ∷ b'e' ∷ b's' ∷ b's' ∷ []

-- `height.to_be_bytes()`, and `u64::from_be_bytes` of what `try_into` accepts as `[u8; 8]`.
unfoldable pub height_key : ℕ → Bytes
height_key height = reverse (le_bytes 8 height)

unfoldable pub from_height_key : Bytes → StoreResult ℕ
from_height_key b = if length b == 8 then ok (of_le_bytes (reverse b)) else err backend

abbrev pub encode : {A : Type 0} → Codec A → A → StoreResult Bytes
encode k a = ok (k.to_vec a)

unfoldable pub decode : {A : Type 0} → Codec A → Bytes → StoreResult A
decode k b = ok_or (k.from_slice b) backend

-- `StoreError::Backend(e.to_string())`
abbrev pub failed : {A : Type 0} → Result SledError A → StoreResult A
failed r = map_err (λ _. backend) r

-- The `match` on what a tree has for a key: the bytes are decoded if there are some.
unfoldable pub decode_found :
    {A : Type 0} → Codec A → Result SledError (Option Bytes) → StoreResult (Option A)
decode_found k (err e) = err backend
decode_found k (ok none) = ok none
decode_found k (ok (some bytes)) = elim (decode k bytes) [ err e ↦ err e | ok a ↦ ok (some a) ]

-- `(trees).transaction(f)`: the staged trees are kept if the body and the commit succeed.
unfoldable pub committed :
    {T : Type 0} → T → T → Result SledError (Unit {0}) → T × StoreResult (Unit {0})
committed before after (err e) = (before, err backend)
committed before after (ok _) = (after, ok tt)

unfoldable pub transaction :
    (d : Sled) {T : Type 0}
    → (T → List d.Tree)
    → T
    → Result SledError T
    → T × StoreResult (Unit {0})
transaction d trees before (err e) = (before, err backend)
transaction d trees before (ok after) =
    committed before after (d.commit (trees before) (trees after))

-- `self.meta.contains_key(META_APPLY_IN_PROGRESS).unwrap_or(false)`; `contains_key` is a `get`.
unfoldable pub apply_in_progress_flag : (d : Sled) → SledStore d → Bool
apply_in_progress_flag d s = elim (d.get s.meta meta_apply_in_progress) [
  | err e ↦ false
  | ok none ↦ false
  | ok (some _) ↦ true
]
