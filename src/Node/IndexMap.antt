-- ===== src/Node/IndexMap.antt =====
-- The third-party `IndexMap<TxHash, Transaction>` of the mempool: its operations, and what its
-- documentation says of them. The order of `values` after a `swap_remove` is left open.
use better_call_chain.Prelude.{ℕ, suc, ◌≡◌, ite, List, Option, none, some, length, All}
use better_call_chain.Core.Types.{TxHash, Transaction, bytes_discrete}

pub record IndexMap : Type 1 where
  pub Map : Type 0
  pub new : Map
  pub get : TxHash → Map → Option Transaction
  pub insert : TxHash → Transaction → Map → Map
  pub swap_remove : TxHash → Map → Map
  pub len : Map → ℕ
  pub values : Map → List Transaction
  pub get-new : (k : TxHash) → get k new ≡ none
  pub get-insert :
      (j k : TxHash) (v : Transaction) (m : Map)
      → get j (insert k v m) ≡ ite (bytes_discrete j k) (some v) (get j m)
  pub get-swap_remove :
      (j k : TxHash) (m : Map) → get j (swap_remove k m) ≡ ite (bytes_discrete j k) none (get j m)
  pub len-new : len new ≡ 0
  pub len-insert :
      (k : TxHash) (v : Transaction) (m : Map) → get k m ≡ none → len (insert k v m) ≡ suc (len m)
  pub len-swap_remove :
      (k : TxHash) (v : Transaction) (m : Map)
      → get k m ≡ some v
      → suc (len (swap_remove k m)) ≡ len m
  pub length-values : (m : Map) → length (values m) ≡ len m
  pub values_stored : (m : Map) → All (λ tx. (k : TxHash) × (get k m ≡ some tx)) (values m)
