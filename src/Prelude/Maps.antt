-- ===== src/Prelude/Maps.antt =====
-- `HashMap` and `HashSet` of the standard library as association lists and lists. The order in
-- which a `HashMap` is walked is left open by its documentation; here a new entry comes first.
use mathlib.Core.Bool.{Bool, false, not, ◌&&◌, ◌||◌}
use mathlib.Core.List.{List, [], ◌∷◌, lookup}
use mathlib.Core.Logic.{ite, if_pos, if_neg}
use mathlib.Core.Option.{none, some}
use mathlib.Core.Path.{◌≡◌}
use native.Mathlib.Omega.{arith}
use better_call_chain.Prelude.Lists.{All, All-map}
use better_call_chain.Prelude.Tests.{test}

module _ {ℓ} {K V : Type ℓ} (dec : Discrete K) where
  -- `map.remove(k)`, its effect.
  unfoldable pub remove : K → List (K × V) → List (K × V)
  remove k [] = []
  remove k (e ∷ m) = ite (dec e.0 k) (remove k m) (e ∷ remove k m)

  -- `map.insert(k, v)`
  unfoldable pub insert : K → V → List (K × V) → List (K × V)
  unfolding remove
  insert k v m = (k, v) ∷ remove k m

  pub lookup-remove :
      (j k : K) (m : List (K × V)) → lookup dec j (remove k m) ≡ ite (dec j k) none (lookup dec j m)
  unfolding lookup remove
  lookup-remove j k [] = ground arith
  lookup-remove j k (e ∷ m) = ground (arith, lookup-remove j k m)

  pub lookup-insert :
      (j k : K) (v : V) (m : List (K × V))
      → lookup dec j (insert k v m) ≡ ite (dec j k) (some v) (lookup dec j m)
  unfolding lookup insert
  lookup-insert j k v m = ground (arith, lookup-remove j k m)

  -- No key stands twice in the list.
  abbrev pub DistinctKeys : List (K × V) → Type ℓ
  DistinctKeys [] = Unit
  DistinctKeys ((k, v) ∷ m) = (lookup dec k m ≡ none) × DistinctKeys m

  pub DistinctKeys-remove : (k : K) (m : List (K × V)) → DistinctKeys m → DistinctKeys (remove k m)
  unfolding remove
  DistinctKeys-remove k [] d = d
  DistinctKeys-remove k ((j, v) ∷ m) d = elim (dec j k) [
    | yes p ↦ rw (if_pos _ p) (DistinctKeys-remove k m d.1)
    | no p ↦ rw (if_neg _ p) (ground (arith, d.0, lookup-remove j k m), DistinctKeys-remove k m d.1)
  ]

  pub DistinctKeys-insert :
      (k : K) (v : V) (m : List (K × V)) → DistinctKeys m → DistinctKeys (insert k v m)
  unfolding insert
  DistinctKeys-insert k v m d = (ground (arith, lookup-remove k k m), DistinctKeys-remove k m d)

  -- With distinct keys a lookup finds each entry of the list.
  pub lookup_entries :
      (m : List (K × V)) → DistinctKeys m → All (λ e. lookup dec e.0 m ≡ some e.1) m
  unfolding lookup
  lookup_entries [] d = tt
  lookup_entries ((k, v) ∷ m) d =
      (ground arith, All-map (λ e h. ground (arith, d.0, h)) m (lookup_entries m d.1))

module _ {ℓ} {K : Type ℓ} (dec : Discrete K) where
  -- `set.contains(k)`
  unfoldable pub contains : K → List K → Bool
  contains k [] = false
  contains k (x ∷ s) = test (dec k x) || contains k s

  -- `set.remove(k)`
  unfoldable pub delete : K → List K → List K
  delete k [] = []
  delete k (x ∷ s) = ite (dec x k) (delete k s) (x ∷ delete k s)

  -- `set.insert(k)`
  unfoldable pub add : K → List K → List K
  unfolding delete
  add k s = k ∷ delete k s

  pub contains-delete :
      (j k : K) (s : List K) → contains j (delete k s) ≡ not (test (dec j k)) && contains j s
  unfolding contains delete
  contains-delete j k [] = ground arith
  contains-delete j k (x ∷ s) = ground (arith, contains-delete j k s)

  pub contains-add : (j k : K) (s : List K) → contains j (add k s) ≡ test (dec j k) || contains j s
  unfolding contains add
  contains-add j k s = ground (arith, contains-delete j k s)
