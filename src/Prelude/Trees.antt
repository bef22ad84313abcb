-- ===== src/Prelude/Trees.antt =====
-- `BTreeMap` of the standard library with numbers for keys: an association list in rising order.
use Prim.Native.Nat.{ℕ, suc, ◌≤◌, ◌<◌}
use mathlib.Core.List.{List, [], ◌∷◌}
use mathlib.Core.Option.{Option, none, some}
use mathlib.Core.Path.{◌≡◌, refl}
use native.Mathlib.Omega.{arith}
use better_call_chain.Prelude.Tests.{ltb, leb, ◌==◌, if◌then◌else◌}

module _ {V : Type 0} where
  -- `map.insert(k, v)`
  unfoldable pub tree_insert : ℕ → V → List (ℕ × V) → List (ℕ × V)
  tree_insert k v [] = (k, v) ∷ []
  tree_insert k v ((j, w) ∷ m) =
      if ltb k j
      then (k, v) ∷ (j, w) ∷ m
      else if k == j
      then (k, v) ∷ m
      else (j, w) ∷ tree_insert k v m

  -- `map.remove(k)`
  unfoldable pub tree_remove : ℕ → List (ℕ × V) → List (ℕ × V)
  tree_remove k [] = []
  tree_remove k ((j, w) ∷ m) = if k == j then tree_remove k m else (j, w) ∷ tree_remove k m

  -- `map.get(k)`
  unfoldable pub tree_get : ℕ → List (ℕ × V) → Option V
  tree_get k [] = none
  tree_get k ((j, w) ∷ m) = if k == j then some w else tree_get k m

  -- `map.iter().next_back()`
  unfoldable pub tree_last : List (ℕ × V) → Option (ℕ × V)
  tree_last [] = none
  tree_last (e ∷ []) = some e
  tree_last (e ∷ f ∷ m) = tree_last (f ∷ m)

  -- `map.range(k..)`
  unfoldable pub tree_from : ℕ → List (ℕ × V) → List (ℕ × V)
  tree_from k [] = []
  tree_from k ((j, w) ∷ m) = if leb k j then (j, w) ∷ tree_from k m else tree_from k m

  -- The keys rise, from above `lo`.
  abbrev pub IsRising : ℕ → List (ℕ × V) → Type 0
  IsRising lo [] = Unit
  IsRising lo ((j, w) ∷ m) = (lo ≤ j) × IsRising (suc j) m

  pub tree_get-insert :
      (j k : ℕ) (v : V) (m : List (ℕ × V))
      → tree_get j (tree_insert k v m) ≡ (if j == k then some v else tree_get j m)
  unfolding tree_insert tree_get
  tree_get-insert j k v [] = ground arith
  tree_get-insert j k v ((i, w) ∷ m) = ground (arith, tree_get-insert j k v m)

  pub tree_get-remove :
      (j k : ℕ) (m : List (ℕ × V))
      → tree_get j (tree_remove k m) ≡ (if j == k then none else tree_get j m)
  unfolding tree_remove tree_get
  tree_get-remove j k [] = ground arith
  tree_get-remove j k ((i, w) ∷ m) = ground (arith, tree_get-remove j k m)

  pub tree_insert-IsRising :
      (lo k : ℕ) (v : V) (m : List (ℕ × V))
      → lo ≤ k
      → IsRising lo m
      → IsRising lo (tree_insert k v m)
  unfolding tree_insert
  tree_insert-IsRising lo k v [] h r = (h, tt)
  tree_insert-IsRising lo k v ((j, w) ∷ m) h r = ground (arith, tree_insert-IsRising (suc j) k v m)

  -- No key stands below the start.
  pub below_start : (lo j : ℕ) (m : List (ℕ × V)) → IsRising lo m → j < lo → tree_get j m ≡ none
  unfolding tree_get
  below_start lo j [] r h = refl
  below_start lo j ((i, w) ∷ m) r h = ground (arith, below_start (suc i) j m r.1)

  -- The entry `k` with `v` is the last one.
  abbrev pub IsLast : ℕ → V → List (ℕ × V) → Type 0
  IsLast k v m = (tree_get k m ≡ some v) × ((j : ℕ) → k < j → tree_get j m ≡ none)

  pub tree_last-IsLast :
      (lo k : ℕ) (v : V) (m : List (ℕ × V))
      → IsRising lo m
      → tree_last m ≡ some (k, v)
      → IsLast k v m
  unfolding tree_last tree_get
  tree_last-IsLast lo k v [] r e = absurd (cc)
  tree_last-IsLast lo k v ((i, w) ∷ []) r e = (ground arith, λ j h. ground arith)
  tree_last-IsLast lo k v ((i, w) ∷ (j, u) ∷ m) r e =
      let (here, above) = tree_last-IsLast (suc i) k v ((j, u) ∷ m) r.1 e in
      (
        ground (arith, below_start (suc i) k ((j, u) ∷ m) r.1),
        λ l h. ground (arith, above l, below_start (suc i) k ((j, u) ∷ m) r.1),
      )

  pub IsLast-tree_last :
      (lo k : ℕ) (v : V) (m : List (ℕ × V))
      → IsRising lo m
      → IsLast k v m
      → tree_last m ≡ some (k, v)
  unfolding tree_last tree_get
  IsLast-tree_last lo k v [] r l = absurd (cc (l.0))
  IsLast-tree_last lo k v ((i, w) ∷ []) r l = ground (arith, l.0)
  IsLast-tree_last lo k v ((i, w) ∷ (j, u) ∷ m) r l =
      IsLast-tree_last (suc i) k v ((j, u) ∷ m) r.1 (
        ground (arith, l.0, l.1 j),
        λ n h. ground (arith, l.1 n, below_start (suc i) k ((j, u) ∷ m) r.1),
      )

  -- An entry above all others becomes the last one.
  pub tree_last-insert :
      (lo k : ℕ) (v : V) (m : List (ℕ × V))
      → lo ≤ k
      → IsRising lo m
      → ((j : ℕ) → k < j → tree_get j m ≡ none)
      → tree_last (tree_insert k v m) ≡ some (k, v)
  tree_last-insert lo k v m le r above =
      IsLast-tree_last lo k v _ (tree_insert-IsRising lo k v m le r) (
        ground (arith, tree_get-insert k k v m),
        λ j h. ground (arith, tree_get-insert j k v m, above j),
      )
