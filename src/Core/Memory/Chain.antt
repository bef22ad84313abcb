-- ===== src/Core/Memory/Chain.antt =====
-- The block part of the store: the tip, the two indexes, and what an overwritten block leaves.
use better_call_chain.Prelude.{
  ℕ, suc, ◌≤◌, ◌<◌, ◌≡◌, refl, ◌≢◌, List, [], ◌∷◌, map, Option, none, some, ok, ◌>>=◌, arith,
  if◌then◌else◌, ◌==◌, leb, Bool-cases, inl, inr,
}
use better_call_chain.Prelude.Maps.{insert, lookup-insert}
use better_call_chain.Prelude.Trees.{
  tree_get, tree_insert, tree_get-insert, tree_insert-IsRising, tree_last-insert, tree_from,
  IsRising, below_start,
}
use better_call_chain.Core.Types.{Block, bytes_discrete}
use better_call_chain.Core.Crypto.{Crypto}
use better_call_chain.Core.Merkle.{block_hash}
use better_call_chain.Core.Memory.{
  MemoryStore, get_by_height, get_by_hash, insert_block, tip, iter_from,
}

-- The table of blocks is in order, and each block stands at its own height.
pub record IsOrdered (s : MemoryStore) : Type 0 where
  pub rising : IsRising 0 s.blocks
  pub placed : (h : ℕ) (b : Block) → tree_get h s.blocks ≡ some b → b.header.height ≡ h

-- No block stands above the height.
abbrev pub Above : ℕ → MemoryStore → Type 0
Above h s = (j : ℕ) → h < j → get_by_height s j ≡ ok none

-- The first block of the list at the height.
pub at_height : ℕ → List Block → Option Block
at_height h [] = none
at_height h (b ∷ bs) = if h == b.header.height then some b else at_height h bs

-- The heights rise along the list, from `lo`.
abbrev pub Ascending : ℕ → List Block → Type 0
Ascending lo [] = Unit
Ascending lo (b ∷ bs) = (lo ≤ b.header.height) × Ascending (suc b.header.height) bs

abbrev Placed : List (ℕ × Block) → Type 0
Placed [] = Unit
Placed ((h, b) ∷ m) = (b.header.height ≡ h) × Placed m

Placed-entries :
    (lo : ℕ) (m : List (ℕ × Block))
    → IsRising lo m
    → ((h : ℕ) (b : Block) → tree_get h m ≡ some b → b.header.height ≡ h)
    → Placed m
unfolding tree_get
Placed-entries lo [] r p = tt
Placed-entries lo ((j, b) ∷ m) r p = (
  p j b (ground arith),
  Placed-entries (suc j) m r.1 (λ h d e. p h d (ground (arith, below_start (suc j) h m r.1))),
)

Ascending-weaken : (lo lo' : ℕ) (bs : List Block) → lo ≤ lo' → Ascending lo' bs → Ascending lo bs
Ascending-weaken lo lo' [] h a = tt
Ascending-weaken lo lo' (b ∷ bs) h a = (omega arith, a.1)

tree_from-Ascending :
    (lo k : ℕ) (m : List (ℕ × Block))
    → IsRising lo m
    → Placed m
    → Ascending lo (map (λ e. e.1) (tree_from k m))
unfolding tree_from
tree_from-Ascending lo k [] r p = tt
tree_from-Ascending lo k ((j, b) ∷ m) r p = elim (Bool-cases (leb k j)) [
  | inl e ↦ rw e (omega (arith, p.0), rw p.0 (tree_from-Ascending (suc j) k m r.1 p.1))
  | inr e ↦
      rw e (Ascending-weaken lo (suc j) _ (omega arith) (tree_from-Ascending (suc j) k m r.1 p.1))
]

at_height-tree_from :
    (h k lo : ℕ) (m : List (ℕ × Block))
    → IsRising lo m
    → Placed m
    → at_height h (map (λ e. e.1) (tree_from k m)) ≡ (if leb k h then tree_get h m else none)
unfolding tree_from tree_get at_height
at_height-tree_from h k lo [] r p = ground arith
at_height-tree_from h k lo ((j, b) ∷ m) r p = ground (arith, at_height-tree_from h k (suc j) m, p.0)

-- `iter_from` lists the blocks from the height on, each once, in ascending order.
pub iter_from_lem :
    (s : MemoryStore) (k : ℕ)
    → IsOrdered s
    → (bs : List Block) × (iter_from s k ≡ ok bs)
      × Ascending 0 bs
      × ((h : ℕ) → (if leb k h then get_by_height s h else ok none) ≡ ok (at_height h bs))
unfolding iter_from get_by_height
iter_from_lem s k o =
    let p = Placed-entries 0 s.blocks o.rising o.placed in
    (
      _,
      refl,
      tree_from-Ascending 0 k s.blocks o.rising p,
      λ h. ground (arith, at_height-tree_from h k 0 s.blocks o.rising p),
    )

module _ (c : Crypto) where
  -- To insert a block keeps the table in order.
  pub insert_block-IsOrdered :
      (s : MemoryStore) (b : Block)
      → IsOrdered s
      → (s' : MemoryStore) × (insert_block c s b ≡ ok s') × IsOrdered s'
  unfolding insert_block
  insert_block-IsOrdered s b o = (
    _,
    refl,
    record {
      rising = tree_insert-IsRising 0 b.header.height b s.blocks (omega arith) o.rising;
      placed = λ h d e. ground (arith, tree_get-insert h b.header.height b s.blocks, o.placed h d);
    },
  )

  -- After a block is inserted above all others, it is found by its height and by its hash, the
  -- blocks at other heights are as they were, and it is the tip.
  pub insert_block-found :
      (s : MemoryStore) (b : Block)
      → IsOrdered s
      → Above b.header.height s
      → (s' : MemoryStore) × (insert_block c s b ≡ ok s')
        × ((h : ℕ)
            → get_by_height s' h
              ≡ (if h == b.header.height then ok (some b) else get_by_height s h))
        × (get_by_hash s' (block_hash c b) ≡ ok (some b))
        × (tip c s' ≡ ok (some (b.header.height, block_hash c b)))
  unfolding insert_block get_by_height get_by_hash tip
  insert_block-found s b o above = (
    _,
    refl,
    λ h. ground (arith, tree_get-insert h b.header.height b s.blocks),
    ground (
      arith,
      lookup-insert bytes_discrete (block_hash c b) (block_hash c b) b.header.height s.index,
      tree_get-insert b.header.height b.header.height b s.blocks,
    ),
    ground (
      arith,
      tree_last-insert 0 b.header.height b s.blocks (omega arith) o.rising
          (λ j h. ground (arith, above j h)),
    ),
  )

  -- A block that is overwritten by another at its height, with another hash, is still in the index:
  -- a search for its hash finds the other block.
  pub get_by_hash_stale :
      (s : MemoryStore) (old b : Block)
      → old.header.height ≡ b.header.height
      → block_hash c old ≢ block_hash c b
      → (s' : MemoryStore) × ((insert_block c s old >>= λ t. insert_block c t b) ≡ ok s')
        × (get_by_hash s' (block_hash c old) ≡ ok (some b))
  unfolding insert_block get_by_hash
  get_by_hash_stale s old b same ne = (
    _,
    refl,
    ground (
      arith,
      lookup-insert bytes_discrete (block_hash c old) (block_hash c b) b.header.height
          (insert bytes_discrete (block_hash c old) old.header.height s.index),
      lookup-insert bytes_discrete (block_hash c old) (block_hash c old) old.header.height s.index,
      tree_get-insert old.header.height b.header.height b
          (tree_insert old.header.height old s.blocks),
    ),
  )
