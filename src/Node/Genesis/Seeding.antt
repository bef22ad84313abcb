-- ===== src/Node/Genesis/Seeding.antt =====
-- `apply_genesis` over the memory store writes at most once.
use better_call_chain.Prelude.{
  ◌≡◌, refl, ap, ◌∙◌, ◌⊎◌, inl, inr, List, [], ◌∷◌, some, ok, Result-cases, Option-cases, arith,
}
use better_call_chain.Prelude.Trees.{tree_get, tree_get-insert}
use better_call_chain.Core.Types.{Bytes, Block, Validator}
use better_call_chain.Prelude.{Bool}
use better_call_chain.Core.Crypto.{Crypto}
use better_call_chain.Core.Memory.{MemoryStore, get_by_height, insert_block, apply_block, upsert}
use better_call_chain.Node.State.{memory}
use better_call_chain.Node.Genesis.{
  GenesisConfig, GenesisValidator, alloc_txs, build_genesis_block, validator_of, register, seed,
  allocate, apply_genesis,
}

module _ (c : Crypto) (key_ok : Bytes → Bool) where
  upsert-blocks : (s t : MemoryStore) (v : Validator) → upsert c s v ≡ ok t → t.blocks ≡ s.blocks
  unfolding upsert
  upsert-blocks s t v e = ground arith

  register-blocks :
      (entries : List GenesisValidator) (s : MemoryStore)
      → (register c key_ok (memory c) entries s).0.blocks ≡ s.blocks
  unfolding register
  register-blocks [] s = refl
  register-blocks (entry ∷ entries) s = elim (Result-cases (validator_of c key_ok entry)) [
    | inr (e, q) ↦ rw (q, register) refl
    | inl (v, q) ↦
        rw (q, register)
          (elim (Result-cases (upsert c s v)) [
            | inl (t, p) ↦ rw p (register-blocks entries t ∙ upsert-blocks s t v p)
            | inr (e, p) ↦ rw p refl
          ])
  ]

  -- A store with a block at height 0 is left alone.
  apply_genesis-again :
      (cfg : GenesisConfig) (s : MemoryStore) (b : Block)
      → tree_get 0 s.blocks ≡ some b
      → apply_genesis c key_ok (memory c) cfg s ≡ (s, ok tt)
  unfolding apply_genesis get_by_height
  apply_genesis-again cfg s b e = rw (e, apply_genesis) refl

  seed-stored :
      (cfg : GenesisConfig) (b : Block) (s : MemoryStore)
      → b.header.height ≡ 0
      → tree_get 0 (seed c key_ok (memory c) cfg b s).0.blocks ≡ some b
  unfolding seed insert_block apply_block
  seed-stored cfg b s z =
      ap (tree_get 0) (register-blocks cfg.validators _)
      ∙ ground (arith, z, tree_get-insert 0 b.header.height b s.blocks)

  -- What it leaves: the store as it was, or one with a block at height 0.
  apply_genesis-stored :
      (cfg : GenesisConfig) (s : MemoryStore)
      → let t = (apply_genesis c key_ok (memory c) cfg s).0 in
        (t ≡ s) ⊎ ((b : Block) × (tree_get 0 t.blocks ≡ some b))
  unfolding apply_genesis get_by_height allocate build_genesis_block
  apply_genesis-stored cfg s = elim (Option-cases (tree_get 0 s.blocks)) [
    | inr (b, q) ↦ rw (q, apply_genesis) (inl refl)
    | inl q ↦
        rw (q, apply_genesis)
          (elim (Result-cases (alloc_txs cfg.accounts)) [
            | inr (e, p) ↦ rw (p, allocate) (inl refl)
            | inl (txs, p) ↦
                rw (p, allocate)
                  (inr (
                    build_genesis_block c key_ok cfg.timestamp txs,
                    seed-stored cfg (build_genesis_block c key_ok cfg.timestamp txs) s refl,
                  ))
          ])
  ]

  -- Whatever `apply_genesis` answers over the memory store, either it has left the store as it was,
  -- or to call it on what it has left changes nothing and succeeds.
  pub apply_genesis-once :
      (cfg : GenesisConfig) (s : MemoryStore)
      → let t = (apply_genesis c key_ok (memory c) cfg s).0 in
        (t ≡ s) ⊎ (apply_genesis c key_ok (memory c) cfg t ≡ (t, ok tt))
  apply_genesis-once cfg s = elim (apply_genesis-stored cfg s) [
    | inl same ↦ inl same
    | inr (b, e) ↦ inr (apply_genesis-again cfg (apply_genesis c key_ok (memory c) cfg s).0 b e)
  ]
