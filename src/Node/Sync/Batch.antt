-- ===== src/Node/Sync/Batch.antt =====
-- What a batch that is applied has been through.
use better_call_chain.Prelude.{
  ℕ, ◌-◌, ◌≡◌, refl, ◌⊎◌, inl, inr, Bool-cases, ltb, List, [], ◌∷◌, none, some, Result-cases, ok,
  err, arith,
}
use better_call_chain.Core.Types.{Block}
use better_call_chain.Core.Crypto.{Crypto}
use better_call_chain.Core.Memory.{StoreResult}
use better_call_chain.Core.Validation.Blocks.{validate_block}
use better_call_chain.Node.State.{Stores, and_write}
use better_call_chain.Node.Sync.{store_error, check_block, apply_one, apply_batch}

module _ (c : Crypto) (st : Stores) (duration : ℕ) where
  -- A block that may follow on the storage: it is at height 0, or it is valid behind its stored parent.
  abbrev pub Follows : st.Storage → Block → Type 0
  Follows s block =
      (block.header.height ≡ 0)
      ⊎ ((parent : Block) × (st.get_by_height s (block.header.height - 1) ≡ ok (some parent))
          × (validate_block c block parent (st.get_output s) (st.all_active s) duration ≡ ok tt))

  -- The blocks lead from one storage to the other, each written where it follows.
  abbrev pub Synced : List Block → st.Storage → st.Storage → Type 0
  Synced [] s t = s ≡ t
  Synced (block ∷ blocks) s t =
      (u : st.Storage) × Follows s block
      × (and_write (st.insert s block) (λ v. st.apply_block v block) ≡ (u, ok tt))
      × Synced blocks u t

  check_block-Follows :
      (block : Block) (s : st.Storage) → check_block c st duration block s ≡ ok tt → Follows s block
  unfolding check_block
  check_block-Follows block s h = elim (Bool-cases (ltb 0 block.header.height)) [
    | inr low ↦ inl (ground (arith, low))
    | inl high ↦ elim (Result-cases (st.get_by_height s (block.header.height - 1))) [
      | inr (e, f) ↦ absurd (ground (arith, h, high, f))
      | inl (none, f) ↦ absurd (ground (arith, h, high, f))
      | inl (some parent, f) ↦
          elim (Result-cases
            (validate_block c block parent (st.get_output s) (st.all_active s) duration)) [
              | inr (e, g) ↦ absurd (ground (arith, h, high, f, g))
              | inl (_, g) ↦ inr (parent, f, g)
            ]
    ]
  ]

  store_error-ok :
      (r : st.Storage × StoreResult (Unit {0}))
      → (store_error r).1 ≡ ok tt
      → r ≡ ((store_error r).0, ok tt)
  store_error-ok (s, err e) h = absurd (cc (h))
  store_error-ok (s, ok _) h = refl

  apply_one-Follows :
      (block : Block) (s : st.Storage)
      → (apply_one c st duration block s).1 ≡ ok tt
      → Follows s block
        × (and_write (st.insert s block) (λ v. st.apply_block v block)
            ≡ ((apply_one c st duration block s).0, ok tt))
  unfolding apply_one
  apply_one-Follows block s h = elim (Result-cases (check_block c st duration block s)) [
    | inl (_, e) ↦ (
      check_block-Follows block s e,
      rw (e, apply_one)
          (store_error-ok (and_write (st.insert s block) (λ v. st.apply_block v block))
            (ground (arith, h, e))),
    )
    | inr (r, e) ↦ absurd (ground (arith, h, e))
  ]

  -- A batch that is applied without an error has been written block by block, each one at height 0
  -- or valid behind the stored block below it, on the storage that the blocks before it left.
  pub apply_batch-Synced :
      (blocks : List Block) (s t : st.Storage)
      → apply_batch c st duration blocks s ≡ (t, ok tt)
      → Synced blocks s t
  unfolding apply_batch
  apply_batch-Synced [] s t h = cc (h)
  apply_batch-Synced (block ∷ blocks) s t h =
      elim (Result-cases (apply_one c st duration block s).1) [
        | inl (_, e) ↦
            let (f, w) = apply_one-Follows block s e in
            (
              (apply_one c st duration block s).0,
              f,
              w,
              apply_batch-Synced blocks (apply_one c st duration block s).0 t
                  (ground (arith, h, e)),
            )
        | inr (r, e) ↦ absurd (ground (arith, h, e))
      ]
