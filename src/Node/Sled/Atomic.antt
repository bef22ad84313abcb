-- ===== src/Node/Sled/Atomic.antt =====
-- A failed `apply_block` of `SledStore` never leaves a part of the block's outputs.
use better_call_chain.Prelude.{◌≡◌, refl, ap, sym, ◌∙◌, ◌⊎◌, inl, inr, Result, ok, err}
use better_call_chain.Core.Types.{Block}
use better_call_chain.Core.Crypto.{Crypto}
use better_call_chain.Core.Memory.{StoreResult}
use better_call_chain.Node.State.{and_write}
use better_call_chain.Node.Sled.{
  Sled, SledError, SledStore, Json, height_key, meta_apply_in_progress, transaction, committed,
}
use better_call_chain.Node.Sled.Outputs.{
  OutputTrees, output_list, output_trees, with_outputs, with_meta, apply_txs, write_txs,
  apply_block,
}

module _ (d : Sled) (j : Json) (c : Crypto) (b : Block) where
  -- The store has the other trees of `s`, and of the outputs either those of `s` or those that the
  -- whole block makes of them.
  pub record IsWhole (s t : SledStore d) : Type 0 where
    pub blocks_h : t.blocks_h ≡ s.blocks_h
    pub blocks_idx : t.blocks_idx ≡ s.blocks_idx
    pub validators : t.validators ≡ s.validators
    pub outputs :
        (output_trees d t ≡ output_trees d s)
        ⊎ (apply_txs d j c b.header.height b.txs (output_trees d s) ≡ ok (output_trees d t))

  committed-IsWhole :
      (s : SledStore d) (t : OutputTrees d) (r : Result SledError (Unit {0}))
      → apply_txs d j c b.header.height b.txs (output_trees d s) ≡ ok t
      → IsWhole s (with_outputs d s (committed (output_trees d s) t r)).0
  unfolding committed with_outputs output_trees
  committed-IsWhole s t (err e) p = record {
    blocks_h = refl;
    blocks_idx = refl;
    validators = refl;
    outputs = inl refl;
  }
  committed-IsWhole s t (ok _) p = record {
    blocks_h = refl;
    blocks_idx = refl;
    validators = refl;
    outputs = inr p;
  }

  transaction-IsWhole :
      (s : SledStore d) (r : Result SledError (OutputTrees d))
      → apply_txs d j c b.header.height b.txs (output_trees d s) ≡ r
      → IsWhole s (with_outputs d s (transaction d (output_list d) (output_trees d s) r)).0
  unfolding transaction with_outputs output_trees
  transaction-IsWhole s (err e) p = record {
    blocks_h = refl;
    blocks_idx = refl;
    validators = refl;
    outputs = inl refl;
  }
  transaction-IsWhole s (ok t) p = committed-IsWhole s t _ p

  -- The store differs in its tree `meta` at most.
  record IsSame (s t : SledStore d) : Type 0 where
    same_blocks_h : t.blocks_h ≡ s.blocks_h
    same_blocks_idx : t.blocks_idx ≡ s.blocks_idx
    same_validators : t.validators ≡ s.validators
    same_outputs : output_trees d t ≡ output_trees d s

  IsWhole-IsSame : (s t u : SledStore d) → IsSame s t → IsWhole t u → IsWhole s u
  IsWhole-IsSame s t u e w = record {
    blocks_h = w.blocks_h ∙ e.same_blocks_h;
    blocks_idx = w.blocks_idx ∙ e.same_blocks_idx;
    validators = w.validators ∙ e.same_validators;
    outputs = elim w.outputs [
      | inl p ↦ inl (p ∙ e.same_outputs)
      | inr p ↦ inr (ap (apply_txs d j c b.header.height b.txs) (sym e.same_outputs) ∙ p)
    ];
  }

  and_write-keeps :
      (P Q : SledStore d → Type 0) (w : SledStore d × StoreResult (Unit {0}))
      (k : SledStore d → SledStore d × StoreResult (Unit {0}))
      → P w.0
      → ((t : SledStore d) → P t → Q t)
      → ((t : SledStore d) → P t → Q (k t).0)
      → Q (and_write w k).0
  and_write-keeps P Q (t, err e) k p f g = f t p
  and_write-keeps P Q (t, ok _) k p f g = g t p

  -- Whatever operation of the database fails: after `apply_block` the trees of blocks and of
  -- validators are as before, and the outputs are either as before or as after the whole block.
  pub apply_block-IsWhole : (s : SledStore d) → IsWhole s (apply_block d j c s b).0
  unfolding apply_block write_txs with_meta output_trees
  apply_block-IsWhole s =
      and_write-keeps (IsWhole s) (IsWhole s) _ _
        (and_write-keeps (IsSame s) (IsWhole s)
          (with_meta d s (d.insert s.meta meta_apply_in_progress (height_key b.header.height)))
          (λ t. write_txs d j c t b)
          (record {
            same_blocks_h = refl;
            same_blocks_idx = refl;
            same_validators = refl;
            same_outputs = refl;
          })
          (λ t e. record {
            blocks_h = e.same_blocks_h;
            blocks_idx = e.same_blocks_idx;
            validators = e.same_validators;
            outputs = inl e.same_outputs;
          })
          (λ t e. IsWhole-IsSame s t _ e (transaction-IsWhole t _ refl)))
        (λ t w. w)
        (λ t w. record {
          blocks_h = w.blocks_h;
          blocks_idx = w.blocks_idx;
          validators = w.validators;
          outputs = w.outputs;
        })
