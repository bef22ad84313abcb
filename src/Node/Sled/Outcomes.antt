-- ===== src/Node/Sled/Outcomes.antt =====
-- Reasoning about the answers of the database and about the writes that follow each other.
use better_call_chain.Prelude.{Result, ok, err, ◌>>=◌, List}
use better_call_chain.Core.Types.{StoreError}
use better_call_chain.Node.State.{and_write}
use better_call_chain.Node.Sled.{
  Sled, SledError, SledLaws, SledStore, Outcome, failing, holding, transaction, committed,
}
use better_call_chain.Node.Sled.Chain.{ChainTrees, with_chain}
use better_call_chain.Node.Sled.Registry.{with_validators}
use better_call_chain.Node.Sled.Outputs.{OutputTrees, with_outputs, with_meta}

-- A chain of answers.
pub Outcome-bind :
    {E A B : Type 0} {F : Type 0} {P : A → Type 0} {Q : B → Type 0} {r : Result E A}
    {f : A → Result E B}
    → Outcome F P r
    → ((a : A) → P a → Outcome F Q (f a))
    → Outcome F Q (r >>= f)
Outcome-bind (failing x) k = failing x
Outcome-bind (holding {a = a} o) k = k a o

pub Outcome-map :
    {E A : Type 0} {F : Type 0} {P Q : A → Type 0} {r : Result E A}
    → Outcome F P r
    → ((a : A) → P a → Q a)
    → Outcome F Q r
Outcome-map (failing x) k = failing x
Outcome-map (holding {a = a} o) k = holding (k a o)

held : {E A F : Type 0} {Q : A → Type 0} {a : A} → Outcome {E = E} F Q (ok a) → Q a
held (holding q) = q

pub Outcome-both :
    {E A F : Type 0} {P Q : A → Type 0} {r : Result E A}
    → Outcome F P r
    → Outcome F Q r
    → Outcome F (λ a. P a × Q a) r
Outcome-both (failing x) q = failing x
Outcome-both (holding p) q = holding (p, held q)

-- Answers about one result, for every element of an inhabited type.
pub Outcome-all :
    {E A I F : Type 0} {P : I → A → Type 0} {r : Result E A}
    → I
    → ((i : I) → Outcome F (P i) r)
    → Outcome F (λ a. (i : I) → P i a) r
Outcome-all {P = P} {r = err e} i f = elim (f i) [ failing x ↦ failing x ]
Outcome-all {P = P} {r = ok a} i f = holding (λ k. held (f k))

-- What a write leaves behind when it succeeds.
pub data Leaves {S : Type 0} (Failed : Type 0) (P : S → Type 0)
    : S × Result StoreError (Unit {0}) → Type 0 where
  broken : {s : S} {e : StoreError} → Failed → Leaves Failed P (s, err e)
  left : {s : S} → P s → Leaves Failed P (s, ok tt)

pub and_write-Leaves :
    {S F : Type 0} {P Q : S → Type 0} {w : S × Result StoreError (Unit {0})}
    {k : S → S × Result StoreError (Unit {0})}
    → Leaves F P w
    → ((s : S) → P s → Leaves F Q (k s))
    → Leaves F Q (and_write w k)
and_write-Leaves (broken x) f = broken x
and_write-Leaves (left {s = s} p) f = f s p

committed-Leaves :
    {T F : Type 0} (before after : T) {P : T → Type 0} {r : Result SledError (Unit {0})}
    → Outcome F (λ _. Unit {0}) r
    → P after
    → Leaves F P (committed before after r)
unfolding committed
committed-Leaves before after (failing x) p = broken x
committed-Leaves before after (holding _) p = left p

module _ (d : Sled) (Failed : Type 0) (laws : SledLaws d Failed) where
  pub transaction-Leaves :
      {T : Type 0} (trees : T → List d.Tree) (before : T) {P : T → Type 0}
      {run : Result SledError T}
      → Outcome Failed P run
      → Leaves Failed P (transaction d trees before run)
  unfolding transaction
  transaction-Leaves trees before (failing x) = broken x
  transaction-Leaves trees before (holding {a = a} p) =
      committed-Leaves before a (laws.commit_lem (trees before) (trees a)) p

  pub with_outputs-Leaves :
      (s : SledStore d) {P : OutputTrees d → Type 0} {Q : SledStore d → Type 0}
      {w : OutputTrees d × Result StoreError (Unit {0})}
      → Leaves Failed P w
      → ((t : OutputTrees d) → P t → Q (record s { utxo = t.utxo; spent_h = t.spent_h }))
      → Leaves Failed Q (with_outputs d s w)
  unfolding with_outputs
  with_outputs-Leaves s (broken x) f = broken x
  with_outputs-Leaves s (left {s = t} p) f = left (f t p)

  pub with_meta-Leaves :
      (s : SledStore d) {P : d.Tree → Type 0} {Q : SledStore d → Type 0}
      (w : d.Tree × Result SledError (Unit {0}))
      → Outcome Failed (λ _. P w.0) w.1
      → ((t : d.Tree) → P t → Q (record s { meta = t }))
      → Leaves Failed Q (with_meta d s w)
  unfolding with_meta
  with_meta-Leaves s (t, err e) (failing x) f = broken x
  with_meta-Leaves s (t, ok _) (holding p) f = left (f t p)

  pub with_chain-Leaves :
      (s : SledStore d) {P : ChainTrees d → Type 0} {Q : SledStore d → Type 0}
      {w : ChainTrees d × Result StoreError (Unit {0})}
      → Leaves Failed P w
      → ((t : ChainTrees d)
          → P t
          → Q (record s { blocks_h = t.blocks_h; blocks_idx = t.blocks_idx; meta = t.meta }))
      → Leaves Failed Q (with_chain d s w)
  unfolding with_chain
  with_chain-Leaves s (broken x) f = broken x
  with_chain-Leaves s (left {s = t} p) f = left (f t p)

  pub with_validators-Leaves :
      (s : SledStore d) {P : d.Tree → Type 0} {Q : SledStore d → Type 0}
      (w : d.Tree × Result SledError (Unit {0}))
      → Outcome Failed (λ _. P w.0) w.1
      → ((t : d.Tree) → P t → Q (record s { validators = t }))
      → Leaves Failed Q (with_validators d s w)
  unfolding with_validators
  with_validators-Leaves s (t, err e) (failing x) f = broken x
  with_validators-Leaves s (t, ok _) (holding p) f = left (f t p)
