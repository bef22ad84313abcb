-- ===== src/Node/Sled/Restore.antt =====
-- What the loops of `SledStore::rollback_block` do to what its trees hold for one reference.
use better_call_chain.Prelude.{
  ℕ, suc, ◌<◌, ◌≡◌, List, [], ◌∷◌, map, Option, none, some, ite, if◌then◌else◌, arith,
}
use better_call_chain.Prelude.Words.{u64_mod}
use better_call_chain.Prelude.Maps.{contains}
use better_call_chain.Core.Types.{Bytes, TxHash, TxOutRef, TxInput, TxOutput, out_ref_discrete}
use better_call_chain.Core.Utxo.{out_ref_at, created_at}
use better_call_chain.Core.Utxo.Rollback.{among, or_else}
use better_call_chain.Node.Sled.{Sled, SledLaws, Json, JsonLaws, Outcome, holding}
use better_call_chain.Node.Sled.Outcomes.{Outcome-bind, Outcome-map}
use better_call_chain.Node.Sled.Effects.{as_bytes, Holds, ref_test, key_test}
use better_call_chain.Node.Sled.Outputs.{OutputTrees, spent_key}
use better_call_chain.Node.Sled.Rollback.{uncreate_all, put_back, restore, restore_all}

module _ (d : Sled) (Failed : Type 0) (laws : SledLaws d Failed) (j : Json) (jl : JsonLaws j)
    (h : ℕ) (small : h < u64_mod) (r : TxOutRef) where
  abbrev pub Has : OutputTrees d → Option TxOutput → Option TxOutput → Type 0
  Has = Holds d Failed laws j jl h small r

  pub uncreate_all-find :
      (hash : TxHash) (index : ℕ) (os : List TxOutput) (t : d.Tree) (o : Option TxOutput)
      → laws.find t (j.out_ref.to_vec r) ≡ as_bytes j.output o
      → Outcome Failed
          (λ u.
            laws.find u (j.out_ref.to_vec r)
            ≡ as_bytes j.output (if among r (created_at hash index os) then none else o))
          (uncreate_all d j hash index os t)
  unfolding uncreate_all created_at contains
  uncreate_all-find hash index [] t o e = holding e
  uncreate_all-find hash index (x ∷ os) t o e =
      Outcome-bind (laws.staged_remove_lem t (j.out_ref.to_vec (out_ref_at hash index))) (λ u f.
        Outcome-map
          (uncreate_all-find hash (suc index) os u
            (ite (out_ref_discrete r (out_ref_at hash index)) none o)
            (ground (
              arith,
              f (j.out_ref.to_vec r),
              e,
              ref_test d Failed laws j jl h small r (out_ref_at hash index) none
                  (laws.find t (j.out_ref.to_vec r)),
            )))
          (λ v g. ground (arith, g)))

  put_back-Holds :
      (s : TxOutRef) (found : Option Bytes) (t : OutputTrees d) (o p : Option TxOutput)
      → found ≡ laws.find t.spent_h (spent_key j h s)
      → Has t o p
      → Outcome Failed
          (λ u.
            Has u (ite (out_ref_discrete r s) (or_else p o) o) (ite (out_ref_discrete r s) none p))
          (put_back d j h s found t)
  unfolding put_back
  put_back-Holds s none t o p f e =
      holding (record {
        unspent = ground (arith, f, e.kept, e.unspent);
        kept = ground (arith, f, e.kept);
      })
  put_back-Holds s (some b) t o p f e =
      Outcome-bind (laws.staged_insert_lem t.utxo (j.out_ref.to_vec s) b) (λ utxo g.
        Outcome-bind (laws.staged_remove_lem t.spent_h (spent_key j h s)) (λ spent_h i.
          holding (record {
            unspent = ground (
              arith,
              f,
              e.kept,
              e.unspent,
              g (j.out_ref.to_vec r),
              ref_test d Failed laws j jl h small r s (some b)
                  (laws.find t.utxo (j.out_ref.to_vec r)),
            );
            kept = ground (
              arith,
              f,
              e.kept,
              i (spent_key j h r),
              key_test d Failed laws j jl h small r s none (laws.find t.spent_h (spent_key j h r)),
            );
          })))

  pub restore_all-Holds :
      (is : List TxInput) (t : OutputTrees d) (o p : Option TxOutput)
      → Has t o p
      → Outcome Failed
          (λ u.
            Has u
              (if among r (map (λ i. i.out_ref) is) then or_else p o else o)
              (if among r (map (λ i. i.out_ref) is) then none else p))
          (restore_all d j h is t)
  unfolding restore_all restore contains
  restore_all-Holds [] t o p e = holding e
  restore_all-Holds (i ∷ is) t o p e =
      Outcome-bind
        (Outcome-bind (laws.staged_get_lem t.spent_h (spent_key j h i.out_ref))
          (λ found f. put_back-Holds i.out_ref found t o p f e))
        (λ u g.
          Outcome-map (restore_all-Holds is u _ _ g)
            (λ v k. record { unspent = ground (arith, k.unspent); kept = ground (arith, k.kept) }))
