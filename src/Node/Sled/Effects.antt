-- ===== src/Node/Sled/Effects.antt =====
-- What the loops of `SledStore` over the inputs and outputs do to what its trees hold for one
-- reference.
use better_call_chain.Prelude.{ℕ, suc, ◌<◌, ◌≡◌, List, [], ◌∷◌, Option, none, some, ite, arith}
use better_call_chain.Prelude.Words.{u64_mod}
use better_call_chain.Prelude.Maps.{lookup-insert}
use better_call_chain.Core.Types.{
  Bytes, TxHash, TxOutRef, TxInput, TxOutput, Transaction, out_ref_discrete, bytes_discrete,
}
use better_call_chain.Core.Crypto.{Crypto}
use better_call_chain.Core.Merkle.{tx_hash}
use better_call_chain.Core.Utxo.{Tables, UtxoMap, get_utxo, put_utxo, out_ref_at}
use better_call_chain.Core.Utxo
use better_call_chain.Core.Utxo.Agree.{get-spend, last_of_spend_lem}
use better_call_chain.Core.Utxo.Rollback.{last_of, or_else}
use better_call_chain.Node.Sled.{Sled, SledLaws, Json, JsonLaws, Codec, Outcome, holding}
use better_call_chain.Node.Sled.Outcomes.{Outcome-bind, Outcome-map}
use better_call_chain.Node.Sled.Keys.{to_vec_inj, spent_key_inj}
use better_call_chain.Node.Sled.Outputs.{
  OutputTrees, spent_key, keep_spent, spend, spend_all, create_all, apply_tx, apply_txs,
}

-- An option as its bytes.
abbrev pub as_bytes : {A : Type 0} → Codec A → Option A → Option Bytes
as_bytes k none = none
as_bytes k (some a) = some (k.to_vec a)

module _ (d : Sled) (Failed : Type 0) (laws : SledLaws d Failed) (j : Json) (jl : JsonLaws j)
    (h : ℕ) (small : h < u64_mod) (r : TxOutRef) where
  -- The trees hold `o` as the unspent output and `p` as the output that the height has spent.
  pub record Holds (t : OutputTrees d) (o p : Option TxOutput) : Type 0 where
    pub unspent : laws.find t.utxo (j.out_ref.to_vec r) ≡ as_bytes j.output o
    pub kept : laws.find t.spent_h (spent_key j h r) ≡ as_bytes j.output p

  pub ref_test :
      (s : TxOutRef) {A : Type 0} (x y : A)
      → ite (bytes_discrete (j.out_ref.to_vec r) (j.out_ref.to_vec s)) x y
        ≡ ite (out_ref_discrete r s) x y
  ref_test s x y = ground (arith, to_vec_inj j.out_ref jl.out_ref_lem r s)

  pub key_test :
      (s : TxOutRef) {A : Type 0} (x y : A)
      → ite (bytes_discrete (spent_key j h r) (spent_key j h s)) x y
        ≡ ite (out_ref_discrete r s) x y
  key_test s x y = ground (arith, spent_key_inj j jl h h r s small small)

  keep_spent-find :
      (s : TxOutRef) (t : OutputTrees d) (o p : Option TxOutput) (found : Option Bytes)
      → Holds t o p
      → found ≡ laws.find t.utxo (j.out_ref.to_vec s)
      → Outcome Failed
          (λ t'.
            laws.find t' (spent_key j h r)
            ≡ as_bytes j.output (ite (out_ref_discrete r s) (or_else o p) p))
          (keep_spent d j h s found t.spent_h)
  unfolding keep_spent
  keep_spent-find s t o p none e f = holding (ground (arith, e.unspent, e.kept, f))
  keep_spent-find s t o p (some prev) e f =
      Outcome-map (laws.staged_insert_lem t.spent_h (spent_key j h s) prev) (λ t' g. ground (
        arith,
        g (spent_key j h r),
        key_test s (some prev) (laws.find t.spent_h (spent_key j h r)),
        e.unspent,
        e.kept,
        f,
      ))

  spend-Holds :
      (s : TxOutRef) (t : OutputTrees d) (o p : Option TxOutput)
      → Holds t o p
      → Outcome Failed
          (λ t'.
            Holds t'
              (ite (out_ref_discrete r s) none o)
              (ite (out_ref_discrete r s) (or_else o p) p))
          (spend d j h s t)
  unfolding spend
  spend-Holds s t o p e = Outcome-bind (laws.staged_get_lem t.utxo (j.out_ref.to_vec s)) (λ found f.
      Outcome-bind (keep_spent-find s t o p found e f) (λ spent_h g.
        Outcome-bind (laws.staged_remove_lem t.utxo (j.out_ref.to_vec s)) (λ utxo i.
          holding (record {
            unspent = ground (
              arith,
              i (j.out_ref.to_vec r),
              ref_test s none (laws.find t.utxo (j.out_ref.to_vec r)),
              e.unspent,
            );
            kept = g;
          }))))

  -- The trees hold for the reference what the tables have.
  abbrev pub HoldsOf : Tables → OutputTrees d → Type 0
  HoldsOf m t = Holds t (get_utxo r m.utxo) (last_of r m.spent)

  spend_all-Holds :
      (is : List TxInput) (t : OutputTrees d) (m : Tables)
      → HoldsOf m t
      → Outcome Failed (HoldsOf (Utxo.spend_all is m)) (spend_all d j h is t)
  unfolding spend_all Utxo.spend_all
  spend_all-Holds [] t m e = holding e
  spend_all-Holds (i ∷ is) t m e =
      Outcome-bind (spend-Holds i.out_ref t (get_utxo r m.utxo) (last_of r m.spent) e) (λ t' e'.
        spend_all-Holds is t' (Utxo.spend i.out_ref m) (record {
          unspent = cc (e'.unspent, get-spend r i.out_ref m);
          kept = cc (e'.kept, last_of_spend_lem r i.out_ref m);
        }))

  create_all-find :
      (hash : TxHash) (index : ℕ) (os : List TxOutput) (t : d.Tree) (m : UtxoMap)
      → laws.find t (j.out_ref.to_vec r) ≡ as_bytes j.output (get_utxo r m)
      → Outcome Failed
          (λ t'.
            laws.find t' (j.out_ref.to_vec r)
            ≡ as_bytes j.output (get_utxo r (Utxo.create_all hash index os m)))
          (create_all d j hash index os t)
  unfolding create_all Utxo.create_all
  create_all-find hash index [] t m e = holding e
  create_all-find hash index (o ∷ os) t m e =
      Outcome-bind
        (laws.staged_insert_lem t (j.out_ref.to_vec (out_ref_at hash index)) (j.output.to_vec o))
        (λ t' f. create_all-find hash (suc index) os t' (put_utxo (out_ref_at hash index) o m) (
          ground (
            arith,
            f (j.out_ref.to_vec r),
            e,
            ref_test (out_ref_at hash index) (some (j.output.to_vec o))
                (laws.find t (j.out_ref.to_vec r)),
            lookup-insert out_ref_discrete r (out_ref_at hash index) o m,
          )))

  module _ (c : Crypto) where
    apply_tx-Holds :
        (tx : Transaction) (t : OutputTrees d) (m : Tables)
        → HoldsOf m t
        → Outcome Failed (HoldsOf (Utxo.apply_tx c tx m)) (apply_tx d j c h tx t)
    unfolding apply_tx Utxo.apply_tx
    apply_tx-Holds tx t m e = Outcome-bind (spend_all-Holds tx.inputs t m e) (λ u f.
        Outcome-bind
          (create_all-find (tx_hash c tx) 0 tx.outputs u.utxo (Utxo.spend_all tx.inputs m).utxo
            f.unspent)
          (λ utxo g. holding (record { unspent = g; kept = f.kept })))

    -- The transactions of a block do to the trees what they do to the tables.
    pub apply_txs-Holds :
        (txs : List Transaction) (t : OutputTrees d) (m : Tables)
        → HoldsOf m t
        → Outcome Failed (HoldsOf (Utxo.apply_txs c txs m)) (apply_txs d j c h txs t)
    unfolding apply_txs Utxo.apply_txs
    apply_txs-Holds [] t m e = holding e
    apply_txs-Holds (tx ∷ txs) t m e =
        Outcome-bind (apply_tx-Holds tx t m e)
          (λ u f. apply_txs-Holds txs u (Utxo.apply_tx c tx m) f)
