-- ===== src/Core/Utxo/Supply.antt =====
-- The tokens in circulation: what a block does to the sum of the unspent outputs.
use better_call_chain.Prelude.{
  ℕ, suc, ◌+◌, ◌≤◌, ◌≡◌, refl, ◌∙◌, ◌≢◌, true, false, ◌||◌, List, [], ◌∷◌, ◌++◌, map, some,
  Option-cases, inl, inr, arith, All,
}
use mathlib.Core.List.{lookup}
use better_call_chain.Prelude.Maps.{insert, remove, contains, lookup-remove}
use better_call_chain.Prelude.Words.{total}
use better_call_chain.Core.Types.{
  TxHash, TxOutRef, TxInput, TxOutput, Transaction, out_ref_discrete,
}
use better_call_chain.Core.Crypto.{Crypto}
use better_call_chain.Core.Merkle.{tx_hash}
use better_call_chain.Core.Validation.Transactions.{amounts}
use better_call_chain.Core.Utxo.{
  UtxoMap, Tables, get_utxo, put_utxo, remove_utxo, spend, spend_all, create_all, apply_tx,
  apply_txs, created_at, created, consumed, out_ref_at,
}
use better_call_chain.Core.Utxo.Rollback.{among, among-append, get-create_all, IsApplicable}

-- The sum of all unspent outputs.
unfoldable pub supply : UtxoMap → ℕ
supply [] = 0
supply ((r, o) ∷ m) = o.amount + supply m

supply-remove-le : (r : TxOutRef) (m : UtxoMap) → supply (remove_utxo r m) ≤ supply m
unfolding supply remove
supply-remove-le r [] = omega arith
supply-remove-le r ((s, o) ∷ m) = ground (arith, supply-remove-le r m)

supply-remove :
    (r : TxOutRef) (o : TxOutput) (m : UtxoMap)
    → get_utxo r m ≡ some o
    → supply (remove_utxo r m) + o.amount ≤ supply m
unfolding supply remove lookup
supply-remove r o [] h = absurd (cc)
supply-remove r o ((s, p) ∷ m) h = ground (arith, supply-remove r o m, supply-remove-le r m)

supply-create_all :
    (h : TxHash) (index : ℕ) (os : List TxOutput) (m : UtxoMap)
    → supply (create_all h index os m) ≤ supply m + total (amounts os)
unfolding supply create_all insert total
supply-create_all h index [] m = omega arith
supply-create_all h index (o ∷ os) m = omega (
  arith,
  supply-create_all h (suc index) os (put_utxo (out_ref_at h index) o m),
  supply-remove-le (out_ref_at h index) m,
)

abbrev pub refs : List TxInput → List TxOutRef
refs = map (λ i. i.out_ref)

-- The map has these outputs for the inputs.
abbrev pub Holds : UtxoMap → List TxInput → List TxOutput → Type 0
Holds m [] [] = Unit
Holds m (i ∷ is) (o ∷ os) = (get_utxo i.out_ref m ≡ some o) × Holds m is os
Holds m _ _ = ⊥

-- No reference stands twice in the list.
abbrev pub Distinct : List TxOutRef → Type 0
Distinct [] = Unit
Distinct (r ∷ rs) = (among r rs ≡ false) × Distinct rs

-- `m'` has the entries of `m` at all these references.
Holds-agree :
    (m m' : UtxoMap) (is : List TxInput) (os : List TxOutput)
    → ((r : TxOutRef) → among r (refs is) ≡ true → get_utxo r m' ≡ get_utxo r m)
    → Holds m is os
    → Holds m' is os
unfolding contains
Holds-agree m m' [] [] f h = tt
Holds-agree m m' [] (o ∷ os) f h = h
Holds-agree m m' (i ∷ is) [] f h = h
Holds-agree m m' (i ∷ is) (o ∷ os) f h =
    (f i.out_ref (ground arith) ∙ h.0, Holds-agree m m' is os (λ r e. f r (ground arith)) h.1)

get-spend_ne :
    (r s : TxOutRef) (t : Tables) → r ≢ s → get_utxo r (spend s t).utxo ≡ get_utxo r t.utxo
unfolding spend
get-spend_ne r s t ne = elim (Option-cases (get_utxo s t.utxo)) [
  | inl e ↦ rw (e, spend) refl
  | inr (o, e) ↦ rw (e, spend) (ground (arith, lookup-remove out_ref_discrete r s t.utxo))
]

get-spend_all :
    (r : TxOutRef) (is : List TxInput) (t : Tables)
    → among r (refs is) ≡ false
    → get_utxo r (spend_all is t).utxo ≡ get_utxo r t.utxo
unfolding spend_all contains
get-spend_all r [] t h = refl
get-spend_all r (i ∷ is) t h =
    ground (arith, get-spend_all r is (spend i.out_ref t), get-spend_ne r i.out_ref t)

among_ne : (r s : TxOutRef) (rs : List TxOutRef) → among s rs ≡ false → among r rs ≡ true → r ≢ s
among_ne r s rs hs hr e = ground arith

supply-spend :
    (r : TxOutRef) (o : TxOutput) (t : Tables)
    → get_utxo r t.utxo ≡ some o
    → supply (spend r t).utxo + o.amount ≤ supply t.utxo
unfolding spend
supply-spend r o t e = rw (e, spend) (supply-remove r o t.utxo e)

supply-spend_all :
    (is : List TxInput) (os : List TxOutput) (t : Tables)
    → Distinct (refs is)
    → Holds t.utxo is os
    → supply (spend_all is t).utxo + total (amounts os) ≤ supply t.utxo
unfolding spend_all total
supply-spend_all [] [] t d h = omega arith
supply-spend_all [] (o ∷ os) t d h = absurd h
supply-spend_all (i ∷ is) [] t d h = absurd h
supply-spend_all (i ∷ is) (o ∷ os) t d h = omega (
  arith,
  supply-spend i.out_ref o t h.0,
  supply-spend_all is os (spend i.out_ref t) d.1 (
      Holds-agree t.utxo (spend i.out_ref t).utxo is os
        (λ r e. get-spend_ne r i.out_ref t (among_ne r i.out_ref (refs is) d.0 e)) h.1),
)

-- The transaction pays out at most what its inputs hold in the map.
pub record IsFunded (m : UtxoMap) (tx : Transaction) : Type 0 where
  pub spent : List TxOutput
  pub holds : Holds m tx.inputs spent
  pub funded : total (amounts tx.outputs) ≤ total (amounts spent)

module _ (c : Crypto) where
  supply-apply_tx :
      (tx : Transaction) (t : Tables)
      → Distinct (refs tx.inputs)
      → IsFunded t.utxo tx
      → supply (apply_tx c tx t).utxo ≤ supply t.utxo
  unfolding apply_tx
  supply-apply_tx tx t d f = omega (
    arith,
    f.funded,
    supply-spend_all tx.inputs f.spent t d f.holds,
    supply-create_all (tx_hash c tx) 0 tx.outputs (spend_all tx.inputs t).utxo,
  )

  get-apply_tx :
      (r : TxOutRef) (tx : Transaction) (t : Tables)
      → among r (refs tx.inputs) ≡ false
      → among r (created_at (tx_hash c tx) 0 tx.outputs) ≡ false
      → get_utxo r (apply_tx c tx t).utxo ≡ get_utxo r t.utxo
  unfolding apply_tx
  get-apply_tx r tx t h k =
      get-create_all r (tx_hash c tx) 0 tx.outputs (spend_all tx.inputs t).utxo k
      ∙ get-spend_all r tx.inputs t h

  Distinct-append :
      (xs ys : List TxOutRef)
      → Distinct (xs ++ ys)
      → Distinct xs × Distinct ys × ((r : TxOutRef) → among r ys ≡ true → among r xs ≡ false)
  unfolding contains
  Distinct-append [] ys d = (tt, d, λ r e. refl)
  Distinct-append (x ∷ xs) ys d =
      let (dx, dy, apart) = Distinct-append xs ys d.1 in
      (
        (ground (arith, d.0, among-append x xs ys), dx),
        dy,
        λ r e. ground (arith, d.0, apart r e, among-append x xs ys),
      )

  supply-apply_txs_from :
      (m : UtxoMap) (txs : List Transaction) (t : Tables)
      → Distinct (consumed txs)
      → ((r : TxOutRef) → among r (consumed txs) ≡ true → among r (created c txs) ≡ false)
      → ((r : TxOutRef) → among r (consumed txs) ≡ true → get_utxo r t.utxo ≡ get_utxo r m)
      → All (IsFunded m) txs
      → supply (apply_txs c txs t).utxo ≤ supply t.utxo
  unfolding apply_txs consumed created
  supply-apply_txs_from m [] t d apart same f = omega arith
  supply-apply_txs_from m (tx ∷ txs) t d apart same f = omega (
    arith,
    supply-apply_tx tx t here (record { spent = f.0.spent; holds = held; funded = f.0.funded }),
    supply-apply_txs_from m txs (apply_tx c tx t) rest
        (λ r e. ground (arith, apart r (later r e), in_created r))
        (λ r e.
          get-apply_tx r tx t (between r e) (ground (arith, apart r (later r e), in_created r))
          ∙ same r (later r e))
        f.1,
  )
    where
      parts :
          Distinct (refs tx.inputs)
          × Distinct (consumed txs)
          × ((r : TxOutRef) → among r (consumed txs) ≡ true → among r (refs tx.inputs) ≡ false)
      parts = Distinct-append (refs tx.inputs) (consumed txs) d

      here : Distinct (refs tx.inputs)
      here = parts.0

      rest : Distinct (consumed txs)
      rest = parts.1

      between : (r : TxOutRef) → among r (consumed txs) ≡ true → among r (refs tx.inputs) ≡ false
      between = parts.2

      in_consumed :
          (r : TxOutRef)
          → among r (consumed (tx ∷ txs)) ≡ (among r (refs tx.inputs) || among r (consumed txs))
      in_consumed r = among-append r (refs tx.inputs) (consumed txs)

      in_created :
          (r : TxOutRef)
          → among r (created c (tx ∷ txs))
            ≡ (among r (created_at (tx_hash c tx) 0 tx.outputs) || among r (created c txs))
      in_created r = among-append r (created_at (tx_hash c tx) 0 tx.outputs) (created c txs)

      later : (r : TxOutRef) → among r (consumed txs) ≡ true → among r (consumed (tx ∷ txs)) ≡ true
      later r e = ground (arith, in_consumed r)

      held : Holds t.utxo tx.inputs f.0.spent
      held =
          Holds-agree m t.utxo tx.inputs f.0.spent (λ r e. same r (ground (arith, in_consumed r)))
            f.0.holds

  -- A block does not raise the sum of the unspent outputs, when each of its transactions is paid for
  -- by the map before the block, the outputs that it creates are new, and no two of its inputs,
  -- within a transaction or across them, name the same output.
  pub supply-apply_txs :
      (m : UtxoMap) (txs : List Transaction)
      → IsApplicable c m txs
      → Distinct (consumed txs)
      → All (IsFunded m) txs
      → supply (apply_txs c txs (record { utxo = m; spent = [] })).utxo ≤ supply m
  supply-apply_txs m txs a d f =
      supply-apply_txs_from m txs (record { utxo = m; spent = [] }) d
        (λ r e. ground (arith, a.stored r e, a.fresh r)) (λ r e. refl) f
