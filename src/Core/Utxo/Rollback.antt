-- ===== src/Core/Utxo/Rollback.antt =====
-- `rollback_block` undoes `apply_block`.
use better_call_chain.Prelude.{
  ℕ, suc, ◌≡◌, refl, ◌≢◌, Bool, true, false, ◌||◌, List, [], ◌∷◌, ◌++◌, map, reverse, Option, none,
  some, Option-cases, if◌then◌else◌, Bool-cases, ite, arith, ◌⊎◌, inl, inr,
}
use mathlib.Core.List.{reverse-cons}
use better_call_chain.Prelude.Maps.{contains, lookup-insert, lookup-remove}
use better_call_chain.Core.Types.{
  TxHash, TxOutRef, TxInput, TxOutput, Transaction, out_ref_discrete,
}
use better_call_chain.Core.Crypto.{Crypto}
use better_call_chain.Core.Merkle.{tx_hash}
use better_call_chain.Core.Utxo.{
  UtxoMap, Tables, get_utxo, put_utxo, remove_utxo, spend, spend_all, out_ref_at, create_all,
  uncreate_all, restore_all, apply_tx, apply_txs, uncreate_tx, uncreate_txs, rollback_txs,
  created_at, created, consumed,
}

abbrev pub among : TxOutRef → List TxOutRef → Bool
among = contains out_ref_discrete

abbrev pub or_else : Option TxOutput → Option TxOutput → Option TxOutput
or_else (some o) p = some o
or_else none p = p

-- The last entry for a reference, which is the one that stays in a map.
unfoldable pub last_of : TxOutRef → UtxoMap → Option TxOutput
last_of r [] = none
last_of r ((s, o) ∷ m) = or_else (last_of r m) (ite (out_ref_discrete r s) (some o) none)

get-restore_all :
    (r : TxOutRef) (spent m : UtxoMap)
    → get_utxo r (restore_all spent m) ≡ or_else (last_of r spent) (get_utxo r m)
unfolding restore_all last_of
get-restore_all r [] m = refl
get-restore_all r ((s, o) ∷ spent) m =
    ground (arith, get-restore_all r spent (put_utxo s o m), lookup-insert out_ref_discrete r s o m)

pub last_of-append :
    (r s : TxOutRef) (o : TxOutput) (m : UtxoMap)
    → last_of r (m ++ (s, o) ∷ []) ≡ ite (out_ref_discrete r s) (some o) (last_of r m)
unfolding last_of
last_of-append r s o [] = ground arith
last_of-append r s o ((t, p) ∷ m) = ground (arith, last_of-append r s o m)

-- What the tables still know of the output that the map `m₀` had for `r`.
record Keeps (m₀ : UtxoMap) (r : TxOutRef) (t : Tables) : Type 0 where
  known : or_else (last_of r t.spent) (get_utxo r t.utxo) ≡ get_utxo r m₀
  once : (last_of r t.spent ≡ none) ⊎ (get_utxo r t.utxo ≡ none)

module _ (m₀ : UtxoMap) (r : TxOutRef) where
  spend-Keeps : (s : TxOutRef) (t : Tables) → Keeps m₀ r t → Keeps m₀ r (spend s t)
  unfolding spend
  spend-Keeps s t k = elim (Option-cases (get_utxo s t.utxo)) [
    | inl e ↦ rw (e, spend) k
    | inr (o, e) ↦ rw (e, spend) (moved o e)
  ]
    where
      moved :
          (o : TxOutput)
          → get_utxo s t.utxo ≡ some o
          → Keeps m₀ r (record t { utxo = remove_utxo s t.utxo; spent = t.spent ++ (s, o) ∷ [] })
      moved o e = elim (out_ref_discrete r s) [
        | yes p ↦ record {
          known = ground (arith, k.known, k.once, last_of-append r s o t.spent);
          once = inr (ground (arith, lookup-remove out_ref_discrete r s t.utxo));
        }
        | no p ↦ record {
          known = ground (
            arith,
            k.known,
            last_of-append r s o t.spent,
            lookup-remove out_ref_discrete r s t.utxo,
          );
          once = ground (
            arith,
            k.once,
            last_of-append r s o t.spent,
            lookup-remove out_ref_discrete r s t.utxo,
          );
        }
      ]

  spend_all-Keeps :
      (inputs : List TxInput) (t : Tables) → Keeps m₀ r t → Keeps m₀ r (spend_all inputs t)
  unfolding spend_all
  spend_all-Keeps [] t k = k
  spend_all-Keeps (i ∷ inputs) t k =
      spend_all-Keeps inputs (spend i.out_ref t) (spend-Keeps i.out_ref t k)

pub get-create_all :
    (r : TxOutRef) (h : TxHash) (index : ℕ) (os : List TxOutput) (m : UtxoMap)
    → among r (created_at h index os) ≡ false
    → get_utxo r (create_all h index os m) ≡ get_utxo r m
unfolding create_all created_at contains
get-create_all r h index [] m e = refl
get-create_all r h index (o ∷ os) m e = ground (
  arith,
  get-create_all r h (suc index) os (put_utxo (out_ref_at h index) o m),
  lookup-insert out_ref_discrete r (out_ref_at h index) o m,
)

get-uncreate_all :
    (r : TxOutRef) (h : TxHash) (index : ℕ) (os : List TxOutput) (m : UtxoMap)
    → get_utxo r (uncreate_all h index os m)
      ≡ (if among r (created_at h index os) then none else get_utxo r m)
unfolding uncreate_all created_at contains
get-uncreate_all r h index [] m = refl
get-uncreate_all r h index (o ∷ os) m = ground (
  arith,
  get-uncreate_all r h (suc index) os (remove_utxo (out_ref_at h index) m),
  lookup-remove out_ref_discrete r (out_ref_at h index) m,
)

-- A reference that is not spent gets no entry.
pub last_of-spend :
    (r s : TxOutRef) (t : Tables) → r ≢ s → last_of r (spend s t).spent ≡ last_of r t.spent
unfolding spend
last_of-spend r s t ne = elim (Option-cases (get_utxo s t.utxo)) [
  | inl e ↦ rw (e, spend) refl
  | inr (o, e) ↦ rw (e, spend) (ground (arith, last_of-append r s o t.spent))
]

pub last_of-spend_all :
    (r : TxOutRef) (inputs : List TxInput) (t : Tables)
    → among r (map (λ i. i.out_ref) inputs) ≡ false
    → last_of r (spend_all inputs t).spent ≡ last_of r t.spent
unfolding spend_all contains
last_of-spend_all r [] t e = refl
last_of-spend_all r (i ∷ inputs) t e =
    ground (arith, last_of-spend_all r inputs (spend i.out_ref t), last_of-spend r i.out_ref t)

pub among-append :
    (r : TxOutRef) (xs ys : List TxOutRef) → among r (xs ++ ys) ≡ (among r xs || among r ys)
unfolding contains
among-append r [] ys = refl
among-append r (x ∷ xs) ys = ground (arith, among-append r xs ys)

module _ (c : Crypto) where
  apply_txs-Keeps :
      (m₀ : UtxoMap) (r : TxOutRef) (txs : List Transaction) (t : Tables)
      → among r (created c txs) ≡ false
      → Keeps m₀ r t
      → Keeps m₀ r (apply_txs c txs t)
  unfolding apply_txs apply_tx created
  apply_txs-Keeps m₀ r [] t e k = k
  apply_txs-Keeps m₀ r (tx ∷ txs) t e k =
      apply_txs-Keeps m₀ r txs (apply_tx c tx t) (ground (arith, split)) (record {
        known = rw (unchanged, apply_tx) spent_inputs.known;
        once = rw (unchanged, apply_tx) spent_inputs.once;
      })
    where
      hash : TxHash
      hash = tx_hash c tx

      split :
          among r (created c (tx ∷ txs))
          ≡ (among r (created_at hash 0 tx.outputs) || among r (created c txs))
      split = among-append r (created_at hash 0 tx.outputs) (created c txs)

      spent_inputs : Keeps m₀ r (spend_all tx.inputs t)
      spent_inputs = spend_all-Keeps m₀ r tx.inputs t k

      unchanged :
          get_utxo r (create_all hash 0 tx.outputs (spend_all tx.inputs t).utxo)
          ≡ get_utxo r (spend_all tx.inputs t).utxo
      unchanged =
          get-create_all r hash 0 tx.outputs (spend_all tx.inputs t).utxo (ground (arith, split))

  last_of-apply_txs :
      (r : TxOutRef) (txs : List Transaction) (t : Tables)
      → among r (consumed txs) ≡ false
      → last_of r (apply_txs c txs t).spent ≡ last_of r t.spent
  unfolding apply_txs apply_tx consumed
  last_of-apply_txs r [] t e = refl
  last_of-apply_txs r (tx ∷ txs) t e = ground (
    arith,
    last_of-apply_txs r txs (apply_tx c tx t),
    last_of-spend_all r tx.inputs t,
    among-append r (map (λ i. i.out_ref) tx.inputs) (consumed txs),
  )

  uncreate_txs-append :
      (xs ys : List Transaction) (m : UtxoMap)
      → uncreate_txs c (xs ++ ys) m ≡ uncreate_txs c ys (uncreate_txs c xs m)
  unfolding uncreate_txs
  uncreate_txs-append [] ys m = refl
  uncreate_txs-append (x ∷ xs) ys m = uncreate_txs-append xs ys (uncreate_tx c x m)

  get-uncreate_txs :
      (r : TxOutRef) (txs : List Transaction) (m : UtxoMap)
      → get_utxo r (uncreate_txs c (reverse txs) m)
        ≡ (if among r (created c txs) then none else get_utxo r m)
  unfolding uncreate_txs uncreate_tx created contains
  get-uncreate_txs r [] m = refl
  get-uncreate_txs r (tx ∷ txs) m =
      rw (reverse-cons tx txs, uncreate_txs-append (reverse txs) (tx ∷ []) m)
        (ground (
          arith,
          get-uncreate_all r (tx_hash c tx) 0 tx.outputs (uncreate_txs c (reverse txs) m),
          get-uncreate_txs r txs m,
          among-append r (created_at (tx_hash c tx) 0 tx.outputs) (created c txs),
        ))

  -- No output that the transactions create is in the map, and each that they spend is.
  pub record IsApplicable (m : UtxoMap) (txs : List Transaction) : Type 0 where
    pub fresh : (r : TxOutRef) → among r (created c txs) ≡ true → get_utxo r m ≡ none
    pub stored : (r : TxOutRef) → among r (consumed txs) ≡ true → get_utxo r m ≢ none

  -- To roll the transactions back restores every entry of the map, when the outputs that they
  -- create are new and the outputs that they spend were there.
  pub rollback_txs-apply_txs :
      (m : UtxoMap) (txs : List Transaction)
      → IsApplicable m txs
      → (r : TxOutRef)
      → let t = apply_txs c txs (record { utxo = m; spent = [] }) in
        get_utxo r (rollback_txs c txs t.spent t.utxo) ≡ get_utxo r m
  unfolding rollback_txs last_of
  rollback_txs-apply_txs m txs a r = elim (Bool-cases (among r (created c txs))) [
    | inl made ↦ ground (arith, step, gone, a.fresh r made, a.stored r, unspent)
    | inr other ↦ ground (arith, step, gone, (kept other).known)
  ]
    where
      t : Tables
      t = apply_txs c txs (record { utxo = m; spent = [] })

      step :
          get_utxo r (restore_all t.spent (uncreate_txs c (reverse txs) t.utxo))
          ≡ or_else (last_of r t.spent) (get_utxo r (uncreate_txs c (reverse txs) t.utxo))
      step = get-restore_all r t.spent (uncreate_txs c (reverse txs) t.utxo)

      gone :
          get_utxo r (uncreate_txs c (reverse txs) t.utxo)
          ≡ (if among r (created c txs) then none else get_utxo r t.utxo)
      gone = get-uncreate_txs r txs t.utxo

      unspent : among r (consumed txs) ≡ false → last_of r t.spent ≡ none
      unspent e = last_of-apply_txs r txs (record { utxo = m; spent = [] }) e

      kept : among r (created c txs) ≡ false → Keeps m r t
      kept e =
          apply_txs-Keeps m r txs (record { utxo = m; spent = [] }) e
            (record { known = refl; once = inl refl })
