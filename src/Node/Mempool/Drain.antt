-- ===== src/Node/Mempool/Drain.antt =====
-- `Mempool::drain`: the most valuable transactions of the pool first.
use mathlib.Core.List.Permᴰ
use mathlib.Core.List.{Perm, Permᴰ}
use better_call_chain.Prelude.{
  length, length-map, length-take-le, ℕ, zero, suc, ◌≤◌, ◌≡◌, refl, ap, subst, List, [], ◌∷◌, map,
  some, ltb, if_both, arith, All, All-map, take,
}
use better_call_chain.Core.Types.{TxHash, Transaction}
use better_call_chain.Core.Crypto.{Crypto}
use better_call_chain.Core.Merkle.{tx_hash}
use better_call_chain.Node.IndexMap.{IndexMap}
use better_call_chain.Node.Mempool.{
  Mempool, value_of, get_value, or_zero, sort_in_desc, sort_desc, drain,
}
use better_call_chain.Node.Mempool.Invariant.{IsConsistent}

abbrev Entry : Type 0
Entry = ℕ × Transaction

-- The values fall along the list.
abbrev pub Falling : {A : Type 0} → (A → ℕ) → List A → Type 0
Falling f [] = Unit
Falling f (x ∷ l) = All (λ y. f y ≤ f x) l × Falling f l

Falling-map :
    (l : List Entry)
    → All (λ e. e.0 ≡ value_of e.1) l
    → Falling (λ e. e.0) l
    → Falling value_of (map (λ e. e.1) l)
Falling-map [] h d = tt
Falling-map (e ∷ l) h d = (below l h.1 d.0, Falling-map l h.1 d.1)
  where
    below :
        (m : List Entry)
        → All (λ f. f.0 ≡ value_of f.1) m
        → All (λ f. f.0 ≤ e.0) m
        → All (λ t. value_of t ≤ value_of e.1) (map (λ f. f.1) m)
    below [] h d = tt
    below (f ∷ m) k d = (omega (arith, k.0, d.0, h.0), below m k.1 d.1)

sort_in_desc-All :
    (P : Entry → Type 0) (e : Entry) (l : List Entry) → P e → All P l → All P (sort_in_desc e l)
unfolding sort_in_desc
sort_in_desc-All P e [] h k = (h, tt)
sort_in_desc-All P e (f ∷ l) h k =
    if_both (All P) (ltb e.0 f.0) (λ _. (k.0, sort_in_desc-All P e l h k.1)) (λ _. (h, k))

sort_desc-All : (P : Entry → Type 0) (l : List Entry) → All P l → All P (sort_desc l)
unfolding sort_desc
sort_desc-All P [] h = tt
sort_desc-All P (e ∷ l) h = sort_in_desc-All P e (sort_desc l) h.0 (sort_desc-All P l h.1)

sort_in_desc-Falling :
    (e : Entry) (l : List Entry) → Falling (λ f. f.0) l → Falling (λ f. f.0) (sort_in_desc e l)
unfolding sort_in_desc
sort_in_desc-Falling e [] d = (tt, tt)
sort_in_desc-Falling e (f ∷ l) d =
    if_both (Falling (λ x. x.0)) (ltb e.0 f.0)
      (λ t. (
        sort_in_desc-All (λ x. x.0 ≤ f.0) e l (ground (arith, t)) d.0,
        sort_in_desc-Falling e l d.1,
      ))
      (λ t. ((ground (arith, t), All-map (λ x h. ground (arith, t, h)) l d.0), d))

sort_desc-Falling : (l : List Entry) → Falling (λ f. f.0) (sort_desc l)
unfolding sort_desc
sort_desc-Falling [] = tt
sort_desc-Falling (e ∷ l) = sort_in_desc-Falling e (sort_desc l) (sort_desc-Falling l)

sort_in_desc-perm : (e : Entry) (l : List Entry) → Permᴰ (sort_in_desc e l) (e ∷ l)
unfolding sort_in_desc
sort_in_desc-perm e [] = Permᴰ.refl (e ∷ [])
sort_in_desc-perm e (f ∷ l) =
    if_both (λ x. Permᴰ x (e ∷ f ∷ l)) (ltb e.0 f.0)
      (λ _. Permᴰ.trans (Permᴰ.cons refl (sort_in_desc-perm e l)) (Permᴰ.swap refl refl))
      (λ _. Permᴰ.refl (e ∷ f ∷ l))

sort_desc-perm : (l : List Entry) → Permᴰ (sort_desc l) l
unfolding sort_desc
sort_desc-perm [] = Permᴰ.nil
sort_desc-perm (e ∷ l) =
    Permᴰ.trans (sort_in_desc-perm e (sort_desc l)) (Permᴰ.cons refl (sort_desc-perm l))

take-map : (n : ℕ) (l : List Entry) → map (λ e. e.1) (take n l) ≡ take n (map (λ e. e.1) l)
take-map zero l = refl
take-map (suc n) [] = refl
take-map (suc n) (e ∷ l) = ap (λ m. e.1 ∷ m) (take-map n l)

module _ (c : Crypto) (im : IndexMap) where
  abbrev entry : Mempool im → Transaction → Entry
  entry p tx = (or_zero (get_value (tx_hash c tx) p.values), tx)

  seconds : (p : Mempool im) (l : List Transaction) → map (λ e. e.1) (map (entry p) l) ≡ l
  seconds p [] = refl
  seconds p (tx ∷ l) = ap (λ m. tx ∷ m) (seconds p l)

  entries-valued :
      (p : Mempool im)
      → IsConsistent c im p
      → (l : List Transaction) → All (λ tx. (k : TxHash) × (im.get k p.txs ≡ some tx)) l
      → All (λ e. e.0 ≡ value_of e.1) (map (entry p) l)
  entries-valued p w [] h = tt
  entries-valued p w (tx ∷ l) ((k, g), h) =
      (ground (arith, w.valued k, w.keyed k tx g, g), entries-valued p w l h)

  -- What `drain` returns is the beginning of a list of all pooled transactions, each exactly as
  -- often as the pool has it, whose values fall.
  pub drain-Falling :
      (max : ℕ) (p : Mempool im)
      → IsConsistent c im p
      → (pooled : List Transaction) × Perm pooled (im.values p.txs)
        × Falling value_of pooled
        × (drain c im max p ≡ take max pooled)
  unfolding drain
  drain-Falling max p w =
      let es = map (entry p) (im.values p.txs) in
      (
        map (λ e. e.1) (sort_desc es),
        subst (λ l. Perm (map (λ e. e.1) (sort_desc es)) l) (seconds p (im.values p.txs))
            ∣ Permᴰ.map (λ e. e.1) (sort_desc-perm es) ∣₁,
        Falling-map (sort_desc es)
            (sort_desc-All (λ e. e.0 ≡ value_of e.1) es
              (entries-valued p w (im.values p.txs) (im.values_stored p.txs)))
            (sort_desc-Falling es),
        take-map max (sort_desc es),
      )

  pub length-drain : (max : ℕ) (p : Mempool im) → length (drain c im max p) ≤ max
  unfolding drain
  length-drain max p =
      let es : List Entry = sort_desc (map (entry p) (im.values p.txs)) in
      omega (arith, length-map (λ (e : Entry). e.1) (take max es), length-take-le max es)
