-- ===== src/Node/Mempool/Eviction.antt =====
-- What a full pool evicts, and that room is left then.
use better_call_chain.Prelude.{
  ℕ, ◌≤◌, ◌<◌, ◌≡◌, refl, sym, subst, Bool, true, false, List, [], ◌∷◌, Option, none, some,
  Option-cases, Bool-cases, ok, if◌then◌else◌, leb, ltb, arith, All, ◌⊎◌, inl, inr,
}
use mathlib.Core.List.{lookup}
use better_call_chain.Prelude.Maps.{lookup_entries}
use better_call_chain.Core.Types.{Bytes, TxHash, TxOutRef, TxInput, Transaction, bytes_discrete}
use better_call_chain.Core.Crypto.{Crypto}
use better_call_chain.Core.Utxo.Rollback.{among}
use better_call_chain.Node.IndexMap.{IndexMap}
use better_call_chain.Node.Mempool.{
  Mempool, value_of, get_value, min_from, min_entry, conflicts, remove_one, evict,
}
use better_call_chain.Node.Mempool.InFlight.{among-release}
use better_call_chain.Node.Mempool.Invariant.{IsConsistent, remove_one-IsConsistent, get-remove_one}

either :
    (b : Bool) (P : TxHash × ℕ → Type 0) {x y : TxHash × ℕ} → P x → P y → P (if b then x else y)
either true P h k = h
either false P h k = k

-- The entry that `min_by_key` chooses stands in the list, and no entry is below it.
min_from-least :
    (P : TxHash × ℕ → Type 0) (best : TxHash × ℕ) (m : List (TxHash × ℕ))
    → P best
    → All P m
    → P (min_from best m) × ((min_from best m).1 ≤ best.1) × All (λ e. (min_from best m).1 ≤ e.1) m
unfolding min_from
min_from-least P best [] h hs = (h, omega arith, tt)
min_from-least P best (e ∷ m) h hs =
    let r =
      min_from-least P (if ltb e.1 best.1 then e else best) m (either (ltb e.1 best.1) P hs.0 h)
        hs.1 in
    (r.0, ground (arith, r.1), (ground (arith, r.1), r.2))

min_entry-least :
    (P : TxHash × ℕ → Type 0) (m : List (TxHash × ℕ)) (least : TxHash × ℕ)
    → All P m
    → min_entry m ≡ some least
    → P least × All (λ e. least.1 ≤ e.1) m
unfolding min_entry
min_entry-least P [] least h e = absurd (cc)
min_entry-least P (f ∷ m) least h e =
    let r = min_from-least P f m h.0 h.1 in
    let same : min_from f m ≡ least = cc e in
    subst (λ x. P x × All (λ e. x.1 ≤ e.1) (f ∷ m)) same (r.0, (r.1, r.2))

pub min_entry-none :
    (m : List (TxHash × ℕ)) → min_entry m ≡ none → (k : TxHash) → get_value k m ≡ none
unfolding min_entry lookup
min_entry-none [] n k = refl
min_entry-none (f ∷ m) n k = absurd (cc (n))

lookup-le :
    (b : ℕ) (m : List (TxHash × ℕ)) (k : TxHash) (v : ℕ)
    → All (λ e. b ≤ e.1) m
    → get_value k m ≡ some v
    → b ≤ v
unfolding lookup
lookup-le b [] k v h e = absurd (cc)
lookup-le b (f ∷ m) k v h e = ground (arith, h.0, lookup-le b m k v h.1)

pub conflicts_idle :
    (is : List TxInput) (s t : List TxOutRef)
    → ((r : TxOutRef) → among r s ≡ false → among r t ≡ false)
    → conflicts is s ≡ false
    → conflicts is t ≡ false
unfolding conflicts
conflicts_idle [] s t f h = refl
conflicts_idle (i ∷ is) s t f h = ground (arith, f i.out_ref, conflicts_idle is s t f)

module _ (c : Crypto) (im : IndexMap) where
  -- What makes room in `p` for a new transaction of value `v`: nothing when the pool is not full,
  -- and else the entry of least value goes, which is below `v`.
  abbrev pub Evicts : ℕ → Mempool im → Mempool im → Option Bytes → Type 0
  Evicts v p room evicted =
      ((im.len p.txs < p.max_size) × (room ≡ p) × (evicted ≡ none))
      ⊎ ((k : TxHash) × (t : Transaction) × (p.max_size ≤ im.len p.txs)
          × (im.get k p.txs ≡ some t)
          × (value_of t < v)
          × ((j : TxHash) (u : Transaction) → im.get j p.txs ≡ some u → value_of t ≤ value_of u)
          × (room ≡ remove_one c im k p)
          × (evicted ≡ some (c.hex_encode k)))

  module _ (p : Mempool im) (w : IsConsistent c im p) where
    -- The entry that `evict` looks at.
    pub least_entry :
        (least : TxHash × ℕ)
        → min_entry p.values ≡ some least
        → (t : Transaction) × (im.get least.0 p.txs ≡ some t)
          × (value_of t ≡ least.1)
          × ((j : TxHash) (u : Transaction) → im.get j p.txs ≡ some u → value_of t ≤ value_of u)
    least_entry least e =
        let r =
          min_entry-least (λ f. get_value f.0 p.values ≡ some f.1) p.values least
            (lookup_entries bytes_discrete p.values w.distinct) e in
        elim (Option-cases (im.get least.0 p.txs)) [
          | inl n ↦ absurd (cc (w.valued least.0, r.0, n))
          | inr (t, g) ↦
              let same : value_of t ≡ least.1 = cc (w.valued least.0, r.0, g) in
              (
                t,
                g,
                same,
                λ j u h. omega (
                  arith,
                  same,
                  lookup-le least.1 p.values j (value_of u) r.1 (cc (w.valued j, h)),
                ),
              )
        ]

    pub evict-Evicts :
        (v : ℕ) {room : Mempool im} {evicted : Option Bytes}
        → evict c im v p ≡ ok (room, evicted)
        → Evicts v p room evicted
    unfolding evict
    evict-Evicts v h = elim (Bool-cases (leb p.max_size (im.len p.txs))) [
      | inl full ↦ elim (Option-cases (min_entry p.values)) [
        | inl n ↦ absurd (cc (h, full, n))
        | inr (least, e) ↦
            let (t, g, same, below) = least_entry least e in
            inr (
              least.0,
              t,
              ground (arith, full),
              g,
              ground (arith, h, full, e, same),
              below,
              ground (arith, h, full, e),
              ground (arith, h, full, e),
            )
      ]
      | inr space ↦ inl (ground (arith, space), ground (arith, h, space), ground (arith, h, space))
    ]

    -- What `p` has become when room is made in it.
    pub record HasRoom (x : Mempool im) : Type 0 where
      pub consistent : IsConsistent c im x
      pub room : im.len x.txs < x.max_size
      pub same_size : x.max_size ≡ p.max_size
      pub absent : (k : TxHash) → im.get k p.txs ≡ none → im.get k x.txs ≡ none
      pub idle : (r : TxOutRef) → among r p.in_flight ≡ false → among r x.in_flight ≡ false

    remove_one-HasRoom :
        (k : TxHash) {t : Transaction} → im.get k p.txs ≡ some t → HasRoom (remove_one c im k p)
    unfolding remove_one
    remove_one-HasRoom k {t} g = record {
      consistent = remove_one-IsConsistent c im p w k;
      room = ground (arith, g, w.bounded, im.len-swap_remove k t p.txs g);
      same_size = ground (arith, g);
      absent = λ j n. ground (arith, n, get-remove_one c im j k p);
      idle = λ r n. ground (arith, n, g, among-release r t.inputs p.in_flight);
    }

    pub Evicts-HasRoom :
        (v : ℕ) {room : Mempool im} {evicted : Option Bytes}
        → Evicts v p room evicted
        → HasRoom room
    Evicts-HasRoom v (inl (space, same, e)) =
        let here : HasRoom p = record {
          consistent = w;
          room = space;
          same_size = refl;
          absent = λ k n. n;
          idle = λ r n. n;
        } in
        subst HasRoom (sym same) here
    Evicts-HasRoom v (inr (k, t, full, g, below, least, same, e)) =
        subst HasRoom (sym same) (remove_one-HasRoom k g)
