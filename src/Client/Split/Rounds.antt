-- ===== src/Client/Split/Rounds.antt =====
-- What one round makes of the outputs.
use better_call_chain.Prelude.{
  ℕ, ◌+◌, ◌*◌, ◌/◌, ◌≤◌, ◌<◌, ◌≡◌, refl, sym, ap, ◌∙◌, ◌⊎◌, inl, inr, Bool-cases, List, [], ◌∷◌,
  ◌++◌, some, ok, Result-cases, ltb, length, length-append, length-take, take, drop,
  take-append-drop, arith,
}
use mathlib.Core.List.{append_assoc, append-nil}
use better_call_chain.Prelude.Words.{total}
use better_call_chain.Core.Types.{Bytes, Address}
use better_call_chain.Core.Crypto.{Crypto}
use better_call_chain.Client.Wallet.{UtxoItem, values, build_transfer}
use better_call_chain.Client.Wallet.Selection.{total-append}
use better_call_chain.Client.Split.{
  Node, SplitEntry, Built, expected, entry_of, halve, split_one, build_all, push_all, submit,
  to_split, split_round,
}

-- The outputs of the entries, in the order in which they are pushed.
abbrev pub outs : List SplitEntry → List UtxoItem
outs [] = []
outs (e ∷ es) = e.out0 ∷ e.out1 ∷ outs es

abbrev pub sum_of : List UtxoItem → ℕ
sum_of us = total (values us)

abbrev pub worth : Built → ℕ
worth b = sum_of b.next + sum_of (outs b.built)

abbrev pub taken : Built → ℕ
taken b = length b.next + length b.built

pub outs-append : (xs ys : List SplitEntry) → outs (xs ++ ys) ≡ outs xs ++ outs ys
outs-append [] ys = refl
outs-append (e ∷ xs) ys = rw (outs-append xs ys)

sum_of-outs_append :
    (xs ys : List SplitEntry) → sum_of (outs (xs ++ ys)) ≡ sum_of (outs xs) + sum_of (outs ys)
sum_of-outs_append xs ys = ap sum_of (outs-append xs ys) ∙ total-append (outs xs) (outs ys)

pub length-outs : (es : List SplitEntry) → length (outs es) ≡ 2 * length es
length-outs [] = omega arith
length-outs (e ∷ es) = omega (arith, length-outs es)

module _ (c : Crypto) (key : Bytes) (addr : Address) where
  -- An output is kept, or made into an entry of the same worth.
  abbrev pub Pushed : UtxoItem → Built → Built → Type 0
  Pushed u b b' =
      ((u.amount < 2) × (b' ≡ record b { next = b.next ++ u ∷ [] }))
      ⊎ ((e : SplitEntry) × (2 ≤ u.amount)
          × (e.out0.amount + e.out1.amount ≡ u.amount)
          × (b' ≡ record b { built = b.built ++ e ∷ [] }))

  split_one-Pushed :
      (u : UtxoItem) (b b' : Built) → split_one c key addr u b ≡ ok b' → Pushed u b b'
  unfolding split_one halve
  split_one-Pushed u b b' h = elim (Bool-cases (ltb u.amount 2)) [
    | inl small ↦ inl (ground arith, ground (arith, h, small))
    | inr large ↦ elim (Result-cases (build_transfer c key (u ∷ []) addr (u.amount / 2) addr)) [
      | inr (e, f) ↦ absurd (ground (arith, h, large, f))
      | inl (tx, f) ↦ inr (
        entry_of c key addr u tx,
        ground arith,
        unfold entry_of in omega arith,
        ground (arith, h, large, f),
      )
    ]
  ]

  Pushed-worth : (u : UtxoItem) (b b' : Built) → Pushed u b b' → worth b' ≡ worth b + u.amount
  unfolding total
  Pushed-worth u b b' (inl (_, e)) = rw e (omega (arith, total-append b.next (u ∷ [])))
  Pushed-worth u b b' (inr (e, _, halves, f)) =
      rw f (omega (arith, halves, sum_of-outs_append b.built (e ∷ [])))

  Pushed-taken : (u : UtxoItem) (b b' : Built) → Pushed u b b' → taken b' ≡ taken b + 1
  Pushed-taken u b b' (inl (_, e)) = rw e (omega (arith, length-append {0} b.next (u ∷ [])))
  Pushed-taken u b b' (inr (e, _, _, f)) = rw f (omega (arith, length-append {0} b.built (e ∷ [])))

  Pushed-next : (u : UtxoItem) (b b' : Built) → Pushed u b b' → length b.next ≤ length b'.next
  Pushed-next u b b' (inl (_, e)) = rw e (omega (arith, length-append {0} b.next (u ∷ [])))
  Pushed-next u b b' (inr (e, _, _, f)) = rw f (omega arith)

  -- The loop of a round keeps the worth, and takes each output once.
  build_all-worth :
      (us : List UtxoItem) (b b' : Built)
      → build_all c key addr us b ≡ ok b'
      → (worth b' ≡ worth b + sum_of us)
        × (taken b' ≡ taken b + length us)
        × (length b.next ≤ length b'.next)
  unfolding build_all total
  build_all-worth [] b b' h =
      let e : b ≡ b' = cc (h) in rw (← e) (omega arith, omega arith, omega arith)
  build_all-worth (u ∷ us) b b' h = elim (Result-cases (split_one c key addr u b)) [
    | inr (e, f) ↦ absurd (ground (arith, h, f))
    | inl (m, f) ↦
        let pushed = split_one-Pushed u b m f in
        let (w, t, grows) = build_all-worth us m b' (ground (arith, h, f)) in
        (
          omega (arith, w, Pushed-worth u b m pushed),
          omega (arith, t, Pushed-taken u b m pushed),
          omega (arith, grows, Pushed-next u b m pushed),
        )
  ]

  push_all-outs :
      (node : Node) (round : ℕ) (es : List SplitEntry) (next r : List UtxoItem)
      → push_all c key addr node round es next ≡ ok r
      → r ≡ next ++ outs es
  unfolding push_all
  push_all-outs node round [] next r h = let e : next ≡ r = cc (h) in sym e ∙ sym (append-nil next)
  push_all-outs node round (e ∷ es) next r h = elim (Result-cases (node.post_tx round e.tx)) [
    | inr (x, f) ↦ absurd (ground (arith, h, f))
    | inl (_, f) ↦
        push_all-outs node round es (next ++ e.out0 ∷ e.out1 ∷ []) r (ground (arith, h, f))
        ∙ append_assoc next (e.out0 ∷ e.out1 ∷ []) (outs es)
  ]

  submit-outs :
      (node : Node) (round : ℕ) (es : List SplitEntry) (next r : List UtxoItem)
      → submit c key addr node round es next ≡ ok (some r)
      → (r ≡ next ++ outs es) × (0 < length es)
  unfolding submit
  submit-outs node round [] next r h = absurd (cc (h))
  submit-outs node round (e ∷ es) next r h =
      elim (Result-cases (push_all c key addr node round (e ∷ es) next)) [
        | inr (x, f) ↦ absurd (ground (arith, h, f))
        | inl (pushed, f) ↦ elim (Bool-cases (node.confirms round (expected (e ∷ es)))) [
          | inr late ↦ absurd (ground (arith, h, f, late))
          | inl seen ↦
              let same : pushed ≡ r = ground (arith, h, f, seen) in
              (sym same ∙ push_all-outs node round (e ∷ es) next pushed f, omega arith)
        ]
      ]

  -- A round that goes on keeps the sum, and has at least one output more, but not more than it may.
  pub split_round-worth :
      (node : Node) (round target : ℕ) (current r : List UtxoItem)
      → length current < target
      → split_round c key addr node round target current ≡ ok (some r)
      → (sum_of r ≡ sum_of current) × (length current < length r) × (length r ≤ target)
  unfolding split_round total
  split_round-worth node round target current r small h =
      let n = to_split target current in
      let b0 : Built = record { next = drop n current; built = [] } in
      elim (Result-cases (build_all c key addr (take n current) b0)) [
        | inr (x, f) ↦ absurd (ground (arith, h, f))
        | inl (b, f) ↦
            let (w, t, grows) = build_all-worth (take n current) b0 b f in
            let (e, some_built) = submit-outs node round b.built b.next r (ground (arith, h, f)) in
            let cut : take n current ++ drop n current ≡ current = take-append-drop n current in
            let lengths : length (take n current) + length (drop n current) ≡ length current =
              sym (length-append (take n current) (drop n current)) ∙ ap length cut in
            let sums : sum_of (take n current) + sum_of (drop n current) ≡ sum_of current =
              sym (total-append (take n current) (drop n current)) ∙ ap sum_of cut in
            rw e (
              omega (arith, w, total-append b.next (outs b.built), sums),
              omega (
                arith,
                t,
                lengths,
                length-append {0} b.next (outs b.built),
                length-outs b.built,
                some_built,
              ),
              omega (
                arith,
                t,
                lengths,
                length-append {0} b.next (outs b.built),
                length-outs b.built,
                length-take {0} n current,
                grows,
              ),
            )
      ]
