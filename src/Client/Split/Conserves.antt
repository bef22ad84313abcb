-- ===== src/Client/Split/Conserves.antt =====
-- Whatever the node answers, a split ends, and it loses nothing.
use better_call_chain.Prelude.{
  ℕ, zero, suc, ◌+◌, ◌-◌, ◌≤◌, ◌<◌, ◌≡◌, refl, sym, ap, subst, ◌⊎◌, inl, inr, Bool-cases, List, [],
  ◌∷◌, Option, none, some, Result, ok, err, ltb, leb, length, take-all_le, arith,
}
use better_call_chain.Prelude.Words.{total}
use better_call_chain.Core.Types.{Bytes, Address}
use better_call_chain.Core.Crypto.{Crypto}
use better_call_chain.Client.Wallet.{UtxoItem}
use better_call_chain.Client.Split.{
  SplitError, Node, split_round, finish, after, split_rounds, split_utxo,
}
use better_call_chain.Client.Split.Rounds.{sum_of, split_round-worth}

-- The split returns, with an error or with at most as many outputs as asked for, of the given worth.
abbrev pub Splits : ℕ → ℕ → Option (Result SplitError (List UtxoItem)) → Type 0
Splits target amount o =
    ((e : SplitError) × (o ≡ some (err e)))
    ⊎ ((us : List UtxoItem) × (o ≡ some (ok us)) × (sum_of us ≡ amount) × (length us ≤ target))

finish-Splits :
    (target : ℕ) (current : List UtxoItem)
    → length current ≤ target
    → Splits target (sum_of current) (finish target current)
finish-Splits target current h =
    inr (current, ap (λ us. some (ok us)) (take-all_le target current h), refl, h)

module _ (c : Crypto) (key : Bytes) (addr : Address) where
  after-Splits :
      (more : List UtxoItem → Option (Result SplitError (List UtxoItem))) (target : ℕ)
      (current : List UtxoItem) (r : Result SplitError (Option (List UtxoItem)))
      → length current ≤ target
      → ((next : List UtxoItem) → r ≡ ok (some next) → Splits target (sum_of current) (more next))
      → Splits target (sum_of current) (after more target current r)
  after-Splits more target current (err e) h rest = inl (e, refl)
  after-Splits more target current (ok none) h rest = finish-Splits target current h
  after-Splits more target current (ok (some next)) h rest = rest next refl

  split_rounds-Splits :
      (fuel : ℕ) (node : Node) (round target : ℕ) (current : List UtxoItem)
      → length current ≤ target
      → target - length current < fuel
      → Splits target (sum_of current) (split_rounds c key addr fuel node round target current)
  unfolding split_rounds
  split_rounds-Splits zero node round target current h f = absurd (omega arith)
  split_rounds-Splits (suc fuel) node round target current h f =
      elim (Bool-cases (ltb (length current) target)) [
        | inr full ↦ rw full (finish-Splits target current h)
        | inl less ↦ rw less (
            after-Splits (λ next. split_rounds c key addr fuel node (round + 1) target next) target
              current (split_round c key addr node round target current) h
              (λ next e.
                let (same, grown, fits) =
                  split_round-worth c key addr node round target current next (ground arith) e in
                rw (← same)
                  (split_rounds-Splits fuel node (round + 1) target next fits (omega arith))))
      ]

  -- Whatever the node answers in whichever round, `split_utxo` ends within as many rounds as outputs
  -- are asked for: with an error, or with at most as many outputs as asked for, one if none are
  -- asked for, which together are worth the given output.
  pub split_utxo-Splits :
      (fuel : ℕ) (node : Node) (input_utxo : UtxoItem) (target : ℕ)
      → target < fuel
      → Splits
          (suc (target - 1))
          input_utxo.amount
          (split_utxo c key addr fuel node input_utxo target)
  unfolding split_utxo total
  split_utxo-Splits fuel node input_utxo target h = elim (Bool-cases (leb target 1)) [
    | inl single ↦ rw single (inr (input_utxo ∷ [], refl, omega arith, omega arith))
    | inr many ↦
        let bound : suc (target - 1) ≡ target = ground (arith, many) in
        let alone : input_utxo.amount ≡ sum_of (input_utxo ∷ []) = omega arith in
        rw (many, bound)
          (subst
            (λ amount.
              Splits target amount (split_rounds c key addr fuel node 0 target (input_utxo ∷ [])))
            (sym alone)
            (split_rounds-Splits fuel node 0 target (input_utxo ∷ []) (ground (arith, many))
              (omega arith)))
  ]
