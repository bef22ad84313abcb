-- ===== src/Client/Wallet/Selection.antt =====
-- `select_coins`: an affordable target is met by the smallest outputs that reach it.
use mathlib.Core.List.Permᴰ
use mathlib.Core.List.{Perm, Permᴰ, append_assoc}
use better_call_chain.Prelude.{
  ℕ, ◌+◌, ◌-◌, ◌≤◌, ◌<◌, ◌≡◌, ◌≢◌, refl, ap, sym, subst, ◌∙◌, ◌⊎◌, inl, inr, List, [], ◌∷◌, ◌++◌,
  Option, none, some, Result, ok, err, ok_or, if_both, ltb, leb, arith, All, All-map, min,
}
use better_call_chain.Prelude.Words.{u64_mod, total, sum_u64, saturating_add}
use better_call_chain.Client.Errors.{ClientError, insufficient_funds}
use better_call_chain.Client.Wallet.{
  UtxoItem, CoinSelection, sort_in, sort_by_amount, pick, values, select_coins,
}

-- The amounts rise along the list.
abbrev pub Rising : List UtxoItem → Type 0
Rising [] = Unit
Rising (u ∷ us) = All (λ v. u.amount ≤ v.amount) us × Rising us

pub sort_in-All :
    (P : UtxoItem → Type 0) (u : UtxoItem) (l : List UtxoItem) → P u → All P l → All P (sort_in u l)
unfolding sort_in
sort_in-All P u [] h k = (h, tt)
sort_in-All P u (v ∷ l) h k =
    if_both (All P) (ltb v.amount u.amount) (λ _. (k.0, sort_in-All P u l h k.1)) (λ _. (h, k))

pub sort_by_amount-All :
    (P : UtxoItem → Type 0) (l : List UtxoItem) → All P l → All P (sort_by_amount l)
unfolding sort_by_amount
sort_by_amount-All P [] h = tt
sort_by_amount-All P (u ∷ l) h = sort_in-All P u (sort_by_amount l) h.0 (sort_by_amount-All P l h.1)

sort_in-Rising : (u : UtxoItem) (l : List UtxoItem) → Rising l → Rising (sort_in u l)
unfolding sort_in
sort_in-Rising u [] d = (tt, tt)
sort_in-Rising u (v ∷ l) d =
    if_both Rising (ltb v.amount u.amount)
      (λ t. (
        sort_in-All (λ w. v.amount ≤ w.amount) u l (ground (arith, t)) d.0,
        sort_in-Rising u l d.1,
      ))
      (λ t. ((ground (arith, t), All-map (λ w h. ground (arith, t, h)) l d.0), d))

sort_by_amount-Rising : (l : List UtxoItem) → Rising (sort_by_amount l)
unfolding sort_by_amount
sort_by_amount-Rising [] = tt
sort_by_amount-Rising (u ∷ l) = sort_in-Rising u (sort_by_amount l) (sort_by_amount-Rising l)

total-sort_in :
    (u : UtxoItem) (l : List UtxoItem) → total (values (sort_in u l)) ≡ u.amount + total (values l)
unfolding sort_in total
total-sort_in u [] = refl
total-sort_in u (v ∷ l) = ground (arith, total-sort_in u l)

pub total-sort_by_amount :
    (l : List UtxoItem) → total (values (sort_by_amount l)) ≡ total (values l)
unfolding sort_by_amount total
total-sort_by_amount [] = refl
total-sort_by_amount (u ∷ l) =
    omega (arith, total-sort_in u (sort_by_amount l), total-sort_by_amount l)

-- A sum as `saturating_add` makes it.
abbrev pub saturated : List UtxoItem → ℕ
saturated us = min (total (values us)) (u64_mod - 1)

pub total-append :
    (l m : List UtxoItem) → total (values (l ++ m)) ≡ total (values l) + total (values m)
unfolding total
total-append [] m = omega arith
total-append (u ∷ l) m = omega (arith, total-append l m)

more :
    (l : List UtxoItem) (u : UtxoItem)
    → saturating_add (saturated l) u.amount ≡ saturated (l ++ u ∷ [])
unfolding total
more l u = omega (arith, total-append l (u ∷ []))

-- The selection is the shortest start of the sorted outputs that reaches the target, if one output
-- has to be taken.
pub record IsSelection (sorted : List UtxoItem) (target : ℕ) (s : CoinSelection) : Type 0 where
  pub before : List UtxoItem
  pub last : UtxoItem
  pub rest : List UtxoItem
  pub start : sorted ≡ before ++ last ∷ rest
  pub taken : s.selected ≡ before ++ last ∷ []
  pub added : s.sum ≡ saturated s.selected
  pub reached : target ≤ s.sum
  pub needed : (before ≡ []) ⊎ (saturated before < target)

-- What `pick` gives after the outputs `selected`.
abbrev Picked : ℕ → List UtxoItem → List UtxoItem → Option CoinSelection → Type 0
Picked target selected us none = (selected ++ us ≡ []) ⊎ (saturated (selected ++ us) < target)
Picked target selected us (some s) = IsSelection (selected ++ us) target s

later :
    (target : ℕ) (selected : List UtxoItem) (u : UtxoItem) (us : List UtxoItem)
    (o : Option CoinSelection)
    → saturated (selected ++ u ∷ []) < target
    → Picked target (selected ++ u ∷ []) us o
    → Picked target selected (u ∷ us) o
unfolding total
later target selected u us none short (inl e) = inl (sym (append_assoc selected (u ∷ []) us) ∙ e)
later target selected u us none short (inr h) = inr (
    omega (
      arith,
      h,
      total-append (selected ++ u ∷ []) us,
      total-append selected (u ∷ []),
      total-append selected (u ∷ us),
    ))
later target selected u us (some s) short h =
    subst (λ x. IsSelection x target s) (append_assoc selected (u ∷ []) us) h

pick-Picked :
    (target : ℕ) (selected : List UtxoItem) (us : List UtxoItem)
    → (selected ≡ []) ⊎ (saturated selected < target)
    → Picked target selected us (pick target selected (saturated selected) us)
unfolding pick total
pick-Picked target selected [] (inl e) = inl (ap (λ l. l ++ []) e)
pick-Picked target selected [] (inr h) = inr (omega (arith, h, total-append selected []))
pick-Picked target selected (u ∷ us) short =
    let added : saturating_add (saturated selected) u.amount ≡ saturated (selected ++ u ∷ []) =
      more selected u in
    rw added (
      if_both (Picked target selected (u ∷ us)) (leb target (saturated (selected ++ u ∷ [])))
        (λ t. record {
          before = selected;
          last = u;
          rest = us;
          start = refl;
          taken = refl;
          added = refl;
          reached = ground (arith, t);
          needed = short;
        })
        (λ t.
          later target selected u us _ (ground (arith, t))
            (pick-Picked target (selected ++ u ∷ []) us (inr (ground (arith, t))))))

sort_in-perm : (u : UtxoItem) (l : List UtxoItem) → Permᴰ (sort_in u l) (u ∷ l)
unfolding sort_in
sort_in-perm u [] = Permᴰ.refl (u ∷ [])
sort_in-perm u (v ∷ l) =
    if_both (λ x. Permᴰ x (u ∷ v ∷ l)) (ltb v.amount u.amount)
      (λ _. Permᴰ.trans (Permᴰ.cons refl (sort_in-perm u l)) (Permᴰ.swap refl refl))
      (λ _. Permᴰ.refl (u ∷ v ∷ l))

sort_by_amount-perm : (l : List UtxoItem) → Permᴰ (sort_by_amount l) l
unfolding sort_by_amount
sort_by_amount-perm [] = Permᴰ.nil
sort_by_amount-perm (u ∷ l) =
    Permᴰ.trans (sort_in-perm u (sort_by_amount l)) (Permᴰ.cons refl (sort_by_amount-perm l))

sort_in-full : (u : UtxoItem) (l : List UtxoItem) → sort_in u l ≢ []
unfolding sort_in
sort_in-full u [] = λ e. absurd (cc e)
sort_in-full u (v ∷ l) =
    if_both (λ x. x ≢ []) (ltb v.amount u.amount) (λ _ e. absurd (cc e)) (λ _ e. absurd (cc e))

sort_by_amount-nil : (l : List UtxoItem) → sort_by_amount l ≡ [] → l ≡ []
unfolding sort_by_amount
sort_by_amount-nil [] e = refl
sort_by_amount-nil (u ∷ l) e = absurd (sort_in-full u (sort_by_amount l) e)

-- What the answer of `select_coins` says of the outputs.
abbrev pub Selects : List UtxoItem → ℕ → Result ClientError CoinSelection → Type 0
Selects utxos target (ok s) = IsSelection (sort_by_amount utxos) target s
Selects utxos target (err e) =
    (e ≡ insufficient_funds (sum_u64 (values utxos)) target)
    × ((utxos ≡ []) ⊎ (saturated utxos < target))

answer :
    (utxos : List UtxoItem) (target : ℕ) (o : Option CoinSelection)
    → Picked target [] (sort_by_amount utxos) o
    → Selects utxos target (ok_or o (insufficient_funds (sum_u64 (values utxos)) target))
answer utxos target (some s) h = h
answer utxos target none (inl e) = (refl, inl (sort_by_amount-nil utxos e))
answer utxos target none (inr h) = (refl, inr (omega (arith, h, total-sort_by_amount utxos)))

-- `select_coins` sorts the outputs, each kept, by rising amount, and takes the shortest start of
-- one output at least that reaches the target. Without such a start there are no outputs or all
-- together are too little, and the error says what there is and what is needed.
pub select_coins-Selects :
    (utxos : List UtxoItem) (target : ℕ)
    → Rising (sort_by_amount utxos)
      × Perm (sort_by_amount utxos) utxos
      × Selects utxos target (select_coins utxos target)
unfolding select_coins total
select_coins-Selects utxos target = (
  sort_by_amount-Rising utxos,
  ∣ sort_by_amount-perm utxos ∣₁,
  answer utxos target _ (pick-Picked target [] (sort_by_amount utxos) (inl refl)),
)
