-- ===== src/Core/Election/Fairness.antt =====
-- Over all values of the seed, a validator wins in proportion to its stake.
use better_call_chain.Prelude.{
  ℕ, zero, suc, ◌+◌, ◌%◌, ◌≤◌, ◌<◌, ◌≡◌, refl, ◌∙◌, Bool, false, List, [], ◌∷◌, Option, none, some,
  arith, if◌then◌else◌,
}
use better_call_chain.Prelude.Words.{u64_mod, total}
use better_call_chain.Core.Types.{Validator}
use better_call_chain.Core.Election.{scan, elect_at}
use better_call_chain.Core.Election.Scan.{staked, scan_skip, scan_take, elect_at-scan}

-- How many of the `n` numbers from `lo` pass the test.
pub count : ℕ → ℕ → (ℕ → Bool) → ℕ
count lo zero f = 0
count lo (suc n) f = (if f lo then 1 else 0) + count (lo + 1) n f

-- The stake of the validators that pass the test.
pub weight : (Validator → Bool) → List Validator → ℕ
weight p [] = 0
weight p (v ∷ vs) = (if p v then v.stake else 0) + weight p vs

abbrev pub won : (Validator → Bool) → Option Validator → Bool
won p none = false
won p (some v) = p v

count_add : (lo m n : ℕ) (f : ℕ → Bool) → count lo (m + n) f ≡ count lo m f + count (lo + m) n f
unfolding count
count_add lo zero n f =
    let e : 0 + n ≡ n = omega arith in
    let e' : lo + 0 ≡ lo = omega arith in rw (e, e') (omega arith)
count_add lo (suc m) n f =
    let e : suc m + n ≡ suc (m + n) = omega arith in
    let e' : lo + 1 + m ≡ lo + suc m = omega arith in
    rw e (rw (← e') (omega (arith, count_add (lo + 1) m n f)))

count_ext :
    (lo n : ℕ) (f g : ℕ → Bool)
    → ((r : ℕ) → lo ≤ r → r < lo + n → f r ≡ g r)
    → count lo n f ≡ count lo n g
unfolding count
count_ext lo zero f g h = refl
count_ext lo (suc n) f g h = rw (
  h lo (omega arith) (omega arith),
  count_ext (lo + 1) n f g (λ r p q. h r (omega arith) (omega arith)),
)

count_const : (lo n : ℕ) (b : Bool) → count lo n (λ _. b) ≡ (if b then n else 0)
unfolding count
count_const lo zero b = ground arith
count_const lo (suc n) b = ground (arith, count_const (lo + 1) n b)

module _ (p : Validator → Bool) where
  count-scan :
      (acc : ℕ) (vs : List Validator)
      → acc + staked vs < u64_mod
      → count acc (staked vs) (λ r. won p (scan r acc vs)) ≡ weight p vs
  unfolding count weight total
  count-scan acc [] bound = refl
  count-scan acc (v ∷ vs) bound =
      count_add acc v.stake (staked vs) (λ r. won p (scan r acc (v ∷ vs)))
      ∙ omega (arith, head, tail, count-scan (acc + v.stake) vs (omega arith))
    where
      head : count acc v.stake (λ r. won p (scan r acc (v ∷ vs))) ≡ (if p v then v.stake else 0)
      head =
          count_ext acc v.stake _ (λ _. p v)
            (λ r _ q. rw (scan_take r acc v vs q (omega arith)) refl)
          ∙ count_const acc v.stake (p v)

      tail :
          count (acc + v.stake) (staked vs) (λ r. won p (scan r acc (v ∷ vs)))
          ≡ count (acc + v.stake) (staked vs) (λ r. won p (scan r (acc + v.stake) vs))
      tail =
          count_ext (acc + v.stake) (staked vs) _ _
            (λ r q _. rw (scan_skip r acc v vs q (omega arith)) refl)

  -- Of the seeds below the total stake, as many elect a validator that passes the test as such
  -- validators have staked, while the total stake is positive and fits in 64 bits.
  pub count-elect_at :
      (vs : List Validator)
      → 0 < staked vs
      → staked vs < u64_mod
      → count 0 (staked vs) (λ seed. won p (elect_at seed vs)) ≡ weight p vs
  count-elect_at vs pos bound =
      count_ext 0 (staked vs) _ (λ r. won p (scan r 0 vs))
        (λ r _ q.
          let e : r % staked vs ≡ r = grind arith in rw (elect_at-scan r vs pos bound, e) refl)
      ∙ count-scan 0 vs (omega arith)
