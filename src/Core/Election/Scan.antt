-- ===== src/Core/Election/Scan.antt =====
-- The segments of the weighted scan of `elect_proposer`.
use better_call_chain.Prelude.{
  ℕ, ◌+◌, ◌%◌, ◌≤◌, ◌<◌, ◌≡◌, refl, ap, ◌∙◌, ◌-◌, List, [], ◌∷◌, ◌++◌, some, arith, dec_lt,
}
use better_call_chain.Prelude.Words.{u64_mod, add_u64, total, sum_u64-total}
use better_call_chain.Core.Types.{Validator}
use better_call_chain.Core.Election.{stakes, scan, elect_at}

-- The stake of all of them.
abbrev pub staked : List Validator → ℕ
staked vs = total (stakes vs)

-- `v` stands in the list behind `before`, and its segment holds `pick`.
pub record IsElected (pick : ℕ) (vs : List Validator) (v : Validator) : Type 0 where
  pub before : List Validator
  pub after : List Validator
  pub position : vs ≡ before ++ v ∷ after
  pub from : staked before ≤ pick
  pub until : pick < staked before + v.stake

pub scan_skip :
    (pick acc : ℕ) (v : Validator) (vs : List Validator)
    → acc + v.stake ≤ pick
    → acc + v.stake < u64_mod
    → scan pick acc (v ∷ vs) ≡ scan pick (acc + v.stake) vs
unfolding scan
scan_skip pick acc v vs h bound =
    let e : add_u64 acc v.stake ≡ acc + v.stake = omega arith in ground arith

pub scan_take :
    (pick acc : ℕ) (v : Validator) (vs : List Validator)
    → pick < acc + v.stake
    → acc + v.stake < u64_mod
    → scan pick acc (v ∷ vs) ≡ some v
unfolding scan
scan_take pick acc v vs h bound =
    let e : add_u64 acc v.stake ≡ acc + v.stake = omega arith in ground arith

-- One step of the list: an element that is elected behind the head is elected.
IsElected-cons :
    (pick : ℕ) (x : Validator) (vs : List Validator) {v : Validator} {k : ℕ}
    → k + x.stake ≡ pick
    → IsElected k vs v
    → IsElected pick (x ∷ vs) v
unfolding total
IsElected-cons pick x vs {v} e i = record {
  before = x ∷ i.before;
  after = i.after;
  position = ap (◌∷◌ x) i.position;
  from = omega arith;
  until = omega arith;
}

-- The scan from `acc` stops at the validator whose segment holds the pick.
scan-IsElected :
    (k acc : ℕ) (vs : List Validator)
    → k < staked vs
    → acc + staked vs < u64_mod
    → (v : Validator) × (scan (acc + k) acc vs ≡ some v) × IsElected k vs v
unfolding total
scan-IsElected k acc [] h bound = absurd (omega arith)
scan-IsElected k acc (x ∷ vs) h bound = elim (dec_lt k x.stake) [
  | yes p ↦ (
    x,
    scan_take (acc + k) acc x vs (omega arith) (omega arith),
    record { before = []; after = vs; position = refl; from = omega arith; until = omega arith },
  )
  | no p ↦
      let (v, e, i) = scan-IsElected (k - x.stake) (acc + x.stake) vs (omega arith) (omega arith) in
      let same : acc + x.stake + (k - x.stake) ≡ acc + k = omega arith in
      (
        v,
        scan_skip (acc + k) acc x vs (omega arith) (omega arith) ∙ (rw (← same) e),
        IsElected-cons k x vs {k = k - x.stake} (omega arith) i,
      )
]

-- The segments do not overlap: whoever holds the pick is the one that the scan finds.
scan-of_segment :
    (before after : List Validator) (pick acc : ℕ) (v : Validator)
    → acc + staked before ≤ pick
    → pick < acc + staked before + v.stake
    → acc + staked before + v.stake < u64_mod
    → scan pick acc (before ++ v ∷ after) ≡ some v
unfolding total
scan-of_segment [] after pick acc v from until bound =
    scan_take pick acc v after (omega arith) (omega arith)
scan-of_segment (x ∷ before) after pick acc v from until bound =
    scan_skip pick acc x (before ++ v ∷ after) (omega arith) (omega arith)
    ∙ scan-of_segment before after pick (acc + x.stake) v (omega arith) (omega arith) (omega arith)

-- While the total stake fits in 64 bits, `elect_at` is the scan from 0.
pub elect_at-scan :
    (seed : ℕ) (vs : List Validator)
    → 0 < staked vs
    → staked vs < u64_mod
    → elect_at seed vs ≡ scan (seed % staked vs) 0 vs
unfolding elect_at total
elect_at-scan seed [] pos bound = absurd (omega arith)
elect_at-scan seed (x ∷ vs) pos bound = rw (sum_u64-total (stakes (x ∷ vs)) bound) (ground arith)

-- With a positive total stake that fits in 64 bits, somebody is elected, and it is a validator
-- whose segment of the stake line holds the pick.
pub elect_at-IsElected :
    (seed : ℕ) (vs : List Validator)
    → 0 < staked vs
    → staked vs < u64_mod
    → (v : Validator) × (elect_at seed vs ≡ some v) × IsElected (seed % staked vs) vs v
elect_at-IsElected seed vs pos bound =
    let (v, e, i) = scan-IsElected (seed % staked vs) 0 vs (omega arith) (omega arith) in
    let same : 0 + seed % staked vs ≡ seed % staked vs = omega arith in
    (v, elect_at-scan seed vs pos bound ∙ (rw same at e), i)
