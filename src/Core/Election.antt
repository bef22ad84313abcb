-- ===== src/Core/Election.antt =====
-- crates/bcc-core/src/consensus/pos.rs
pub mod Scan
pub mod Fairness
use better_call_chain.Prelude.{
  ℕ, zero, suc, ◌+◌, ◌*◌, ◌/◌, ◌%◌, List, [], ◌∷◌, ◌++◌, map, Option, none, some, if◌then◌else◌,
  ltb, ◌==◌, take,
}
use better_call_chain.Prelude.Words.{add_u64, sum_u64}
use better_call_chain.Core.Types.{Bytes, BlockHash, Validator}
use better_call_chain.Core.Crypto.{Crypto, sha256d}

-- `to_le_bytes` on `n` bytes, and `from_le_bytes`.
unfoldable pub le_bytes : ℕ → ℕ → Bytes
le_bytes zero x = []
le_bytes (suc n) x = (x % 256) ∷ le_bytes n (x / 256)

unfoldable pub of_le_bytes : Bytes → ℕ
of_le_bytes [] = 0
of_le_bytes (b ∷ bs) = b + 256 * of_le_bytes bs

-- The weighted linear scan: `acc` is the stake of the validators that it has passed.
unfoldable pub scan : ℕ → ℕ → List Validator → Option Validator
scan pick acc [] = none
scan pick acc (v ∷ vs) =
    let reached = add_u64 acc v.stake in if ltb pick reached then some v else scan pick reached vs

abbrev pub stakes : List Validator → List ℕ
stakes = map (λ v. v.stake)

-- The body after the seed: an empty set or no stake elects nobody.
unfoldable pub elect_at : ℕ → List Validator → Option Validator
elect_at seed [] = none
elect_at seed (v ∷ vs) =
    let total_stake = sum_u64 (stakes (v ∷ vs)) in
    if total_stake == 0 then none else scan (seed % total_stake) 0 (v ∷ vs)

module _ (c : Crypto) where
  -- The first eight bytes of sha256d(prev_hash || slot).
  unfoldable pub seed_of : ℕ → BlockHash → ℕ
  seed_of slot prev_hash = of_le_bytes (take 8 (sha256d c (prev_hash ++ le_bytes 8 slot)))

  unfoldable pub elect_proposer : ℕ → BlockHash → List Validator → Option Validator
  elect_proposer slot prev_hash validators = elect_at (seed_of slot prev_hash) validators
