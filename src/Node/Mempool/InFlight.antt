-- ===== src/Node/Mempool/InFlight.antt =====
-- The references that the pool's transactions hold, as `hold_inputs` and `release_inputs` change them.
use better_call_chain.Prelude.{
  ℕ, ◌≡◌, refl, true, false, not, ◌&&◌, ◌||◌, List, [], ◌∷◌, Option, none, some, arith,
}
use better_call_chain.Prelude.Maps.{contains, add as set_add, delete, contains-add, contains-delete}
use better_call_chain.Core.Types.{TxOutRef, TxInput, Transaction, out_ref_discrete}
use better_call_chain.Core.Utxo.Rollback.{among}
use better_call_chain.Core.Utxo.Supply.{refs}
use better_call_chain.Node.Mempool.{value_of, hold_inputs, release_inputs, conflicts}

pub among-hold :
    (r : TxOutRef) (is : List TxInput) (s : List TxOutRef)
    → among r (hold_inputs is s) ≡ (among r (refs is) || among r s)
unfolding hold_inputs contains
among-hold r [] s = refl
among-hold r (i ∷ is) s = ground (
  arith,
  among-hold r is (set_add out_ref_discrete i.out_ref s),
  contains-add out_ref_discrete r i.out_ref s,
)

pub among-release :
    (r : TxOutRef) (is : List TxInput) (s : List TxOutRef)
    → among r (release_inputs is s) ≡ (not (among r (refs is)) && among r s)
unfolding release_inputs contains
among-release r [] s = refl
among-release r (i ∷ is) s = ground (
  arith,
  among-release r is (delete out_ref_discrete i.out_ref s),
  contains-delete out_ref_discrete r i.out_ref s,
)

pub conflicts_none :
    (r : TxOutRef) (is : List TxInput) (s : List TxOutRef)
    → conflicts is s ≡ false
    → among r (refs is) ≡ true
    → among r s ≡ false
unfolding conflicts contains
conflicts_none r [] s h e = absurd (cc)
conflicts_none r (i ∷ is) s h e = ground (arith, conflicts_none r is s)

pub conflicts_some :
    (r : TxOutRef) (is : List TxInput) (s : List TxOutRef)
    → among r (refs is) ≡ true
    → among r s ≡ true
    → conflicts is s ≡ true
unfolding conflicts contains
conflicts_some r [] s h e = absurd (cc)
conflicts_some r (i ∷ is) s h e = ground (arith, conflicts_some r is s)

abbrev pub value_in : Option Transaction → Option ℕ
value_in none = none
value_in (some tx) = some (value_of tx)
