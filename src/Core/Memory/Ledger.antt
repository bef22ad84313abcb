-- ===== src/Core/Memory/Ledger.antt =====
-- The UTXO set of the store, under blocks that `validate_block` accepts.
use better_call_chain.Prelude.{
  ℕ, ◌≤◌, ◌<◌, ◌≡◌, refl, ap, ◌≢◌, true, List, [], ◌∷◌, none, ok, ◌>>=◌, arith, All,
}
use better_call_chain.Prelude.Maps.{contains}
use better_call_chain.Prelude.Trees.{tree_get, tree_insert, tree_get-insert, tree_get-remove}
use better_call_chain.Prelude.Words.{u64_mod, total, sum_u64-total}
use better_call_chain.Core.Types.{TxOutRef, TxInput, TxOutput, Transaction, Block}
use better_call_chain.Core.Crypto.{Crypto}
use better_call_chain.Core.Validation.Transactions.{amounts, tx_signing_bytes}
use better_call_chain.Core.Validation.Transactions.Sound.{Spends, IsValidTx}
use better_call_chain.Core.Validation.Blocks.{AllActive, validate_block}
use better_call_chain.Core.Validation.Blocks.Sound.{validate_block_iff}
use better_call_chain.Core.Utxo.{Tables, get_utxo, consumed, created, apply_txs}
use better_call_chain.Core.Utxo.Rollback.{among, among-append, IsApplicable, rollback_txs-apply_txs}
use better_call_chain.Core.Utxo.Supply.{supply, refs, Holds, Distinct, IsFunded, supply-apply_txs}
use better_call_chain.Core.Memory.{MemoryStore, get_output, apply_block, rollback_block, spent_at}

module _ (c : Crypto) (s : MemoryStore) where
  Spends-Holds :
      (msg : List ℕ) (is : List TxInput) (os : List TxOutput)
      → Spends c (get_output s) msg is os
      → Holds s.utxo is os
  unfolding get_output
  Spends-Holds msg [] [] h = tt
  Spends-Holds msg [] (o ∷ os) h = h
  Spends-Holds msg (i ∷ is) [] h = h
  Spends-Holds msg (i ∷ is) (o ∷ os) h = (ground (arith, h.0), Spends-Holds msg is os h.3)

  Holds-stored :
      (r : TxOutRef) (is : List TxInput) (os : List TxOutput)
      → Holds s.utxo is os
      → among r (refs is) ≡ true
      → get_utxo r s.utxo ≢ none
  unfolding contains
  Holds-stored r [] os h e = absurd (cc)
  Holds-stored r (i ∷ is) [] h e = absurd h
  Holds-stored r (i ∷ is) (o ∷ os) h e = ground (arith, h.0, Holds-stored r is os h.1)

  valid-stored :
      (txs : List Transaction)
      → All (IsValidTx c (get_output s)) txs
      → (r : TxOutRef) → among r (consumed txs) ≡ true
      → get_utxo r s.utxo ≢ none
  unfolding consumed contains
  valid-stored [] v r e = absurd (cc)
  valid-stored (tx ∷ txs) v r e = ground (
    arith,
    among-append r (refs tx.inputs) (consumed txs),
    valid-stored txs v.1 r,
    Holds-stored r tx.inputs v.0.spent
        (Spends-Holds (tx_signing_bytes c tx) tx.inputs v.0.spent v.0.spends),
  )

  -- The outputs of each transaction add up below 2^64.
  abbrev pub Fits : List Transaction → Type 0
  Fits = All (λ tx. total (amounts tx.outputs) < u64_mod)

  valid-IsFunded :
      (txs : List Transaction)
      → All (IsValidTx c (get_output s)) txs
      → Fits txs
      → All (IsFunded s.utxo) txs
  valid-IsFunded [] v f = tt
  valid-IsFunded (tx ∷ txs) v f = (
    record {
      spent = v.0.spent;
      holds = Spends-Holds (tx_signing_bytes c tx) tx.inputs v.0.spent v.0.spends;
      funded = omega (arith, v.0.funded, sum_u64-total (amounts tx.outputs) f.0);
    },
    valid-IsFunded txs v.1 f.1,
  )

  module _ (parent block : Block) (active : AllActive) (duration : ℕ) where
    valid_txs :
        validate_block c block parent (get_output s) active duration ≡ ok tt
        → All (IsValidTx c (get_output s)) block.txs
    valid_txs accepted =
        ((validate_block_iff c (get_output s) active duration parent block).0 accepted).valid_txs

    applicable :
        validate_block c block parent (get_output s) active duration ≡ ok tt
        → ((r : TxOutRef) → among r (created c block.txs) ≡ true → get_utxo r s.utxo ≡ none)
        → IsApplicable c s.utxo block.txs
    applicable accepted fresh = record {
      fresh = fresh;
      stored = valid-stored block.txs (valid_txs accepted);
    }

    -- `apply_block` and then `rollback_block` of a block that `validate_block` accepts succeed and
    -- restore every unspent output, and the record of what other heights spent, and leave the blocks
    -- and the validators alone, when no output that the block creates was there before.
    pub rollback_block-apply_block :
        validate_block c block parent (get_output s) active duration ≡ ok tt
        → ((r : TxOutRef) → among r (created c block.txs) ≡ true → get_utxo r s.utxo ≡ none)
        → (back : MemoryStore) × ((apply_block c s block >>= λ after. rollback_block c after block)
            ≡ ok back)
          × ((r : TxOutRef) → get_output back r ≡ get_output s r)
          × ((h : ℕ) → h ≢ block.header.height → tree_get h back.spent ≡ tree_get h s.spent)
          × (back.blocks ≡ s.blocks)
          × (back.index ≡ s.index)
          × (back.validators ≡ s.validators)
    unfolding apply_block rollback_block get_output
    rollback_block-apply_block accepted fresh = (
      _,
      refl,
      λ r.
          ap ok
            (rw restored (rollback_txs-apply_txs c s.utxo block.txs (applicable accepted fresh) r)),
      λ h ne. ground (
        arith,
        tree_get-remove h height (tree_insert height t.spent s.spent),
        tree_get-insert h height t.spent s.spent,
      ),
      refl,
      refl,
      refl,
    )
      where
        height : ℕ
        height = block.header.height

        t : Tables
        t = apply_txs c block.txs (record { utxo = s.utxo; spent = [] })

        restored : spent_at height (tree_insert height t.spent s.spent) ≡ t.spent
        restored = ground (arith, tree_get-insert height height t.spent s.spent)

    -- A block that `validate_block` accepts is applied and does not raise the sum of the unspent
    -- outputs, when the outputs that it creates are new and add up below 2^64 in each transaction,
    -- and no two of its inputs name the same output.
    pub supply-apply_block :
        validate_block c block parent (get_output s) active duration ≡ ok tt
        → ((r : TxOutRef) → among r (created c block.txs) ≡ true → get_utxo r s.utxo ≡ none)
        → Fits block.txs
        → Distinct (consumed block.txs)
        → (after : MemoryStore) × (apply_block c s block ≡ ok after)
          × (supply after.utxo ≤ supply s.utxo)
    unfolding apply_block
    supply-apply_block accepted fresh fits distinct = (
      _,
      refl,
      supply-apply_txs c s.utxo block.txs (applicable accepted fresh) distinct
          (valid-IsFunded block.txs (valid_txs accepted) fits),
    )
