-- ===== src/Client/Split/Exact.antt =====
-- With a node that accepts and confirms, a split makes as many outputs as asked for.
use better_call_chain.Prelude.{
  ℕ, zero, suc, ◌+◌, ◌-◌, ◌*◌, ◌/◌, min, ◌≤◌, ◌<◌, ◌≡◌, refl, sym, ap, subst, ◌⊎◌, inl, inr, true,
  false, List, [], ◌∷◌, ◌++◌, some, ok, ltb, leb, length, length-append, length-take, Result-cases,
  take, drop, All, All-append, All-take, take-all_le, drop-all_le, length-drop, arith, dec_le,
}
use mathlib.Core.List.{append_assoc, append-nil}
use better_call_chain.Core.Types.{Bytes, TxHash, Address, Transaction}
use better_call_chain.Core.Crypto.{Crypto, CryptoLaws, sha256d}
use better_call_chain.Core.Merkle.{tx_hash}
use better_call_chain.Client.Wallet.{UtxoItem, tx_hash_bytes, inputs_of, build_transfer}
use better_call_chain.Client.Split.{
  Node, SplitEntry, Built, expected, entry_of, halve, split_one, build_all, push_all, submit,
  to_split, split_round, split_rounds, split_utxo,
}
use better_call_chain.Client.Split.Rounds.{outs, outs-append, length-outs}

scaled : (x y l : ℕ) → x ≤ 2 * y → x * l ≤ y * (2 * l)
scaled x y zero h = omega arith
scaled x y (suc l) h = omega (arith, scaled x y l h)

large : (a l target amount : ℕ) → amount < (a + 1) * l → 2 * target ≤ amount → l < target → 2 ≤ a
large zero l target amount h k m = absurd (omega arith)
large (suc zero) l target amount h k m = absurd (omega arith)
large (suc (suc a)) l target amount h k m = omega arith

-- The node accepts every transaction and confirms each round in time.
pub record Accepts (node : Node) : Type 0 where
  pub posted : (round : ℕ) (tx : Transaction) → node.post_tx round tx ≡ ok tt
  pub seen : (round : ℕ) (hashes : List Bytes) → node.confirms round hashes ≡ true

module _ (c : Crypto) (laws : CryptoLaws c) (key : Bytes) (addr : Address) where
  -- The item names a hash of 32 bytes.
  abbrev pub HasHash : UtxoItem → Type 0
  HasHash u = (h : TxHash) × (c.hex_decode u.tx_hash ≡ some h) × (length h ≡ 32)

  build_transfer-ok :
      (u : UtxoItem) (amount : ℕ)
      → HasHash u
      → (tx : Transaction) × (build_transfer c key (u ∷ []) addr amount addr ≡ ok tx)
  unfolding build_transfer inputs_of tx_hash_bytes
  build_transfer-ok u amount (h, decoded, sized) =
      elim (Result-cases (build_transfer c key (u ∷ []) addr amount addr)) [
        | inl (tx, e) ↦ (tx, e)
        | inr (x, e) ↦ absurd (ground (arith, e, decoded, sized))
      ]

  -- Of the given amount, no more is lost by the halvings than the count of the outputs explains.
  abbrev Even : ℕ → ℕ → UtxoItem → Type 0
  Even amount l u = HasHash u × (amount < (u.amount + 1) * l)

  hash_of :
      (tx : Transaction)
      → (h : TxHash) × (c.hex_decode (c.hex_encode (tx_hash c tx)) ≡ some h) × (length h ≡ 32)
  unfolding tx_hash sha256d
  hash_of tx = (
    tx_hash c tx,
    laws.hex_decode-hex_encode (tx_hash c tx) (laws.digest_bytes _),
    laws.length-digest _,
  )

  entry_of-Even :
      (amount l : ℕ) (u : UtxoItem) (tx : Transaction)
      → amount < (u.amount + 1) * l
      → All (Even amount (2 * l)) (outs (entry_of c key addr u tx ∷ []))
  unfolding entry_of
  entry_of-Even amount l u tx h = (
    (hash_of tx, omega (arith, scaled (u.amount + 1) (u.amount / 2 + 1) l (omega arith))),
    (
      (
        hash_of tx,
        omega (arith, scaled (u.amount + 1) (u.amount - u.amount / 2 + 1) l (omega arith)),
      ),
      tt,
    ),
  )

  split_one-Even :
      (amount l target : ℕ) (u : UtxoItem) (b : Built)
      → Even amount l u
      → 2 * target ≤ amount
      → l < target
      → (e : SplitEntry) × (split_one c key addr u b ≡ ok (record b { built = b.built ++ e ∷ [] }))
        × All (Even amount (2 * l)) (outs (e ∷ []))
  unfolding split_one halve
  split_one-Even amount l target u b (hash, even) most less =
      let (tx, built) = build_transfer-ok u (u.amount / 2) hash in
      let two : 2 ≤ u.amount = large u.amount l target amount even most less in
      let enough : ltb u.amount 2 ≡ false = ground arith in
      (entry_of c key addr u tx, rw (enough, built), entry_of-Even amount l u tx even)

  -- The loop over outputs that are large enough makes an entry of each.
  build_all-Even :
      (amount l target : ℕ) (us : List UtxoItem) (next : List UtxoItem) (built : List SplitEntry)
      → All (Even amount l) us
      → 2 * target ≤ amount
      → l < target
      → All (Even amount (2 * l)) (outs built)
      → (es : List SplitEntry) × (build_all c key addr us (record { next = next; built = built })
          ≡ ok (record { next = next; built = es }))
        × (length es ≡ length built + length us)
        × All (Even amount (2 * l)) (outs es)
  unfolding build_all
  build_all-Even amount l target [] next built q most less done = (built, refl, omega arith, done)
  build_all-Even amount l target (u ∷ us) next built (even, q) most less done =
      let b : Built = record { next = next; built = built } in
      let (e, one, new) = split_one-Even amount l target u b even most less in
      let (es, all, len, made) =
        build_all-Even amount l target us next (built ++ e ∷ []) q most less (
          rw (outs-append built (e ∷ []))
            (All-append (Even amount (2 * l)) (outs built) (outs (e ∷ [])) done new)) in
      (es, rw one all, omega (arith, len, length-append {0} built (e ∷ [])), made)

  push_all-Accepts :
      (node : Node) (round : ℕ) (es : List SplitEntry) (next : List UtxoItem)
      → Accepts node
      → push_all c key addr node round es next ≡ ok (next ++ outs es)
  unfolding push_all
  push_all-Accepts node round [] next accepts = ap ok (sym (append-nil next))
  push_all-Accepts node round (e ∷ es) next accepts = rw (
    accepts.posted round e.tx,
    push_all-Accepts node round es (next ++ e.out0 ∷ e.out1 ∷ []) accepts,
    append_assoc next (e.out0 ∷ e.out1 ∷ []) (outs es),
  )

  submit-Accepts :
      (node : Node) (round : ℕ) (es : List SplitEntry) (next : List UtxoItem)
      → Accepts node
      → 0 < length es
      → submit c key addr node round es next ≡ ok (some (next ++ outs es))
  unfolding submit
  submit-Accepts node round [] next accepts h = absurd (omega arith)
  submit-Accepts node round (e ∷ es) next accepts h =
      rw (push_all-Accepts node round (e ∷ es) next accepts, accepts.seen round (expected (e ∷ es)))

  all_Even :
      (amount l : ℕ) (r xs : List UtxoItem)
      → r ≡ xs
      → length r ≡ 2 * l
      → All (Even amount (2 * l)) xs
      → All (Even amount (length r)) r
  all_Even amount l r xs e twice q = rw twice (subst (λ us. All (Even amount (2 * l)) us) (sym e) q)

  -- A round reaches the count that is asked for, or doubles the outputs and keeps them large.
  split_round-Even :
      (node : Node) (round amount target : ℕ) (current : List UtxoItem)
      → Accepts node
      → 2 * target ≤ amount
      → 0 < length current
      → length current < target
      → All (Even amount (length current)) current
      → (r : List UtxoItem) × (split_round c key addr node round target current ≡ ok (some r))
        × (length current < length r)
        × ((length r ≡ target) ⊎ ((length r < target) × All (Even amount (length r)) r))
  unfolding split_round
  split_round-Even node round amount target current accepts most some_there less q =
      let n = to_split target current in
      let (es, all, len, made) =
        build_all-Even amount (length current) target (take n current) (drop n current) []
          (All-take (Even amount (length current)) n current q) most less tt in
      let taken : length (take n current) ≡ min n (length current) = length-take n current in
      let left : length (drop n current) + n ≡ length current =
        length-drop n current (omega (arith, taken)) in
      let entries : length es ≡ n = omega (arith, len, taken) in
      let size : length (drop n current ++ outs es) ≡ length current + n =
        omega
          (arith, length-append {0} (drop n current) (outs es), length-outs es, left, entries) in
      (
        drop n current ++ outs es,
        rw (all, submit-Accepts node round es (drop n current) accepts (omega (arith, entries))),
        omega (arith, size),
        elim (dec_le target (2 * length current)) [
          | yes last ↦ inl (omega (arith, size))
          | no more ↦
              let nothing : drop n current ≡ [] = drop-all_le n current (omega arith) in
              inr (
                omega (arith, size),
                all_Even amount (length current) (drop n current ++ outs es) (outs es)
                    (ap (λ xs. xs ++ outs es) nothing) (omega (arith, size)) made,
              )
        ],
      )

  -- Enough for the amount that is asked for: the outputs are split until there are as many.
  split_rounds-Exact :
      (fuel : ℕ) (node : Node) (round amount target : ℕ) (current : List UtxoItem)
      → Accepts node
      → 2 * target ≤ amount
      → 0 < length current
      → (length current ≡ target)
        ⊎ ((length current < target) × All (Even amount (length current)) current)
      → target - length current < fuel
      → (us : List UtxoItem) × (split_rounds c key addr fuel node round target current
          ≡ some (ok us))
        × (length us ≡ target)
  unfolding split_rounds
  split_rounds-Exact zero node round amount target current accepts most some_there q f =
      absurd (omega arith)
  split_rounds-Exact (suc fuel) node round amount target current accepts most some_there (inl full)
        f =
      let stop : ltb (length current) target ≡ false = ground arith in
      (current, rw (stop, take-all_le target current (omega arith)), full)
  split_rounds-Exact (suc fuel) node round amount target current accepts most some_there
        (inr (less, q)) f =
      let go : ltb (length current) target ≡ true = ground arith in
      let (r, step, grown, next) =
        split_round-Even node round amount target current accepts most some_there less q in
      let (us, e, len) =
        split_rounds-Exact fuel node (round + 1) amount target r accepts most (omega (arith, grown))
          next (omega (arith, grown)) in
      (us, rw (go, step) e, len)

  -- A node that accepts and confirms makes the split exact: where the given output has the hash of a
  -- transaction and is worth at least twice the count that is asked for, and that is at least two,
  -- `split_utxo` returns exactly as many outputs as asked for.
  pub split_utxo-Exact :
      (fuel : ℕ) (node : Node) (input_utxo : UtxoItem) (target : ℕ)
      → Accepts node
      → HasHash input_utxo
      → 2 ≤ target
      → 2 * target ≤ input_utxo.amount
      → target < fuel
      → (us : List UtxoItem) × (split_utxo c key addr fuel node input_utxo target ≡ some (ok us))
        × (length us ≡ target)
  unfolding split_utxo
  split_utxo-Exact fuel node input_utxo target accepts hash two most h =
      let many : leb target 1 ≡ false = ground arith in
      rw many (
        split_rounds-Exact fuel node 0 input_utxo.amount target (input_utxo ∷ []) accepts most
          (omega arith) (inr (omega arith, ((hash, omega arith), tt))) (omega arith))
