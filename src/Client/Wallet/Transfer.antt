-- ===== src/Client/Wallet/Transfer.antt =====
-- `build_transfer`: a payment that the wallet builds from its own outputs is accepted.
use better_call_chain.Prelude.{
  ℕ, ◌+◌, ◌-◌, ◌≤◌, ◌<◌, ◌≡◌, refl, ap, sym, subst, ◌∙◌, inl, inr, List, [], ◌∷◌, ◌++◌, map, some,
  ok, Result-cases, Bool-cases, ltb, arith, All, All-map, length,
}
use better_call_chain.Prelude.Words.{u64_mod, total, sum_u64, sum_u64-total}
use better_call_chain.Core.Types.{Bytes, TxHash, Address, TxInput, TxOutput, Transaction, transfer}
use better_call_chain.Core.Crypto.{Crypto, CryptoLaws}
use better_call_chain.Core.Address.{from_pubkey_bytes}
use better_call_chain.Core.Merkle.{zeros}
use better_call_chain.Core.Validation.Transactions.{
  UtxoGet, amounts, tx_signing_bytes, validate_transaction,
}
use better_call_chain.Core.Validation.Transactions.Sound.{
  Spends, IsValidTx, validate_transaction_iff,
}
use better_call_chain.Client.Wallet.{
  UtxoItem, CoinSelection, values, outputs_for, tx_hash_bytes, inputs_of, sign_all, build_transfer,
  select_coins, sort_by_amount,
}
use better_call_chain.Client.Wallet.Selection.{
  total-append, total-sort_by_amount, Selects, IsSelection, select_coins-Selects,
  sort_by_amount-All,
}

module _ (c : Crypto) (get : UtxoGet) (key : Bytes) where
  -- The node has the output, and it belongs to the key.
  pub record IsOwned (u : UtxoItem) : Type 0 where
    pub hash : TxHash
    pub decoded : c.hex_decode u.tx_hash ≡ some hash
    pub sized : length hash ≡ 32
    pub stored :
        get (record { tx_hash = hash; index = u.index })
        ≡ ok (
            some
              (record { amount = u.amount; address = from_pubkey_bytes c (c.verifying_key key) }))

  -- The outputs that the items name.
  owned_outputs : List UtxoItem → List TxOutput
  owned_outputs us =
      map (λ u. record { amount = u.amount; address = from_pubkey_bytes c (c.verifying_key key) })
        us

  amounts-owned_outputs : (us : List UtxoItem) → amounts (owned_outputs us) ≡ values us
  unfolding owned_outputs
  amounts-owned_outputs [] = refl
  amounts-owned_outputs (u ∷ us) = ap (λ l. u.amount ∷ l) (amounts-owned_outputs us)

  signed_input : Bytes → TxInput → TxInput
  signed_input msg i = record i { signature = c.sign key msg }

  -- The inputs are built, and with their signatures they spend the outputs.
  inputs_of-Spends :
      CryptoLaws c
      → (us : List UtxoItem) → All IsOwned us
      → (is : List TxInput) × (inputs_of c key us ≡ ok is)
        × ((msg : Bytes) → Spends c get msg (map (signed_input msg) is) (owned_outputs us))
  unfolding inputs_of tx_hash_bytes signed_input owned_outputs
  inputs_of-Spends laws [] h = ([], refl, λ msg. tt)
  inputs_of-Spends laws (u ∷ us) (h, hs) =
      let (is, e, sp) = inputs_of-Spends laws us hs in
      let decoded : tx_hash_bytes c u.tx_hash ≡ ok h.hash = ground (arith, h.decoded, h.sized) in
      let first : TxInput = record {
        out_ref = record { tx_hash = h.hash; index = u.index };
        signature = zeros 64;
        pubkey = c.verifying_key key;
      } in
      (
        first ∷ is,
        rw (decoded, e) refl,
        λ msg. (h.stored, refl, laws.signature_ok-sign key msg, sp msg),
      )

  refs-signed_input :
      (msg : Bytes) (is : List TxInput)
      → map (λ i. i.out_ref) (map (signed_input msg) is) ≡ map (λ i. i.out_ref) is
  unfolding signed_input
  refs-signed_input msg [] = refl
  refs-signed_input msg (i ∷ is) = ap (λ l. i.out_ref ∷ l) (refs-signed_input msg is)

  -- The amount goes to the recipient, and what is left of the sum goes back.
  pub record IsPayment (sum amount : ℕ) (recipient change : Address) (outputs : List TxOutput)
      : Type 0 where
    pub back : List TxOutput
    pub paid : outputs ≡ record { amount = amount; address = recipient } ∷ back
    pub mine : All (λ o. (o.address ≡ change) × (0 < o.amount)) back
    pub worth : amount + total (amounts back) ≡ sum

  outputs_for-IsPayment :
      (sum amount : ℕ) (recipient change : Address)
      → amount ≤ sum
      → IsPayment sum amount recipient change (outputs_for sum recipient amount change)
  unfolding outputs_for total
  outputs_for-IsPayment sum amount recipient change enough = elim (Bool-cases (ltb amount sum)) [
    | inl t ↦
        rw (t, outputs_for)
          (record {
            back = record { amount = sum - amount; address = change } ∷ [];
            paid = refl;
            mine = ((refl, ground (arith, t)), tt);
            worth = ground (arith, t);
          })
    | inr t ↦
        rw (t, outputs_for)
          (record { back = []; paid = refl; mine = tt; worth = ground (arith, t, enough) })
  ]

  module _ (laws : CryptoLaws c) (us : List UtxoItem) (owned : All IsOwned us)
      (small : total (values us) < u64_mod) (recipient : Address) (amount : ℕ) (change : Address)
      (positive : 0 < amount) (enough : amount ≤ total (values us)) where
    unsigned : List TxInput → Transaction
    unsigned is = record {
      kind = transfer;
      inputs = is;
      outputs = outputs_for (sum_u64 (values us)) recipient amount change;
    }

    fits : sum_u64 (values us) ≡ total (values us)
    fits = sum_u64-total (values us) small

    message : List TxInput → Bytes
    message is = tx_signing_bytes c (unsigned is)

    message-sign_all :
        (is : List TxInput) → tx_signing_bytes c (sign_all c key (unsigned is)) ≡ message is
    unfolding sign_all tx_signing_bytes signed_input unsigned message
    message-sign_all is =
        ap
          (λ l.
            c.signing_json
              (record { kind = transfer; inputs = l; outputs = (unsigned is).outputs }))
          (refs-signed_input (message is) is)

    sign_all-IsValidTx :
        (is : List TxInput)
        → ((msg : Bytes) → Spends c get msg (map (signed_input msg) is) (owned_outputs us))
        → IsValidTx c get (sign_all c key (unsigned is))
    unfolding sign_all unsigned signed_input message total
    sign_all-IsValidTx is sp =
        let p =
          outputs_for-IsPayment (sum_u64 (values us)) amount recipient change
            (omega (arith, fits, enough)) in
        let worth : total (amounts (outputs_for (sum_u64 (values us)) recipient amount change))
            ≡ sum_u64 (values us) =
          ap (λ l. total (amounts l)) p.paid ∙ p.worth in
        record {
          has_output = λ e. absurd (cc (e, p.paid));
          positive =
              subst (All (λ o. 0 < o.amount)) (sym p.paid)
                (positive, All-map (λ o h. h.1) p.back p.mine);
          spent = owned_outputs us;
          spends =
              subst (λ m. Spends c get m (map (signed_input (message is)) is) (owned_outputs us))
                (sym (message-sign_all is)) (sp (message is));
          funded = omega (
            arith,
            fits,
            small,
            worth,
            sum_u64-total (amounts (outputs_for (sum_u64 (values us)) recipient amount change))
                (omega (arith, worth, fits, small)),
            ap total (amounts-owned_outputs us),
          );
        }

    build_transfer-valid :
        (tx : Transaction) × (build_transfer c key us recipient amount change ≡ ok tx)
        × (validate_transaction c get tx ≡ ok tt)
        × IsPayment (total (values us)) amount recipient change tx.outputs
    unfolding build_transfer sign_all unsigned
    build_transfer-valid =
        let (is, e, sp) = inputs_of-Spends laws us owned in
        (
          sign_all c key (unsigned is),
          rw (e, build_transfer) refl,
          (validate_transaction_iff c get (sign_all c key (unsigned is))).1
              (sign_all-IsValidTx is sp),
          subst
              (λ n.
                IsPayment n amount recipient change
                  (outputs_for (sum_u64 (values us)) recipient amount change))
              fits
              (outputs_for-IsPayment (sum_u64 (values us)) amount recipient change
                (omega (arith, fits, enough))),
        )

  All-start :
      (P : UtxoItem → Type 0) (l : List UtxoItem) (u : UtxoItem) (m : List UtxoItem)
      → All P (l ++ u ∷ m)
      → All P (l ++ u ∷ [])
  All-start P [] u m h = (h.0, tt)
  All-start P (x ∷ l) u m h = (h.0, All-start P l u m h.1)

  paid_from :
      (laws : CryptoLaws c) (utxos : List UtxoItem)
      → All IsOwned utxos
      → total (values utxos) < u64_mod
      → (recipient : Address) (amount : ℕ) (change : Address) → 0 < amount
      → (s : CoinSelection) → IsSelection (sort_by_amount utxos) amount s
      → (tx : Transaction) × (build_transfer c key s.selected recipient amount change ≡ ok tx)
        × (validate_transaction c get tx ≡ ok tt)
        × IsPayment (total (values s.selected)) amount recipient change tx.outputs
  unfolding total
  paid_from laws utxos owned small recipient amount change positive s sel =
      let all = subst (All IsOwned) sel.start (sort_by_amount-All IsOwned utxos owned) in
      let mine =
        subst (All IsOwned) (sym sel.taken) (All-start IsOwned sel.before sel.last sel.rest all) in
      let below : total (values s.selected) < u64_mod = omega (
        arith,
        small,
        total-sort_by_amount utxos,
        ap (λ l. total (values l)) sel.start,
        ap (λ l. total (values l)) sel.taken,
        total-append sel.before (sel.last ∷ sel.rest),
        total-append sel.before (sel.last ∷ []),
      ) in
      build_transfer-valid laws s.selected mine below recipient amount change positive
        (omega (arith, sel.reached, sel.added))

  -- A wallet whose outputs the node has, whose worth is below 2^64 and covers a positive amount, can
  -- pay it: coins are selected, the transfer is built of them, the node's validation accepts it, and
  -- it pays the amount to the recipient and the rest of what it spends back as change.
  pub transfer-accepted :
      (laws : CryptoLaws c) (utxos : List UtxoItem) (recipient : Address) (amount : ℕ)
      (change : Address)
      → All IsOwned utxos
      → total (values utxos) < u64_mod
      → 0 < amount
      → amount ≤ total (values utxos)
      → (s : CoinSelection) × (tx : Transaction) × (select_coins utxos amount ≡ ok s)
        × (build_transfer c key s.selected recipient amount change ≡ ok tx)
        × (validate_transaction c get tx ≡ ok tt)
        × IsPayment (total (values s.selected)) amount recipient change tx.outputs
  unfolding total
  transfer-accepted laws utxos recipient amount change owned small positive enough =
      elim (Result-cases (select_coins utxos amount)) [
        | inr (e, q) ↦
            let (why, h) = subst (Selects utxos amount) q (select_coins-Selects utxos amount).2 in
            absurd (elim h [
              | inl n ↦ omega (arith, ap (λ l. total (values l)) n, positive, enough)
              | inr n ↦ omega (arith, n, small, enough)
            ])
        | inl (s, q) ↦
            let sel : IsSelection (sort_by_amount utxos) amount s =
              subst (Selects utxos amount) q (select_coins-Selects utxos amount).2 in
            let (tx, built, valid, pay) =
              paid_from laws utxos owned small recipient amount change positive s sel in
            (s, tx, q, built, valid, pay)
      ]
