-- ===== src/Core/Merkle/Binding.antt =====
-- What the Merkle root commits to.
use better_call_chain.Prelude.{
  ℕ, zero, suc, ◌%◌, ◌<◌, ◌≡◌, refl, sym, subst, ◌∙◌, ◌≢◌, ◌⊎◌, inl, inr, List, [], ◌∷◌, ◌++◌, map,
  arith, ltb, if◌then◌else◌, ◌==◌, length, length-map, get_or, All, Bool-cases,
}
use better_call_chain.Core.Types.{Bytes, BlockHash, Transaction, bytes_discrete}
use better_call_chain.Core.Crypto.{Crypto, CryptoLaws, sha256d}
use better_call_chain.Core.Merkle.{
  zeros, push_last, pad, tx_hash, hash_pairs, merkle_loop, root_of_layer, compute_merkle_root,
}
use better_call_chain.Core.Merkle.Rounds.{length-pad, length-hash_pairs, length-merkle_loop}

abbrev pub In : Bytes → List Bytes → Type 0
In t [] = ⊥
In t (x ∷ xs) = (t ≡ x) ⊎ In t xs

In-left : (t : Bytes) (xs ys : List Bytes) → In t xs → In t (xs ++ ys)
In-left t [] ys h = absurd h
In-left t (x ∷ xs) ys (inl e) = inl e
In-left t (x ∷ xs) ys (inr h) = inr (In-left t xs ys h)

In-right : (t : Bytes) (xs ys : List Bytes) → In t ys → In t (xs ++ ys)
In-right t [] ys h = h
In-right t (x ∷ xs) ys h = inr (In-right t xs ys h)

-- Two different texts, one of each list, with one double hash.
pub record Collision (c : Crypto) (xs ys : List Bytes) : Type 0 where
  pub left : Bytes
  pub right : Bytes
  pub in_left : In left xs
  pub in_right : In right ys
  pub differ : left ≢ right
  pub same : sha256d c left ≡ sha256d c right

-- A collision of some of the texts is one of them all.
wider :
    (c : Crypto) {xs ys us vs : List Bytes} {A : Type 0}
    → ((t : Bytes) → In t xs → In t us)
    → ((t : Bytes) → In t ys → In t vs)
    → Collision c xs ys ⊎ A
    → Collision c us vs ⊎ A
wider c f g (inr a) = inr a
wider c f g (inl k) = inl (record {
  left = k.left;
  right = k.right;
  in_left = f k.left k.in_left;
  in_right = g k.right k.in_right;
  differ = k.differ;
  same = k.same;
})

-- The texts that are hashed for the layer above: each two neighbours, one behind the other.
abbrev pub pair_texts : List BlockHash → List Bytes
pair_texts (a ∷ b ∷ layer) = (a ++ b) ∷ pair_texts layer
pair_texts _ = []

-- The texts that are hashed in so many rounds over a layer.
unfoldable pub layer_texts : Crypto → ℕ → List BlockHash → List Bytes
layer_texts c zero layer = []
layer_texts c (suc fuel) layer =
    let rest = layer_texts c fuel (hash_pairs c (pad layer)) in
    if ltb 1 (length layer) then pair_texts (pad layer) ++ rest else []

-- All that is hashed for a list of transactions: their serialisations, and the layers above.
abbrev pub hashed : Crypto → List Transaction → List Bytes
hashed c txs =
    map c.transaction_json txs ++ layer_texts c (length (map (tx_hash c) txs)) (map (tx_hash c) txs)

-- A chain of conclusions, each unless there is a collision.
infixl 5 ◌>>=◌
abbrev ◌>>=◌ : {C A B : Type 0} → C ⊎ A → (A → C ⊎ B) → C ⊎ B
inl c >>= f = inl c
inr a >>= f = f a

abbrev Is32 : Bytes → Type 0
Is32 h = length h ≡ 32

append_inj : (a b s t : Bytes) → length a ≡ length b → a ++ s ≡ b ++ t → (a ≡ b) × (s ≡ t)
append_inj [] [] s t l e = (refl, e)
append_inj [] (y ∷ b) s t l e = absurd (omega arith)
append_inj (x ∷ a) [] s t l e = absurd (omega arith)
append_inj (x ∷ a) (y ∷ b) s t l e =
    let (e₁, e₂) = append_inj a b s t (omega arith) (cc) in (cc, e₂)

single :
    (l m : List BlockHash)
    → length l ≡ 1
    → length m ≡ 1
    → get_or l 0 (zeros 32) ≡ get_or m 0 (zeros 32)
    → l ≡ m
single (x ∷ []) (y ∷ []) hl hm e = cc
single [] m hl hm e = absurd (omega arith)
single (x ∷ x' ∷ l) m hl hm e = absurd (omega arith)
single (x ∷ []) [] hl hm e = absurd (omega arith)
single (x ∷ []) (y ∷ y' ∷ m) hl hm e = absurd (omega arith)

push_last_inj : (l m : List BlockHash) → length l ≡ length m → push_last l ≡ push_last m → l ≡ m
unfolding push_last
push_last_inj [] [] h e = refl
push_last_inj [] (y ∷ m) h e = absurd (omega arith)
push_last_inj (x ∷ l) [] h e = absurd (omega arith)
push_last_inj (x ∷ []) (y ∷ []) h e = cc
push_last_inj (x ∷ []) (y ∷ y' ∷ m) h e = absurd (omega arith)
push_last_inj (x ∷ x' ∷ l) (y ∷ []) h e = absurd (omega arith)
push_last_inj (x ∷ x' ∷ l) (y ∷ y' ∷ m) h e =
    let rest = push_last_inj (x' ∷ l) (y' ∷ m) (omega arith) (cc) in cc

pad_inj : (l m : List BlockHash) → length l ≡ length m → pad l ≡ pad m → l ≡ m
unfolding pad
pad_inj l m h e = ground (arith, push_last_inj l m h)

All-push_last : (l : List BlockHash) → All Is32 l → All Is32 (push_last l)
unfolding push_last
All-push_last [] h = h
All-push_last (x ∷ []) h = (h.0, h)
All-push_last (x ∷ y ∷ l) h = (h.0, All-push_last (y ∷ l) h.1)

All-pad : (l : List BlockHash) → All Is32 l → All Is32 (pad l)
unfolding pad
All-pad l h = elim (Bool-cases (length l % 2 == 0)) [
  | inl e ↦ rw e h
  | inr e ↦ rw e (All-push_last l h)
]

module _ (c : Crypto) (laws : CryptoLaws c) where
  sha256d_inj :
      (s t : Bytes) (xs ys : List Bytes)
      → In s xs
      → In t ys
      → sha256d c s ≡ sha256d c t
      → Collision c xs ys ⊎ (s ≡ t)
  sha256d_inj s t xs ys hs ht e = elim (bytes_discrete s t) [
    | yes p ↦ inr p
    | no p ↦ inl (record { left = s; right = t; in_left = hs; in_right = ht; differ = p; same = e })
  ]

  All-hash_pairs : (l : List BlockHash) → All Is32 (hash_pairs c l)
  unfolding hash_pairs sha256d
  All-hash_pairs (a ∷ b ∷ l) = (laws.length-digest _, All-hash_pairs l)
  All-hash_pairs (a ∷ []) = tt
  All-hash_pairs [] = tt

  hash_pairs_inj :
      (l m : List BlockHash)
      → length l ≡ length m
      → length l % 2 ≡ 0
      → All Is32 l
      → All Is32 m
      → hash_pairs c l ≡ hash_pairs c m
      → Collision c (pair_texts l) (pair_texts m) ⊎ (l ≡ m)
  unfolding hash_pairs
  hash_pairs_inj (a ∷ b ∷ l) (a' ∷ b' ∷ m) h even hl hm e = do
    p ←
        sha256d_inj (a ++ b) (a' ++ b') ((a ++ b) ∷ pair_texts l) ((a' ++ b') ∷ pair_texts m)
          (inl refl) (inl refl) (cc)
    q ←
        wider c (λ _ k. inr k) (λ _ k. inr k)
          (hash_pairs_inj l m (omega arith) (omega arith) hl.1.1 hm.1.1 (cc))
    let halves = append_inj a a' b b' (hl.0 ∙ sym hm.0) p
    inr (cc (halves.0, halves.1))
  hash_pairs_inj [] [] h even hl hm e = inr refl
  hash_pairs_inj [] (y ∷ m) h even hl hm e = absurd (omega arith)
  hash_pairs_inj (x ∷ []) m h even hl hm e = absurd (omega arith)
  hash_pairs_inj (x ∷ y ∷ l) [] h even hl hm e = absurd (omega arith)
  hash_pairs_inj (x ∷ y ∷ l) (z ∷ []) h even hl hm e = absurd (omega arith)

  merkle_loop_inj :
      (fuel : ℕ) (l m : List BlockHash)
      → length l ≡ length m
      → All Is32 l
      → All Is32 m
      → merkle_loop c fuel l ≡ merkle_loop c fuel m
      → Collision c (layer_texts c fuel l) (layer_texts c fuel m) ⊎ (l ≡ m)
  unfolding merkle_loop layer_texts
  merkle_loop_inj zero l m h hl hm e = inr e
  merkle_loop_inj (suc fuel) l m h hl hm e =
      let padded : length (pad l) ≡ length (pad m) = omega (arith, length-pad l, length-pad m) in
      elim (Bool-cases (ltb 1 (length l))) [
        | inr small ↦ inr (ground arith)
        | inl more ↦
            rw (more, (rw h at more))
              (do
                p ←
                    wider c (λ t k. In-right t (pair_texts (pad l)) _ k)
                      (λ t k. In-right t (pair_texts (pad m)) _ k)
                      (merkle_loop_inj fuel (hash_pairs c (pad l)) (hash_pairs c (pad m))
                        (omega
                          (arith, length-hash_pairs c (pad l), length-hash_pairs c (pad m), padded))
                        (All-hash_pairs (pad l)) (All-hash_pairs (pad m)) (ground arith))
                q ←
                    wider c (λ t k. In-left t (pair_texts (pad l)) _ k)
                      (λ t k. In-left t (pair_texts (pad m)) _ k)
                      (hash_pairs_inj (pad l) (pad m) padded (length-pad l).0 (All-pad l hl)
                        (All-pad m hm) p)
                inr (pad_inj l m h q))
      ]

  All-tx_hash : (txs : List Transaction) → All Is32 (map (tx_hash c) txs)
  unfolding tx_hash sha256d
  All-tx_hash [] = tt
  All-tx_hash (tx ∷ txs) = (laws.length-digest _, All-tx_hash txs)

  map-tx_hash_inj :
      (txs ts : List Transaction)
      → map (tx_hash c) txs ≡ map (tx_hash c) ts
      → Collision c (map c.transaction_json txs) (map c.transaction_json ts)
        ⊎ (map c.transaction_json txs ≡ map c.transaction_json ts)
  unfolding tx_hash
  map-tx_hash_inj [] [] e = inr refl
  map-tx_hash_inj [] (t ∷ ts) e = absurd (cc)
  map-tx_hash_inj (t ∷ txs) [] e = absurd (cc)
  map-tx_hash_inj (t ∷ txs) (t' ∷ ts) e = do
    p ←
        sha256d_inj (c.transaction_json t) (c.transaction_json t')
          (map c.transaction_json (t ∷ txs)) (map c.transaction_json (t' ∷ ts)) (inl refl)
          (inl refl) (cc)
    q ← wider c (λ _ k. inr k) (λ _ k. inr k) (map-tx_hash_inj txs ts (cc))
    inr (cc)

  root_of_layer_inj :
      (l m : List BlockHash)
      → 0 < length l
      → length l ≡ length m
      → All Is32 l
      → All Is32 m
      → root_of_layer c l ≡ root_of_layer c m
      → Collision c (layer_texts c (length l) l) (layer_texts c (length m) m) ⊎ (l ≡ m)
  unfolding root_of_layer
  root_of_layer_inj l m pos h hl hm e =
      subst (λ n. Collision c (layer_texts c (length l) l) (layer_texts c n m) ⊎ (l ≡ m)) h
        (merkle_loop_inj (length l) l m h hl hm (
          single _ _ (length-merkle_loop c (length l) l pos (omega arith))
            (length-merkle_loop c (length l) m (omega arith) (omega arith)) (e ∙ rw h refl)))

  -- Two transaction lists of the same length with the same Merkle root have the same serialised
  -- transactions, unless a text that is hashed for the one and a different text that is hashed for
  -- the other have the same double hash; these texts are the serialised transactions and, in each
  -- layer, two neighbours one behind the other.
  pub compute_merkle_root_binding :
      (txs ts : List Transaction)
      → length txs ≡ length ts
      → compute_merkle_root c txs ≡ compute_merkle_root c ts
      → Collision c (hashed c txs) (hashed c ts)
        ⊎ (map c.transaction_json txs ≡ map c.transaction_json ts)
  unfolding compute_merkle_root
  compute_merkle_root_binding [] [] h e = inr refl
  compute_merkle_root_binding [] (t ∷ ts) h e = absurd (omega arith)
  compute_merkle_root_binding (t ∷ txs) [] h e = absurd (omega arith)
  compute_merkle_root_binding (t ∷ txs) (t' ∷ ts) h e = do
    p ←
        wider c (λ x k. In-right x (map c.transaction_json (t ∷ txs)) _ k)
          (λ x k. In-right x (map c.transaction_json (t' ∷ ts)) _ k)
          (root_of_layer_inj (map (tx_hash c) (t ∷ txs)) (map (tx_hash c) (t' ∷ ts)) (omega arith)
            (omega (arith, length-map (tx_hash c) txs, length-map (tx_hash c) ts))
            (All-tx_hash (t ∷ txs)) (All-tx_hash (t' ∷ ts)) e)
    wider c (λ x k. In-left x (map c.transaction_json (t ∷ txs)) _ k)
        (λ x k. In-left x (map c.transaction_json (t' ∷ ts)) _ k)
        (map-tx_hash_inj (t ∷ txs) (t' ∷ ts) p)
