-- ===== src/Core/Merkle/Rounds.antt =====
-- The rounds of `compute_merkle_root`: they end, and what the padding makes of an odd layer.
use better_call_chain.Prelude.{
  ℕ, zero, suc, ◌*◌, ◌%◌, ◌/◌, ◌≤◌, ◌<◌, ◌≡◌, refl, sym, ap, ◌∙◌, true, List, [], ◌∷◌, ◌++◌, map,
  arith, ltb, length, length-append, length-map, get_or, lt→ltb,
}
use mathlib.Core.List.{map-append}
use better_call_chain.Core.Types.{BlockHash, Transaction}
use better_call_chain.Core.Crypto.{Crypto}
use better_call_chain.Core.Merkle.{
  zeros, push_last, pad, tx_hash, hash_pairs, merkle_loop, root_of_layer, compute_merkle_root,
}

length-push_last :
    (x : BlockHash) (l : List BlockHash) → length (push_last (x ∷ l)) ≡ suc (suc (length l))
unfolding push_last
length-push_last x [] = refl
length-push_last x (y ∷ l) = ap suc (length-push_last y l)

-- A padded layer has an even length, the layer's own or one more.
pub length-pad :
    (l : List BlockHash)
    → (length (pad l) % 2 ≡ 0) × (length l ≤ length (pad l)) × (length (pad l) ≤ suc (length l))
unfolding pad push_last
length-pad [] = omega arith
length-pad (x ∷ l) = ground (arith, length-push_last x l)

pub push_last_append :
    (l : List BlockHash) (x : BlockHash) → push_last (l ++ x ∷ []) ≡ l ++ x ∷ x ∷ []
unfolding push_last
push_last_append [] x = refl
push_last_append (y ∷ []) x = refl
push_last_append (y ∷ z ∷ l) x = ap (◌∷◌ y) (push_last_append (z ∷ l) x)

-- An even layer is left alone, and an odd one gets its last hash again.
pub pad_even : (l : List BlockHash) → length l % 2 ≡ 0 → pad l ≡ l
unfolding pad
pad_even l h = ground arith

pub pad_odd :
    (l : List BlockHash) (x : BlockHash) → length l % 2 ≡ 0 → pad (l ++ x ∷ []) ≡ l ++ x ∷ x ∷ []
unfolding pad
pad_odd l x h = ground (arith, push_last_append l x, length-append l (x ∷ []))

module _ (c : Crypto) where
  pub length-hash_pairs : (l : List BlockHash) → length (hash_pairs c l) ≡ length l / 2
  unfolding hash_pairs
  length-hash_pairs [] = omega arith
  length-hash_pairs (a ∷ []) = omega arith
  length-hash_pairs (a ∷ b ∷ l) = omega (arith, length-hash_pairs l)

  pub length-round :
      (l : List BlockHash)
      → 2 * length (hash_pairs c (pad l)) ≤ suc (length l)
        × (length l ≤ 2 * length (hash_pairs c (pad l)))
  length-round l = omega (arith, length-hash_pairs (pad l), length-pad l)

  -- With as much fuel as leaves, the loop ends by its test: a single hash is left.
  pub length-merkle_loop :
      (fuel : ℕ) (l : List BlockHash)
      → 0 < length l
      → length l ≤ fuel
      → length (merkle_loop c fuel l) ≡ 1
  unfolding merkle_loop
  length-merkle_loop zero l pos h = absurd (omega arith)
  length-merkle_loop (suc fuel) l pos h =
      ground (arith, length-round l, length-merkle_loop fuel (hash_pairs c (pad l)))

  -- Nor does more fuel change the result.
  pub merkle_loop_fuel :
      (f g : ℕ) (l : List BlockHash)
      → length l ≤ f
      → length l ≤ g
      → merkle_loop c f l ≡ merkle_loop c g l
  unfolding merkle_loop
  merkle_loop_fuel zero zero l hf hg = refl
  merkle_loop_fuel zero (suc g) l hf hg = ground arith
  merkle_loop_fuel (suc f) zero l hf hg = ground arith
  merkle_loop_fuel (suc f) (suc g) l hf hg =
      ground (arith, length-round l, merkle_loop_fuel f g (hash_pairs c (pad l)))

  -- One round, while more than one hash is left.
  merkle_loop_round :
      (k : List BlockHash)
      → 1 < length k
      → merkle_loop c (length k) k
        ≡ merkle_loop c (length (hash_pairs c (pad k))) (hash_pairs c (pad k))
  unfolding merkle_loop
  merkle_loop_round k h =
      merkle_loop_fuel (length k) (suc (length k)) k (omega arith) (omega arith)
      ∙ (let e : ltb 1 (length k) ≡ true = lt→ltb _ _ h in rw e refl)
      ∙ merkle_loop_fuel (length k) _ (hash_pairs c (pad k)) (omega (arith, length-round k))
          (omega arith)

  root_of_layer-pad :
      (l m : List BlockHash)
      → 1 < length l
      → 1 < length m
      → pad l ≡ pad m
      → root_of_layer c l ≡ root_of_layer c m
  unfolding root_of_layer
  root_of_layer-pad l m hl hm e =
      ap (λ k. get_or k 0 (zeros 32))
        (merkle_loop_round l hl ∙ rw e refl ∙ sym (merkle_loop_round m hm))

  -- Of an odd number of at least three transactions the last can be repeated: the root stays the
  -- same, so two blocks with different transaction lists have the same header hash.
  pub compute_merkle_root_repeated :
      (t : Transaction) (ts : List Transaction) (last : Transaction)
      → length (t ∷ ts) % 2 ≡ 0
      → compute_merkle_root c (t ∷ ts ++ last ∷ [])
        ≡ compute_merkle_root c (t ∷ ts ++ last ∷ last ∷ [])
  unfolding compute_merkle_root
  compute_merkle_root_repeated t ts last even =
      rw (map-append (tx_hash c) ts (last ∷ []), map-append (tx_hash c) ts (last ∷ last ∷ []))
        (root_of_layer-pad _ _
          (omega (arith, length-append hashes (h ∷ []), length-map (tx_hash c) ts))
          (omega (arith, length-append hashes (h ∷ h ∷ []), length-map (tx_hash c) ts))
          (pad_odd (tx_hash c t ∷ hashes) h even_hashes ∙ sym (pad_even _ even_padded)))
    where
      hashes : List BlockHash
      hashes = map (tx_hash c) ts

      h : BlockHash
      h = tx_hash c last

      even_hashes : length (tx_hash c t ∷ hashes) % 2 ≡ 0
      even_hashes = omega (arith, length-map (tx_hash c) ts)

      even_padded : length (tx_hash c t ∷ hashes ++ h ∷ h ∷ []) % 2 ≡ 0
      even_padded = omega (arith, even_hashes, length-append hashes (h ∷ h ∷ []))
