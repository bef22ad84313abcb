-- ===== src/Node/Sled/Keys.antt =====
-- `height_key` and `spent_key`: no two heights below 2^64 and no two references share a key.
use better_call_chain.Prelude.{ℕ, ◌<◌, ◌≡◌, refl, ap, sym, ◌∙◌, ◌++◌, ok, take, drop, arith}
use better_call_chain.Prelude.Words.{u64_mod}
use better_call_chain.Core.Types.{Bytes, TxOutRef}
use better_call_chain.Core.Election.{le_bytes, of_le_bytes}
use better_call_chain.Node.Sled.{height_key, from_height_key, Json, JsonLaws, Codec, IsRoundTrip}
use better_call_chain.Node.Sled.Outputs.{spent_key}

of_le_bytes-le_bytes : (h : ℕ) → h < u64_mod → of_le_bytes (le_bytes 8 h) ≡ h
unfolding le_bytes of_le_bytes
of_le_bytes-le_bytes h b = omega arith

-- A height below 2^64 is read back from its key.
pub from_height_key-height_key : (h : ℕ) → h < u64_mod → from_height_key (height_key h) ≡ ok h
unfolding from_height_key height_key le_bytes
from_height_key-height_key h b = ap ok (of_le_bytes-le_bytes h b)

pub height_key_inj : (h i : ℕ) → h < u64_mod → i < u64_mod → height_key h ≡ height_key i → h ≡ i
height_key_inj h i bh bi e =
    ground (
      arith,
      from_height_key-height_key h bh,
      from_height_key-height_key i bi,
      ap from_height_key e,
    )

take-height_key : (h : ℕ) (xs : Bytes) → take 8 (height_key h ++ xs) ≡ height_key h
unfolding height_key le_bytes
take-height_key h xs = refl

drop-height_key : (h : ℕ) (xs : Bytes) → drop 8 (height_key h ++ xs) ≡ xs
unfolding height_key le_bytes
drop-height_key h xs = refl

pub to_vec_inj :
    {A : Type 0} (k : Codec A) → IsRoundTrip k → (a b : A) → k.to_vec a ≡ k.to_vec b → a ≡ b
to_vec_inj k law a b e = ground (arith, law a, law b, ap k.from_slice e)

-- Two spent outputs have one key only at one height and of one reference.
pub spent_key_inj :
    (j : Json) (laws : JsonLaws j) (h i : ℕ) (r s : TxOutRef)
    → h < u64_mod
    → i < u64_mod
    → spent_key j h r ≡ spent_key j i s
    → (h ≡ i) × (r ≡ s)
unfolding spent_key
spent_key_inj j laws h i r s bh bi e = (
  height_key_inj h i bh bi (
      sym (take-height_key h (j.out_ref.to_vec r))
      ∙ ap (take 8) e
      ∙ take-height_key i (j.out_ref.to_vec s)),
  to_vec_inj j.out_ref laws.out_ref_lem r s (
      sym (drop-height_key h (j.out_ref.to_vec r))
      ∙ ap (drop 8) e
      ∙ drop-height_key i (j.out_ref.to_vec s)),
)
