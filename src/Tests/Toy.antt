-- ===== src/Tests/Toy.antt =====
-- A small stand-in for the third-party crates, on which the definitions run, with the laws that
-- the theorems ask of them.
use better_call_chain.Prelude.{
  ℕ, zero, suc, ◌+◌, ◌-◌, ◌*◌, ◌/◌, ◌%◌, ◌<◌, ◌≡◌, refl, List, [], ◌∷◌, ◌++◌, map, Option, none,
  some, arith, All, length, test, ltb, if◌then◌else◌,
}
use better_call_chain.Core.Types.{
  Bytes, TxKind, transfer, stake, unstake, TxInput, TxOutput, TxOutRef, bytes_discrete,
}
use better_call_chain.Core.Crypto.{Crypto, CryptoLaws, IsByte, IsLowerHex}

-- The first bytes of the text, filled up with zeros.
abbrev fill : ℕ → Bytes → Bytes
fill zero s = []
fill (suc n) [] = 0 ∷ fill n []
fill (suc n) (x ∷ s) = x % 256 ∷ fill n s

abbrev digit : ℕ → ℕ
digit n = if ltb n 10 then 48 + n else 87 + n

abbrev digit_value : ℕ → ℕ
digit_value x = if ltb x 58 then x - 48 else x - 87

abbrev to_hex : Bytes → Bytes
to_hex [] = []
to_hex (x ∷ s) = digit (x % 256 / 16) ∷ digit (x % 16) ∷ to_hex s

abbrev cons_some : ℕ → Option Bytes → Option Bytes
cons_some x none = none
cons_some x (some s) = some (x ∷ s)

abbrev from_hex : Bytes → Option Bytes
from_hex [] = some []
from_hex (x ∷ []) = none
from_hex (x ∷ y ∷ s) = cons_some (digit_value x * 16 + digit_value y) (from_hex s)

abbrev kind_text : TxKind → Bytes
kind_text transfer = 0 ∷ []
kind_text (stake n) = 1 ∷ n ∷ []
kind_text (unstake n) = 2 ∷ n ∷ []

abbrev outputs_text : List TxOutput → Bytes
outputs_text [] = 255 ∷ []
outputs_text (o ∷ os) = o.amount ∷ outputs_text os

abbrev ref_text : List TxOutRef → Bytes
ref_text [] = 255 ∷ []
ref_text (r ∷ rs) = r.index ∷ ref_text rs

abbrev pub toy : Crypto
toy = record {
  digest = fill 32;
  signature_ok = λ key msg sig. test (bytes_discrete sig (key ++ msg));
  sign = λ key msg. key ++ msg;
  verifying_key = λ key. key;
  hex_encode = to_hex;
  hex_decode = from_hex;
  header_json = λ h. h.height ∷ h.slot ∷ h.merkle_root;
  transaction_json = λ tx.
      kind_text tx.kind
      ++ ref_text (map (λ (i : TxInput). i.out_ref) tx.inputs)
      ++ outputs_text tx.outputs;
  signing_json = λ d. kind_text d.kind ++ ref_text d.inputs ++ outputs_text d.outputs;
}

length-fill : (n : ℕ) (s : Bytes) → length (fill n s) ≡ n
length-fill zero s = refl
length-fill (suc n) [] = omega (arith, length-fill n [])
length-fill (suc n) (x ∷ s) = omega (arith, length-fill n s)

fill_bytes : (n : ℕ) (s : Bytes) → All IsByte (fill n s)
fill_bytes zero s = tt
fill_bytes (suc n) [] = (omega arith, fill_bytes n [])
fill_bytes (suc n) (x ∷ s) = (omega arith, fill_bytes n s)

length-to_hex : (s : Bytes) → length (to_hex s) ≡ 2 * length s
length-to_hex [] = refl
length-to_hex (x ∷ s) = omega (arith, length-to_hex s)

digit_lower : (n : ℕ) → n < 16 → IsLowerHex (digit n)
digit_lower n h = ground (arith, h)

to_hex_lower : (s : Bytes) → All IsLowerHex (to_hex s)
to_hex_lower [] = tt
to_hex_lower (x ∷ s) =
    (digit_lower (x % 256 / 16) (omega arith), (digit_lower (x % 16) (omega arith), to_hex_lower s))

digit_value-digit : (n : ℕ) → n < 16 → digit_value (digit n) ≡ n
digit_value-digit n h = ground (arith, h)

from_hex-to_hex : (s : Bytes) → All IsByte s → from_hex (to_hex s) ≡ some s
from_hex-to_hex [] h = refl
from_hex-to_hex (x ∷ s) h = ground (
  arith,
  h.0,
  from_hex-to_hex s h.1,
  digit_value-digit (x % 256 / 16) (omega arith),
  digit_value-digit (x % 16) (omega arith),
)

pub toy-laws : CryptoLaws toy
toy-laws = record {
  length-digest = length-fill 32;
  digest_bytes = fill_bytes 32;
  length-hex_encode = length-to_hex;
  hex_encode_lower = to_hex_lower;
  hex_decode-hex_encode = from_hex-to_hex;
  signature_ok-sign = λ key msg. ground arith;
}
