-- ===== src/Core/Address/Laws.antt =====
-- What `Address::validate` accepts, and the addresses that the program derives.
use better_call_chain.Prelude.{
  ℕ, zero, suc, ◌≤◌, ◌≡◌, refl, sym, ap, ◌∙◌, subst, ◌≢◌, ◌↔◌, true, [], ◌∷◌, ◌++◌, ok, arith,
  length, take, drop, All,
}
use better_call_chain.Core.Types.{Bytes, Address}
use better_call_chain.Core.Crypto.{Crypto, CryptoLaws, IsLowerHex, sha256}
use better_call_chain.Core.Address.{
  prefix, starts_with, is_hexdigit, all_hexdigits, validate, from_pubkey_bytes,
}

starts_with-append : (p s : Bytes) → starts_with (p ++ s) p ≡ true
unfolding starts_with
starts_with-append [] s = refl
starts_with-append (x ∷ p) s = ground (arith, starts_with-append p s)

all_hexdigits_of_lower : (s : Bytes) → All IsLowerHex s → all_hexdigits s ≡ true
unfolding all_hexdigits is_hexdigit
all_hexdigits_of_lower [] h = refl
all_hexdigits_of_lower (x ∷ s) h = ground (arith, all_hexdigits_of_lower s h.1)

-- A text that starts with "bcs1" is "bcs1" and the rest.
starts_with-prefix : (s : Bytes) → starts_with s prefix ≡ true → s ≡ prefix ++ drop 4 s
unfolding starts_with
starts_with-prefix (a ∷ b ∷ c ∷ d ∷ s) h = ground arith
starts_with-prefix (a ∷ b ∷ c ∷ []) h = absurd (ground arith)
starts_with-prefix (a ∷ b ∷ []) h = absurd (ground arith)
starts_with-prefix (a ∷ []) h = absurd (ground arith)
starts_with-prefix [] h = cc

abbrev Accepted : Bytes → Address → Type 0
Accepted s a =
    (payload : Bytes) × (s ≡ prefix ++ payload)
    × (length payload ≡ 40)
    × (all_hexdigits payload ≡ true)
    × (a.text ≡ s)

validate-Accepted : (s : Bytes) (a : Address) → validate s ≡ ok a → Accepted s a
unfolding validate
validate-Accepted s a h =
    (drop 4 s, starts_with-prefix s (ground arith), ground arith, ground arith, ground arith)

Accepted-validate : (s : Bytes) (a : Address) → Accepted s a → validate s ≡ ok a
unfolding validate
Accepted-validate s a (payload, e, l, h, t) =
    rw (e, starts_with-append prefix payload) (ground arith)

-- `validate` accepts exactly the texts "bcs1" followed by 40 hexadecimal digits, and returns the
-- text unchanged.
pub validate_iff :
    (s : Bytes) (a : Address)
    → (validate s ≡ ok a) ↔ (
        (payload : Bytes) × (s ≡ prefix ++ payload)
        × (length payload ≡ 40)
        × (all_hexdigits payload ≡ true)
        × (a.text ≡ s))
validate_iff s a = (validate-Accepted s a, Accepted-validate s a)

length-take : (n : ℕ) (s : Bytes) → n ≤ length s → length (take n s) ≡ n
length-take zero s h = refl
length-take (suc n) [] h = absurd (omega arith)
length-take (suc n) (x ∷ s) h = ap suc (length-take n s (omega arith))

module _ (c : Crypto) (laws : CryptoLaws c) where
  -- An address that is derived from a public key passes `validate`, as itself.
  pub validate-from_pubkey_bytes :
      (pubkey : Bytes)
      → validate (from_pubkey_bytes c pubkey).text ≡ ok (from_pubkey_bytes c pubkey)
  unfolding from_pubkey_bytes sha256
  validate-from_pubkey_bytes pubkey = Accepted-validate _ _ (
    digits,
    refl,
    omega (
      arith,
      laws.length-hex_encode hash,
      length-take 20 (c.digest pubkey) (omega (arith, laws.length-digest pubkey)),
    ),
    all_hexdigits_of_lower digits (laws.hex_encode_lower hash),
    refl,
  )
    where
      hash : Bytes
      hash = take 20 (c.digest pubkey)

      digits : Bytes
      digits = c.hex_encode hash

  -- An address text with an uppercase digit is accepted by `validate` like its lowercase form, but
  -- no public key derives it: what is paid to it cannot be spent.
  pub uppercase_unspendable :
      (s rest : Bytes) (x : ℕ) (done : Bytes) (a : Address) (pubkey : Bytes)
      → validate s ≡ ok a
      → s ≡ prefix ++ done ++ x ∷ rest
      → b'A' ≤ x
      → x ≤ b'F'
      → a ≢ from_pubkey_bytes c pubkey
  unfolding from_pubkey_bytes
  uppercase_unspendable s rest x done a pubkey h e lo hi same =
      not_lower done rest
        (subst (All IsLowerHex) (sym digits) (laws.hex_encode_lower (take 20 (sha256 c pubkey))))
    where
      text : a.text ≡ s
      text = (validate-Accepted s a h).4

      digits : done ++ x ∷ rest ≡ c.hex_encode (take 20 (sha256 c pubkey))
      digits = ap (drop 4) (sym e ∙ sym text ∙ ap (λ (b : Address). b.text) same)

      not_lower : (done rest : Bytes) → All IsLowerHex (done ++ x ∷ rest) → ⊥
      not_lower [] rest (l, _) = omega arith
      not_lower (y ∷ done) rest (_, l) = not_lower done rest l
