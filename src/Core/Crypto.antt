-- ===== src/Core/Crypto.antt =====
-- crates/bcc-core/src/crypto, over the third-party crates that the program calls: `sha2`,
-- `ed25519_dalek`, `hex` and `serde_json` are the fields of a parameter.
use better_call_chain.Prelude.{
  ℕ, ◌*◌, ◌≤◌, ◌<◌, ◌≡◌, ◌⊎◌, Bool, true, Option, some, Result, guard, length, All,
}
use better_call_chain.Core.Types.{Bytes, BlockHash, BlockHeader, Transaction, TxSigningData}

pub record Crypto : Type 0 where
  -- `Sha256::digest`
  pub digest : Bytes → Bytes
  -- `VerifyingKey::verify(msg, sig).is_ok()`, `SigningKey::sign`, `SigningKey::verifying_key`
  pub signature_ok : Bytes → Bytes → Bytes → Bool
  pub sign : Bytes → Bytes → Bytes
  pub verifying_key : Bytes → Bytes
  -- `hex::encode`, `hex::decode`
  pub hex_encode : Bytes → Bytes
  pub hex_decode : Bytes → Option Bytes
  -- `serde_json::to_vec` at the types that the program hashes and signs
  pub header_json : BlockHeader → Bytes
  pub transaction_json : Transaction → Bytes
  pub signing_json : TxSigningData → Bytes

-- The lowercase hexadecimal digits.
abbrev pub IsLowerHex : ℕ → Type 0
IsLowerHex x = ((b'0' ≤ x) × (x ≤ b'9')) ⊎ ((b'a' ≤ x) × (x ≤ b'f'))

abbrev pub IsByte : ℕ → Type 0
IsByte x = x < 256

-- What the crates document: a digest has 32 bytes, `hex::encode` writes two lowercase digits for
-- each byte and `hex::decode` reads them back, and a signature is valid for the key that made it.
pub record CryptoLaws (c : Crypto) : Type 0 where
  pub length-digest : (s : Bytes) → length (c.digest s) ≡ 32
  pub digest_bytes : (s : Bytes) → All IsByte (c.digest s)
  pub length-hex_encode : (s : Bytes) → length (c.hex_encode s) ≡ 2 * length s
  pub hex_encode_lower : (s : Bytes) → All IsLowerHex (c.hex_encode s)
  pub hex_decode-hex_encode : (s : Bytes) → All IsByte s → c.hex_decode (c.hex_encode s) ≡ some s
  pub signature_ok-sign :
      (key msg : Bytes) → c.signature_ok (c.verifying_key key) msg (c.sign key msg) ≡ true

-- `BccError::Crypto`
pub data CryptoError : Type 0 where
  crypto : CryptoError

module _ (c : Crypto) where
  unfoldable pub sha256 : Bytes → BlockHash
  sha256 bytes = c.digest bytes

  unfoldable pub sha256d : Bytes → BlockHash
  sha256d bytes = c.digest (c.digest bytes)

  unfoldable pub verify : Bytes → Bytes → Bytes → Result CryptoError (Unit {0})
  verify pubkey msg sig = guard (c.signature_ok pubkey msg sig) crypto
