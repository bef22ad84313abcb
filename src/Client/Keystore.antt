-- ===== src/Client/Keystore.antt =====
-- crates/bcc-client/src/keystore.rs. A signing key is its seed of 32 bytes; what `create` draws at
-- random is an argument. The branch for Windows is left out.
pub mod Saved
use better_call_chain.Prelude.{
  ℕ, ◌≡◌, ◌≢◌, Bool, true, false, Option, none, some, Result, ok, err, ok_or, map_err, guard, ◌>>=◌,
  ◌>>◌, if◌then◌else◌, ◌==◌, length, All,
}
use better_call_chain.Core.Types.{Bytes, Address}
use better_call_chain.Core.Crypto.{Crypto, IsByte}
use better_call_chain.Core.Address.{from_pubkey_bytes, validate}
use better_call_chain.Client.Errors.{
  ClientError, keystore_io, keystore_parse, wrong_passphrase, address, hex, config,
}

pub record KeystoreFile : Type 0 where
  pub version : ℕ
  pub address : Bytes
  pub salt : Bytes
  pub nonce : Bytes
  pub ciphertext : Bytes

-- The crates `argon2`, `aes_gcm` and `serde_json` at the types that the keystore uses.
pub record Vault : Type 0 where
  -- `Params::new(m_cost, t_cost, p_cost, Some(len))` and `hash_password_into`
  pub hash_password : (m_cost t_cost p_cost len : ℕ) → (passphrase salt : Bytes) → Option Bytes
  -- `Aes256Gcm::encrypt` and `decrypt` by key and nonce
  pub encrypt : (key nonce plaintext : Bytes) → Option Bytes
  pub decrypt : (key nonce ciphertext : Bytes) → Option Bytes
  -- `serde_json::to_string_pretty` and `from_str`
  pub to_string : KeystoreFile → Option Bytes
  pub from_str : Bytes → Option KeystoreFile

-- What the crates document: what is encrypted is decrypted under the same key and nonce, a
-- ciphertext is bytes, and what is written as JSON is read back.
pub record VaultLaws (v : Vault) : Type 0 where
  pub decrypt-encrypt :
      (key nonce m s : Bytes) → v.encrypt key nonce m ≡ some s → v.decrypt key nonce s ≡ some m
  pub encrypt_bytes : (key nonce m s : Bytes) → v.encrypt key nonce m ≡ some s → All IsByte s
  pub from_str-to_string :
      (ks : KeystoreFile) (text : Bytes) → v.to_string ks ≡ some text → v.from_str text ≡ some ks

-- `std::fs`, by the calls of the keystore; a write or a renaming tells whether it succeeded.
pub record Disk : Type 1 where
  pub Files : Type 0
  pub read_to_string : Files → Bytes → Option Bytes
  pub write : Files → Bytes → Bytes → Files × Bool
  pub rename : Files → Bytes → Bytes → Files × Bool
  -- `path.with_extension("tmp")`
  pub with_tmp : Bytes → Bytes

-- A written file holds the text, no write touches another file, and a renaming replaces its target
-- as a whole or leaves it.
pub record DiskLaws (d : Disk) : Type 0 where
  pub read-write :
      (fs : d.Files) (path text : Bytes)
      → (d.write fs path text).1 ≡ true
      → d.read_to_string (d.write fs path text).0 path ≡ some text
  pub read-write_other :
      (fs : d.Files) (path other text : Bytes)
      → other ≢ path
      → d.read_to_string (d.write fs path text).0 other ≡ d.read_to_string fs other
  pub read-rename :
      (fs : d.Files) (source target : Bytes)
      → (d.rename fs source target).1 ≡ true
      → d.read_to_string (d.rename fs source target).0 target ≡ d.read_to_string fs source
  pub read-rename_failed :
      (fs : d.Files) (source target : Bytes)
      → (d.rename fs source target).1 ≡ false
      → d.read_to_string (d.rename fs source target).0 target ≡ d.read_to_string fs target

module _ (c : Crypto) (v : Vault) (d : Disk) where
  unfoldable pub derive_key : Bytes → Bytes → Result ClientError Bytes
  derive_key passphrase salt = ok_or (v.hash_password 65536 3 4 32 passphrase salt) config

  -- The file that `create` writes, from the seed, the salt and the nonce.
  unfoldable pub sealed : Bytes → Bytes → Bytes → Bytes → Result ClientError KeystoreFile
  unfolding derive_key
  sealed passphrase seed salt nonce = do
    aes_key ← derive_key passphrase salt
    ciphertext ← ok_or (v.encrypt aes_key nonce seed) config
    ok (record {
      version = 1;
      address = (from_pubkey_bytes c (c.verifying_key seed)).text;
      salt = c.hex_encode salt;
      nonce = c.hex_encode nonce;
      ciphertext = c.hex_encode ciphertext;
    })

  -- `serde_json::to_string_pretty(&ks)?`
  abbrev pub sealed_text : Bytes → Bytes → Bytes → Bytes → Result ClientError Bytes
  sealed_text passphrase seed salt nonce = do
    ks ← sealed passphrase seed salt nonce
    ok_or (v.to_string ks) keystore_parse

  abbrev pub Saved : Type 0
  Saved = d.Files × Result ClientError Address

  unfoldable pub renamed : Address → d.Files × Bool → Saved
  renamed a (fs, false) = (fs, err keystore_io)
  renamed a (fs, true) = (fs, ok a)

  unfoldable pub move_into : Bytes → Address → d.Files × Bool → Saved
  unfolding renamed
  move_into path a (fs, false) = (fs, err keystore_io)
  move_into path a (fs, true) = renamed a (d.rename fs (d.with_tmp path) path)

  unfoldable pub save : d.Files → Bytes → Address → Result ClientError Bytes → Saved
  unfolding move_into
  save fs path a (err e) = (fs, err e)
  save fs path a (ok json) = move_into path a (d.write fs (d.with_tmp path) json)

  unfoldable pub create : d.Files → Bytes → Bytes → Bytes → Bytes → Bytes → Saved
  unfolding sealed save
  create fs path passphrase seed salt nonce =
      save fs path (from_pubkey_bytes c (c.verifying_key seed))
        (sealed_text passphrase seed salt nonce)

  unfoldable pub read_file : d.Files → Bytes → Result ClientError KeystoreFile
  read_file fs path = do
    json ← ok_or (d.read_to_string fs path) keystore_io
    ok_or (v.from_str json) keystore_parse

  pub record Opened : Type 0 where
    pub salt : Bytes
    pub nonce : Bytes
    pub ciphertext : Bytes

  unfoldable pub opened : KeystoreFile → Result ClientError Opened
  opened ks = do
    salt ← ok_or (c.hex_decode ks.salt) hex
    nonce ← ok_or (c.hex_decode ks.nonce) hex
    ciphertext ← ok_or (c.hex_decode ks.ciphertext) hex
    ok (record { salt = salt; nonce = nonce; ciphertext = ciphertext })

  unfoldable pub decrypted : Bytes → Opened → Result ClientError Bytes
  unfolding derive_key
  decrypted passphrase o = do
    aes_key ← derive_key passphrase o.salt
    plaintext ← ok_or (v.decrypt aes_key o.nonce o.ciphertext) wrong_passphrase
    guard (length plaintext == 32) config
    ok plaintext

  -- `Nonce::from_slice` panics on a slice of another length than 12: `none`.
  unfoldable pub unlock : Bytes → Result ClientError Opened → Option (Result ClientError Bytes)
  unfolding decrypted
  unlock passphrase (err e) = some (err e)
  unlock passphrase (ok o) = if length o.nonce == 12 then some (decrypted passphrase o) else none

  unfoldable pub load_and_decrypt : d.Files → Bytes → Bytes → Option (Result ClientError Bytes)
  unfolding read_file opened unlock
  load_and_decrypt fs path passphrase = unlock passphrase (do ks ← read_file fs path; opened ks)

  unfoldable pub read_address : d.Files → Bytes → Result ClientError Address
  unfolding read_file
  read_address fs path = do ks ← read_file fs path; map_err (λ _. address) (validate ks.address)
