-- ===== src/Client/Keystore/Saved.antt =====
-- What a saved keystore gives back.
use better_call_chain.Prelude.{
  ◌≡◌, ◌≢◌, refl, ap, ◌∙◌, ◌⊎◌, inl, inr, Bool, true, false, some, Result, ok, err, Result-cases,
  Option-cases, length, All, arith,
}
use better_call_chain.Core.Types.{Bytes, Address}
use better_call_chain.Core.Crypto.{Crypto, CryptoLaws, IsByte}
use better_call_chain.Core.Address.{from_pubkey_bytes}
use better_call_chain.Core.Address.Laws.{validate-from_pubkey_bytes}
use better_call_chain.Client.Errors.{ClientError, keystore_io}
use better_call_chain.Client.Keystore.{
  KeystoreFile, Vault, VaultLaws, Disk, DiskLaws, sealed, sealed_text, Saved, renamed, move_into,
  save, create, read_file, opened, unlock, load_and_decrypt, read_address,
}

module _ (c : Crypto) (v : Vault) (d : Disk) (dl : DiskLaws d) where
  -- The file at the path is the whole text with a success, or as before with an error.
  abbrev IsWhole : d.Files → Bytes → Result ClientError Bytes → Address → Saved c v d → Type 0
  IsWhole fs path json a out =
      ((text : Bytes) × (json ≡ ok text)
        × (out.1 ≡ ok a)
        × (d.read_to_string out.0 path ≡ some text))
      ⊎ ((e : ClientError) × (out.1 ≡ err e)
          × (path ≢ d.with_tmp path → d.read_to_string out.0 path ≡ d.read_to_string fs path))

  renamed-IsWhole :
      (fs fs' : d.Files) (path text : Bytes) (a : Address) (r : d.Files × Bool)
      → d.rename fs' (d.with_tmp path) path ≡ r
      → d.read_to_string fs' (d.with_tmp path) ≡ some text
      → (path ≢ d.with_tmp path → d.read_to_string fs' path ≡ d.read_to_string fs path)
      → IsWhole fs path (ok text) a (renamed c v d a r)
  unfolding renamed
  renamed-IsWhole fs fs' path text a (gs, true) e written kept =
      let moved = dl.read-rename fs' (d.with_tmp path) path in
      inl (text, refl, refl, rw e at moved refl ∙ written)
  renamed-IsWhole fs fs' path text a (gs, false) e written kept =
      let left = dl.read-rename_failed fs' (d.with_tmp path) path in
      inr (keystore_io, refl, λ apart. rw e at left refl ∙ kept apart)

  move_into-IsWhole :
      (fs : d.Files) (path text : Bytes) (a : Address) (w : d.Files × Bool)
      → d.write fs (d.with_tmp path) text ≡ w
      → IsWhole fs path (ok text) a (move_into c v d path a w)
  unfolding move_into
  move_into-IsWhole fs path text a (fs', true) e =
      let written = dl.read-write fs (d.with_tmp path) text in
      let kept = dl.read-write_other fs (d.with_tmp path) path text in
      renamed-IsWhole fs fs' path text a (d.rename fs' (d.with_tmp path) path) refl
        (rw e at written refl) (rw e at kept)
  move_into-IsWhole fs path text a (fs', false) e =
      let kept = dl.read-write_other fs (d.with_tmp path) path text in
      inr (keystore_io, refl, rw e at kept)

  save-IsWhole :
      (fs : d.Files) (path : Bytes) (a : Address) (json : Result ClientError Bytes)
      → IsWhole fs path json a (save c v d fs path a json)
  unfolding save
  save-IsWhole fs path a (err e) = inr (e, refl, λ _. refl)
  save-IsWhole fs path a (ok text) =
      move_into-IsWhole fs path text a (d.write fs (d.with_tmp path) text) refl

  -- A keystore is saved as a whole or not at all: where `create` succeeds, the file at the path is
  -- the whole text of the sealed key, and where it fails, in the sealing, in the write or in the
  -- renaming, a keystore that was at the path is there as before, if the path is not the
  -- temporary one itself.
  pub create-IsWhole :
      (fs : d.Files) (path passphrase seed salt nonce : Bytes)
      → let out = create c v d fs path passphrase seed salt nonce in
        ((text : Bytes) × (sealed_text c v d passphrase seed salt nonce ≡ ok text)
          × (out.1 ≡ ok (from_pubkey_bytes c (c.verifying_key seed)))
          × (d.read_to_string out.0 path ≡ some text))
        ⊎ ((e : ClientError) × (out.1 ≡ err e)
            × (path ≢ d.with_tmp path → d.read_to_string out.0 path ≡ d.read_to_string fs path))
  unfolding create
  create-IsWhole fs path passphrase seed salt nonce =
      save-IsWhole fs path (from_pubkey_bytes c (c.verifying_key seed))
        (sealed_text c v d passphrase seed salt nonce)

  pub create-address :
      (fs fs' : d.Files) (path passphrase seed salt nonce : Bytes) (a : Address)
      → create c v d fs path passphrase seed salt nonce ≡ (fs', ok a)
      → from_pubkey_bytes c (c.verifying_key seed) ≡ a
  create-address fs fs' path passphrase seed salt nonce a h =
      elim (create-IsWhole fs path passphrase seed salt nonce) [
        | inl (text, whole, done, found) ↦ cc (h, done)
        | inr (e, failed, _) ↦ absurd (cc (h, failed))
      ]

  module _ (cl : CryptoLaws c) (vl : VaultLaws v) where
    abbrev file_of : Bytes → Bytes → Bytes → Bytes → KeystoreFile
    file_of seed salt nonce ciphertext = record {
      version = 1;
      address = (from_pubkey_bytes c (c.verifying_key seed)).text;
      salt = c.hex_encode salt;
      nonce = c.hex_encode nonce;
      ciphertext = c.hex_encode ciphertext;
    }

    sealed-cases :
        (passphrase seed salt nonce : Bytes) (ks : KeystoreFile)
        → sealed c v d passphrase seed salt nonce ≡ ok ks
        → (key : Bytes) × (ciphertext : Bytes) × (v.hash_password 65536 3 4 32 passphrase salt
            ≡ some key)
          × (v.encrypt key nonce seed ≡ some ciphertext)
          × (ks ≡ file_of seed salt nonce ciphertext)
    unfolding sealed
    sealed-cases passphrase seed salt nonce ks h =
        elim (Option-cases (v.hash_password 65536 3 4 32 passphrase salt)) [
          | inl none_derived ↦ absurd (ground (arith, h, none_derived))
          | inr (key, derived) ↦ elim (Option-cases (v.encrypt key nonce seed)) [
            | inl failed ↦ absurd (ground (arith, h, derived, failed))
            | inr (s, done) ↦ (key, s, derived, done, ground (arith, h, derived, done))
          ]
        ]

    unlock-file_of :
        (passphrase seed salt nonce key s : Bytes)
        → length seed ≡ 32
        → length nonce ≡ 12
        → All IsByte salt
        → All IsByte nonce
        → v.hash_password 65536 3 4 32 passphrase salt ≡ some key
        → v.encrypt key nonce seed ≡ some s
        → unlock c v d passphrase (opened c v d (file_of seed salt nonce s)) ≡ some (ok seed)
    unfolding opened unlock
    unlock-file_of passphrase seed salt nonce key s ls ln bs bn derived done = rw (
      cl.hex_decode-hex_encode salt bs,
      cl.hex_decode-hex_encode nonce bn,
      cl.hex_decode-hex_encode s (vl.encrypt_bytes key nonce seed s done),
      ln,
      derived,
      vl.decrypt-encrypt key nonce seed s done,
      ls,
    )

    -- The text that was saved is that of a file with the sealed key.
    sealed_text-cases :
        (passphrase seed salt nonce text : Bytes)
        → sealed_text c v d passphrase seed salt nonce ≡ ok text
        → (key : Bytes) × (ciphertext : Bytes) × (v.hash_password 65536 3 4 32 passphrase salt
            ≡ some key)
          × (v.encrypt key nonce seed ≡ some ciphertext)
          × (v.from_str text ≡ some (file_of seed salt nonce ciphertext))
    sealed_text-cases passphrase seed salt nonce text h =
        elim (Result-cases (sealed c v d passphrase seed salt nonce)) [
          | inr (e, failed) ↦ absurd (ground (arith, h, failed))
          | inl (ks, done) ↦ elim (Option-cases (v.to_string ks)) [
            | inl failed ↦ absurd (ground (arith, h, done, failed))
            | inr (json, written) ↦
                let (key, s, derived, hidden, e) =
                  sealed-cases passphrase seed salt nonce ks done in
                let same : json ≡ text = ground (arith, h, done, written) in
                (
                  key,
                  s,
                  derived,
                  hidden,
                  vl.from_str-to_string ks text (written ∙ ap some same) ∙ ap some e,
                )
          ]
        ]

    read_back :
        (fs : d.Files) (path passphrase seed salt nonce text : Bytes)
        → length seed ≡ 32
        → length nonce ≡ 12
        → All IsByte salt
        → All IsByte nonce
        → sealed_text c v d passphrase seed salt nonce ≡ ok text
        → d.read_to_string fs path ≡ some text
        → (load_and_decrypt c v d fs path passphrase ≡ some (ok seed))
          × (read_address c v d fs path ≡ ok (from_pubkey_bytes c (c.verifying_key seed)))
    unfolding load_and_decrypt read_address read_file
    read_back fs path passphrase seed salt nonce text ls ln bs bn h found =
        let (key, s, derived, hidden, parsed) =
          sealed_text-cases passphrase seed salt nonce text h in
        (
          rw (found, parsed)
              (unlock-file_of passphrase seed salt nonce key s ls ln bs bn derived hidden),
          rw (found, parsed, validate-from_pubkey_bytes c cl (c.verifying_key seed)),
        )

    -- A keystore that `create` wrote is read back: with the same passphrase it opens to the key, and
    -- without a passphrase it tells the address that `create` returned.
    pub load_and_decrypt-create :
        (fs fs' : d.Files) (path passphrase seed salt nonce : Bytes) (a : Address)
        → length seed ≡ 32
        → length nonce ≡ 12
        → All IsByte salt
        → All IsByte nonce
        → create c v d fs path passphrase seed salt nonce ≡ (fs', ok a)
        → (load_and_decrypt c v d fs' path passphrase ≡ some (ok seed))
          × (read_address c v d fs' path ≡ ok a)
    load_and_decrypt-create fs fs' path passphrase seed salt nonce a ls ln bs bn h =
        elim (create-IsWhole fs path passphrase seed salt nonce) [
          | inl (text, whole, done, found) ↦
              let same : from_pubkey_bytes c (c.verifying_key seed) ≡ a = cc (h, done) in
              rw (← same) (
                read_back fs' path passphrase seed salt nonce text ls ln bs bn whole
                  (rw h at found))
          | inr (e, failed, _) ↦ absurd (cc (h, failed))
        ]
