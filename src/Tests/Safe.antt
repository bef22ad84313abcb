-- ===== src/Tests/Safe.antt =====
-- A small stand-in for the ciphers and the file system of the keystore, and the theorems about the
-- keystore at concrete inputs.
use better_call_chain.Prelude.{
  ℕ, ◌≡◌, ◌≢◌, refl, ◌⊎◌, Bool, true, false, Bool-cases, inl, inr, List, [], ◌∷◌, ◌++◌, Option,
  none, some, ok, err, if◌then◌else◌, ltb, ◌&&◌, All, arith, ◌∙◌, ◌%◌, ◌==◌,
}
use mathlib.Core.List.{lookup}
use mathlib.Core.Logic.{if_pos, if_neg}
use better_call_chain.Prelude.Maps.{insert, lookup-insert}
use better_call_chain.Core.Types.{Bytes, bytes_discrete}
use better_call_chain.Core.Crypto.{IsByte}
use better_call_chain.Core.Merkle.{zeros}
use better_call_chain.Prelude.Words.{total}
use better_call_chain.Core.Address.{from_pubkey_bytes}
use better_call_chain.Client.Errors.{ClientError}
use better_call_chain.Client.Keystore.{
  Vault, VaultLaws, Disk, DiskLaws, sealed_text, create, load_and_decrypt, read_address,
}
use better_call_chain.Client.Keystore.Saved.{create-IsWhole, load_and_decrypt-create}
use better_call_chain.Tests.Toy.{toy, toy-laws}
use better_call_chain.Tests.Codecs.{keystore, keystore-IsRoundTrip}

abbrev pub are_bytes : Bytes → Bool
are_bytes [] = true
are_bytes (x ∷ s) = ltb x 256 && are_bytes s

pub are_bytes-All : (s : Bytes) → are_bytes s ≡ true → All IsByte s
are_bytes-All [] h = tt
are_bytes-All (x ∷ s) h = (ground arith, are_bytes-All s (ground arith))

-- A ciphertext is the sum of the key, by which it is recognised, and the text.
abbrev pub tag : Bytes → ℕ
tag key = total key % 256

abbrev pub hide : Bytes → Bytes → Option Bytes
hide key m = if are_bytes m then some (tag key ∷ m) else none

abbrev pub show : Bytes → Bytes → Option Bytes
show key [] = none
show key (t ∷ s) = if t == tag key then some s else none

hide-cases : (key m s : Bytes) → hide key m ≡ some s → (s ≡ tag key ∷ m) × (are_bytes m ≡ true)
hide-cases key m s h = elim (Bool-cases (are_bytes m)) [
  | inl yes_bytes ↦ (ground (arith, h, yes_bytes), yes_bytes)
  | inr not_bytes ↦ absurd (ground (arith, h, not_bytes))
]

show-tag : (key m : Bytes) → show key (tag key ∷ m) ≡ some m
show-tag key m = ground arith

abbrev pub vault : Vault
vault = record {
  hash_password = λ _ _ _ _ passphrase salt. some (passphrase ++ salt);
  encrypt = λ key _ m. hide key m;
  decrypt = λ key _ s. show key s;
  to_string = λ ks. some (keystore.to_vec ks);
  from_str = λ text. keystore.from_slice text;
}

pub vault-laws : VaultLaws vault
vault-laws = record {
  decrypt-encrypt = λ key nonce m s h. rw (hide-cases key m s h).0 (show-tag key m);
  encrypt_bytes = λ key nonce m s h.
      rw (hide-cases key m s h).0 (omega arith, are_bytes-All m (hide-cases key m s h).1);
  from_str-to_string =
      λ ks text h. let e : keystore.to_vec ks ≡ text = cc (h) in rw (← e) (keystore-IsRoundTrip ks);
}

abbrev pub Table : Type 0
Table = List (Bytes × Bytes)

abbrev pub move_found : Bytes → Table → Option Bytes → Table × Bool
move_found target t none = (t, false)
move_found target t (some text) = (insert bytes_discrete target text t, true)

abbrev pub files : Disk
files = record {
  Files = Table;
  read_to_string = λ t path. lookup bytes_discrete path t;
  write = λ t path text. (insert bytes_discrete path text t, true);
  rename = λ t source target. move_found target t (lookup bytes_discrete source t);
  with_tmp = λ path. path ++ b't' ∷ [];
}

lookup-insert_self :
    (k v : Bytes) (t : Table) → lookup bytes_discrete k (insert bytes_discrete k v t) ≡ some v
lookup-insert_self k v t =
    lookup-insert bytes_discrete k k v t ∙ if_pos (bytes_discrete k k) refl _ _

lookup-insert_other :
    (j k v : Bytes) (t : Table)
    → j ≢ k
    → lookup bytes_discrete j (insert bytes_discrete k v t) ≡ lookup bytes_discrete j t
lookup-insert_other j k v t n =
    lookup-insert bytes_discrete j k v t ∙ if_neg (bytes_discrete j k) n _ _

moved :
    (target : Bytes) (t : Table) (found : Option Bytes)
    → (move_found target t found).1 ≡ true
    → lookup bytes_discrete target (move_found target t found).0 ≡ found
moved target t none h = absurd (cc (h))
moved target t (some text) h = lookup-insert_self target text t

not_moved :
    (target : Bytes) (t : Table) (found : Option Bytes)
    → (move_found target t found).1 ≡ false
    → lookup bytes_discrete target (move_found target t found).0 ≡ lookup bytes_discrete target t
not_moved target t none h = refl
not_moved target t (some text) h = absurd (cc (h))

pub files-laws : DiskLaws files
files-laws = record {
  read-write = λ t path text _. lookup-insert_self path text t;
  read-write_other = λ t path other text n. lookup-insert_other other path text t n;
  read-rename = λ t source target h. moved target t (lookup bytes_discrete source t) h;
  read-rename_failed = λ t source target h. not_moved target t (lookup bytes_discrete source t) h;
}

abbrev pub path : Bytes
path = b'w' ∷ []

abbrev pub passphrase : Bytes
passphrase = b'p' ∷ []

abbrev pub seed : Bytes
seed = zeros 32

abbrev pub salt : Bytes
salt = 7 ∷ []

abbrev pub nonce : Bytes
nonce = zeros 12

abbrev written : Table
written = (create toy vault files [] path passphrase seed salt nonce).0

created :
    create toy vault files [] path passphrase seed salt nonce
    ≡ (written, ok (from_pubkey_bytes toy seed))
unfolding create lookup insert bytes_discrete
created = refl

load_and_decrypt-create_example :
    (load_and_decrypt toy vault files written path passphrase ≡ some (ok seed))
    × (read_address toy vault files written path ≡ ok (from_pubkey_bytes toy seed))
load_and_decrypt-create_example =
    load_and_decrypt-create toy vault files files-laws toy-laws vault-laws [] written path
      passphrase seed salt nonce (from_pubkey_bytes toy seed) refl refl (omega arith, tt)
      (are_bytes-All nonce refl) created

abbrev earlier : Table
earlier = (path, 1 ∷ []) ∷ []

abbrev rewritten : Table
rewritten = (create toy vault files earlier path passphrase seed salt nonce).0

create-IsWhole_example :
    ((text : Bytes) × (sealed_text toy vault files passphrase seed salt nonce ≡ ok text)
      × ((create toy vault files earlier path passphrase seed salt nonce).1
          ≡ ok (from_pubkey_bytes toy seed))
      × (lookup bytes_discrete path rewritten ≡ some text))
    ⊎ ((e : ClientError) × ((create toy vault files earlier path passphrase seed salt nonce).1
          ≡ err e)
        × (path ≢ path ++ b't' ∷ []
            → lookup bytes_discrete path rewritten ≡ lookup bytes_discrete path earlier))
create-IsWhole_example =
    create-IsWhole toy vault files files-laws earlier path passphrase seed salt nonce
