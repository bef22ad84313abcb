-- ===== src/Tests/Codecs.antt =====
-- A small stand-in for `serde_json`: every number is one element, and a list follows its length.
use better_call_chain.Prelude.{ℕ, zero, suc, ◌≡◌, refl, List, [], ◌∷◌, Option, none, some, length}
use better_call_chain.Prelude.Words.{ℤ, pos, negsuc}
use better_call_chain.Core.Types.{
  Bytes, Address, TxOutRef, TxInput, TxOutput, TxKind, transfer, stake, unstake, Transaction,
  BlockHeader, Block, Validator,
}
use better_call_chain.Core.Memory.{and_then}
use better_call_chain.Client.Keystore.{KeystoreFile}
use better_call_chain.Client.Commands.{NodeConfigToml}
use better_call_chain.Node.Sled.{Codec, IsRoundTrip, Json, JsonLaws}

-- A value is written before the rest of the text and read off its start.
record Stream (A : Type 0) : Type 0 where
  put : A → Bytes → Bytes
  pull : Bytes → Option (A × Bytes)
  pull-put : (a : A) (rest : Bytes) → pull (put a rest) ≡ some (a, rest)

codec : {A : Type 0} → Stream A → Codec A
codec k = record { to_vec = λ a. k.put a []; from_slice = λ s. and_then (k.pull s) (λ p. some p.0) }

codec-IsRoundTrip : {A : Type 0} (k : Stream A) → IsRoundTrip (codec k)
unfolding codec
codec-IsRoundTrip k a = rw (k.pull-put a []) refl

abbrev pull_number : Bytes → Option (ℕ × Bytes)
pull_number [] = none
pull_number (n ∷ s) = some (n, s)

number : Stream ℕ
number = record { put = λ n rest. n ∷ rest; pull = pull_number; pull-put = λ a rest. refl }

pair : {A B : Type 0} → Stream A → Stream B → Stream (A × B)
pair k l = record {
  put = λ p rest. k.put p.0 (l.put p.1 rest);
  pull = λ s. and_then (k.pull s) (λ p. and_then (l.pull p.1) (λ q. some ((p.0, q.0), q.1)));
  pull-put = λ p rest. rw (k.pull-put p.0 (l.put p.1 rest), l.pull-put p.1 rest) refl;
}

module _ {A : Type 0} (k : Stream A) where
  put_all : List A → Bytes → Bytes
  put_all [] rest = rest
  put_all (x ∷ xs) rest = k.put x (put_all xs rest)

  pull_all : ℕ → Bytes → Option (List A × Bytes)
  pull_all zero s = some ([], s)
  pull_all (suc n) s =
      and_then (k.pull s) (λ p. and_then (pull_all n p.1) (λ q. some (p.0 ∷ q.0, q.1)))

  pull_list : Bytes → Option (List A × Bytes)
  pull_list [] = none
  pull_list (n ∷ s) = pull_all n s

  pull_all-put_all :
      (xs : List A) (rest : Bytes) → pull_all (length xs) (put_all xs rest) ≡ some (xs, rest)
  unfolding pull_all put_all
  pull_all-put_all [] rest = refl
  pull_all-put_all (x ∷ xs) rest =
      rw (k.pull-put x (put_all xs rest), pull_all-put_all xs rest) refl

  list : Stream (List A)
  unfolding pull_list
  list = record {
    put = λ xs rest. length xs ∷ put_all xs rest;
    pull = pull_list;
    pull-put = pull_all-put_all;
  }

-- One type as another.
like : {A B : Type 0} → Stream B → (f : A → B) (g : B → A) → ((a : A) → g (f a) ≡ a) → Stream A
like k f g law = record {
  put = λ a. k.put (f a);
  pull = λ s. and_then (k.pull s) (λ p. some (g p.0, p.1));
  pull-put = λ a rest. rw (k.pull-put (f a) rest, law a) refl;
}

bytes : Stream Bytes
bytes = list number

address : Stream Address
address = like bytes (λ a. a.text) (λ s. record { text = s }) (λ a. refl)

out_ref : Stream TxOutRef
out_ref =
    like (pair bytes number) (λ r. (r.tx_hash, r.index))
      (λ p. record { tx_hash = p.0; index = p.1 }) (λ r. refl)

input : Stream TxInput
input =
    like (pair out_ref (pair bytes bytes)) (λ i. (i.out_ref, (i.signature, i.pubkey)))
      (λ p. record { out_ref = p.0; signature = p.1.0; pubkey = p.1.1 }) (λ i. refl)

output : Stream TxOutput
output =
    like (pair number address) (λ o. (o.amount, o.address))
      (λ p. record { amount = p.0; address = p.1 }) (λ o. refl)

abbrev kind_numbers : TxKind → ℕ × ℕ
kind_numbers transfer = (0, 0)
kind_numbers (stake n) = (1, n)
kind_numbers (unstake n) = (2, n)

abbrev kind_of : ℕ × ℕ → TxKind
kind_of (zero, n) = transfer
kind_of (suc zero, n) = stake n
kind_of (suc (suc _), n) = unstake n

kind_of-kind_numbers : (k : TxKind) → kind_of (kind_numbers k) ≡ k
kind_of-kind_numbers transfer = refl
kind_of-kind_numbers (stake n) = refl
kind_of-kind_numbers (unstake n) = refl

transaction : Stream Transaction
transaction =
    like (pair (pair number number) (pair (list input) (list output)))
      (λ tx. (kind_numbers tx.kind, (tx.inputs, tx.outputs)))
      (λ p. record { kind = kind_of p.0; inputs = p.1.0; outputs = p.1.1 })
      (λ tx. rw (kind_of-kind_numbers tx.kind) refl)

abbrev sign_number : ℤ → ℕ × ℕ
sign_number (pos n) = (0, n)
sign_number (negsuc n) = (1, n)

abbrev of_sign : ℕ × ℕ → ℤ
of_sign (zero, n) = pos n
of_sign (suc _, n) = negsuc n

of_sign-sign_number : (z : ℤ) → of_sign (sign_number z) ≡ z
of_sign-sign_number (pos n) = refl
of_sign-sign_number (negsuc n) = refl

header : Stream BlockHeader
header =
    like (pair (pair bytes bytes) (pair (pair number number) (pair number (pair number address))))
      (λ h.
        ((h.prev_hash, h.merkle_root), (sign_number h.timestamp, (h.height, (h.slot, h.proposer)))))
      (λ p. record {
        prev_hash = p.0.0;
        merkle_root = p.0.1;
        timestamp = of_sign p.1.0;
        height = p.1.1.0;
        slot = p.1.1.1.0;
        proposer = p.1.1.1.1;
      })
      (λ h. rw (of_sign-sign_number h.timestamp) refl)

block : Stream Block
block =
    like (pair header (pair bytes (list transaction))) (λ b. (b.header, (b.signature, b.txs)))
      (λ p. record { header = p.0; signature = p.1.0; txs = p.1.1 }) (λ b. refl)

validator : Stream Validator
validator =
    like (pair address (pair bytes (pair number number)))
      (λ v. (v.address, (v.pubkey, (v.stake, v.active_since))))
      (λ p. record { address = p.0; pubkey = p.1.0; stake = p.1.1.0; active_since = p.1.1.1 })
      (λ v. refl)

pub json : Json
json = record {
  block = codec block;
  tip = codec (pair number bytes);
  out_ref = codec out_ref;
  output = codec output;
  validator = codec validator;
}

pub json-laws : JsonLaws json
unfolding json
json-laws = record {
  block_lem = codec-IsRoundTrip block;
  tip_lem = codec-IsRoundTrip (pair number bytes);
  out_ref_lem = codec-IsRoundTrip out_ref;
  output_lem = codec-IsRoundTrip output;
  validator_lem = codec-IsRoundTrip validator;
}

keystore_stream : Stream KeystoreFile
keystore_stream =
    like (pair number (pair bytes (pair bytes (pair bytes bytes))))
      (λ k. (k.version, (k.address, (k.salt, (k.nonce, k.ciphertext)))))
      (λ p. record {
        version = p.0;
        address = p.1.0;
        salt = p.1.1.0;
        nonce = p.1.1.1.0;
        ciphertext = p.1.1.1.1;
      })
      (λ k. refl)

pub keystore : Codec KeystoreFile
keystore = codec keystore_stream

pub keystore-IsRoundTrip : IsRoundTrip keystore
unfolding keystore
keystore-IsRoundTrip = codec-IsRoundTrip keystore_stream

config_stream : Stream NodeConfigToml
config_stream =
    like
      (pair bytes (
        pair (list bytes)
          (pair number (pair bytes (pair bytes (pair number (pair bytes (pair bytes bytes))))))))
      (λ t. (
        t.listen_addr,
        (
          t.bootstrap_peers,
          (
            t.slot_duration_secs,
            (
              t.http_addr,
              (
                t.sled_path,
                (t.mempool_max_size, (t.genesis_path, (t.my_address, t.my_signing_key))),
              ),
            ),
          ),
        ),
      ))
      (λ p. record {
        listen_addr = p.0;
        bootstrap_peers = p.1.0;
        slot_duration_secs = p.1.1.0;
        http_addr = p.1.1.1.0;
        sled_path = p.1.1.1.1.0;
        mempool_max_size = p.1.1.1.1.1.0;
        genesis_path = p.1.1.1.1.1.1.0;
        my_address = p.1.1.1.1.1.1.1.0;
        my_signing_key = p.1.1.1.1.1.1.1.1;
      })
      (λ t. refl)

pub toml : Codec NodeConfigToml
toml = codec config_stream

pub toml-IsRoundTrip : IsRoundTrip toml
unfolding toml
toml-IsRoundTrip = codec-IsRoundTrip config_stream
