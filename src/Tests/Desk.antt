-- ===== src/Tests/Desk.antt =====
-- The theorems about the client's commands and the node's configuration at concrete inputs.
use better_call_chain.Prelude.{
  ℕ, ◌≡◌, refl, ◌↔◌, ap, Bool, true, false, [], ◌∷◌, Option, none, some, Result, ok, length,
}
use better_call_chain.Core.Types.{Bytes, Address, Transaction}
use better_call_chain.Core.Address.{from_pubkey_bytes}
use better_call_chain.Core.Merkle.{zeros, tx_hash}
use better_call_chain.Core.Validation.Transactions.{UtxoGet}
use better_call_chain.Core.Memory.{get_output, and_then}
use better_call_chain.Node.State.{SocketAddr}
use better_call_chain.Node.Config.{NodeConfig, RawConfig, from_raw}
use better_call_chain.Node.Config.Checked.{IsTaken, from_raw_iff}
use better_call_chain.Client.Wallet.{UtxoItem}
use better_call_chain.Client.Rpc.{Response, Http}
use better_call_chain.Client.Commands.{
  NodeConfigToml, InitArgs, Desk, wallet_new, init, config_written, config_of, init_key, run,
}
use better_call_chain.Client.Commands.Init.{raw_of, run-init}
use better_call_chain.Tests.Toy.{toy, toy-laws}
use better_call_chain.Tests.Data.{pays, store}
use better_call_chain.Tests.Codecs.{toml, toml-IsRoundTrip}
use better_call_chain.Tests.Safe.{
  vault, files, files-laws, are_bytes-All, Table, path, passphrase, seed, salt, nonce,
}

abbrev item : UtxoItem
item = record { tx_hash = toy.hex_encode (zeros 32); index = 0; amount = 10 }

abbrev holder : Address
holder = from_pubkey_bytes toy seed

abbrev get : UtxoGet
get =
    get_output
      (record store { utxo = (record { tx_hash = zeros 32; index = 0 }, pays 10 holder) ∷ [] })

abbrev answer : Response
answer = record { status = 200; body = [] }

abbrev said : Transaction → Response
said tx = record { status = 200; body = toy.hex_encode (tx_hash toy tx) }

abbrev http : Http
http = record {
  get = λ _. some answer;
  post = λ _ tx. some (said tx);
  tip_json = λ _. none;
  balance_json = λ _. none;
  utxos_json = λ _. some (item ∷ []);
  tx_json = λ body. some body;
}

abbrev args : InitArgs
args = record {
  output = b'n' ∷ [];
  peers = [];
  listen_addr = 1 ∷ [];
  http_addr = 2 ∷ [];
  sled_path = [];
  genesis_path = [];
  slot_duration = 5;
  mempool_max_size = 10;
}

abbrev desk : Desk files
desk = record {
  prompt = λ _. some passphrase;
  seed = seed;
  salt = salt;
  nonce = nonce;
  default_path = path;
  exists = λ _ _. false;
  parent = λ _. some [];
  create_dir_all = λ fs _. (fs, true);
  to_toml = λ t. some (toml.to_vec t);
}

abbrev kept : Table
kept = (run toy vault files desk http [] (wallet_new (some path)) []).0

abbrev local : SocketAddr
local = record { ip = 127 ∷ []; port = 1 }

abbrev parse : Bytes → Option SocketAddr
parse _ = some local

abbrev from_toml : Bytes → Option RawConfig
from_toml text = and_then (toml.from_slice text) (λ t. some (raw_of t))

from_toml-to_toml :
    (t : NodeConfigToml) (text : Bytes)
    → desk.to_toml t ≡ some text
    → from_toml text ≡ some (raw_of t)
from_toml-to_toml t text h = let e : toml.to_vec t ≡ text = cc (h) in rw (← e, toml-IsRoundTrip t)

abbrev configured : Table
configured = (run toy vault files desk http [] (init none args) []).0

config_made :
    run toy vault files desk http [] (init none args) []
    ≡ (configured, some (ok (config_written args.output)))
unfolding run
config_made = refl

keyed : init_key toy vault files desk http [] [] none ≡ some (ok seed)
unfolding init_key
keyed = refl

run-init_example :
    (text : Bytes) × (raw : RawConfig) × (cfg : NodeConfig) × (files.read_to_string configured
        args.output
      ≡ some text)
    × (from_toml text ≡ some raw)
    × (from_raw toy parse raw ≡ ok cfg)
    × (cfg.my_signing_key ≡ seed)
run-init_example =
    run-init toy vault files desk http [] toy-laws files-laws parse from_toml [] configured none
      args seed local local [] (config_written args.output) from_toml-to_toml keyed refl
      (are_bytes-All seed refl) refl refl tt config_made

abbrev configuration : NodeConfig
configuration = record {
  listen_addr = local;
  bootstrap_peers = [];
  slot_duration_secs = 5;
  http_addr = local;
  sled_path = [];
  mempool_max_size = 10;
  genesis_path = [];
  my_address = holder;
  my_signing_key = seed;
}

from_raw_iff_example :
    (from_raw toy parse (raw_of (config_of toy vault files desk http [] args seed))
      ≡ ok configuration)
    ↔ IsTaken toy parse (raw_of (config_of toy vault files desk http [] args seed)) configuration
from_raw_iff_example =
    from_raw_iff toy parse (raw_of (config_of toy vault files desk http [] args seed)) configuration
