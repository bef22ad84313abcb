-- ===== src/Client/Commands.antt =====
-- crates/bcc-client/src/cli.rs: the commands, from the parsed arguments to what they print. Prompts,
-- folders, the random bytes and the writing of TOML are a parameter.
pub mod Send
pub mod Init
use better_call_chain.Prelude.{
  ℕ, Bool, true, false, List, [], ◌∷◌, Option, none, some, Result, ok, err, ok_or, map_err, guard,
  ◌>>=◌, ◌>>◌, if◌then◌else◌, test,
}
use better_call_chain.Core.Types.{Bytes, Address, Transaction, bytes_discrete}
use better_call_chain.Core.Crypto.{Crypto}
use better_call_chain.Core.Address.{from_pubkey_bytes, validate}
use better_call_chain.Client.Errors.{
  ClientError, keystore_io, keystore_exists, passphrase_mismatch, address, config,
}
use better_call_chain.Client.Wallet.{select_coins, build_transfer}
use better_call_chain.Client.Keystore.{Vault, Disk, create, load_and_decrypt}
use better_call_chain.Client.Rpc.{
  Http, TipResponse, BalanceResponse, get_tip, get_balance, get_utxos, post_tx,
}

pub record NodeConfigToml : Type 0 where
  pub listen_addr : Bytes
  pub bootstrap_peers : List Bytes
  pub slot_duration_secs : ℕ
  pub http_addr : Bytes
  pub sled_path : Bytes
  pub mempool_max_size : ℕ
  pub genesis_path : Bytes
  pub my_address : Bytes
  pub my_signing_key : Bytes

-- The arguments of `node init` that go into the file.
pub record InitArgs : Type 0 where
  pub output : Bytes
  pub peers : List Bytes
  pub listen_addr : Bytes
  pub http_addr : Bytes
  pub sled_path : Bytes
  pub genesis_path : Bytes
  pub slot_duration : ℕ
  pub mempool_max_size : ℕ

pub data Command : Type 0 where
  wallet_new wallet_show : (keystore : Option Bytes) → Command
  balance : (raw_address : Bytes) → Command
  send : (recipient : Bytes) (amount : ℕ) (keystore : Option Bytes) → Command
  tip : Command
  init : (keystore : Option Bytes) → InitArgs → Command

-- What a command prints in the end.
pub data Report : Type 0 where
  created shown : Address → Report
  balance_is : BalanceResponse → Report
  submitted : (hash : Bytes) → Report
  tip_is : TipResponse → Report
  config_written : (output : Bytes) → Report

-- `rpassword`, by the number of the prompt; `rand`, by what it yields; paths; `toml`.
pub record Desk (d : Disk) : Type 0 where
  pub prompt : ℕ → Option Bytes
  pub seed : Bytes
  pub salt : Bytes
  pub nonce : Bytes
  pub default_path : Bytes
  pub exists : d.Files → Bytes → Bool
  pub parent : Bytes → Option Bytes
  pub create_dir_all : d.Files → Bytes → d.Files × Bool
  pub to_toml : NodeConfigToml → Option Bytes

-- `keystore_flag.unwrap_or_else(…)`
abbrev pub path_or : Option Bytes → Bytes → Bytes
path_or none default_path = default_path
path_or (some path) default_path = path

module _ (c : Crypto) (v : Vault) (d : Disk) (desk : Desk d) (http : Http) (url : Bytes) where
  -- The files that are left and the result; `none` is a panic of the keystore.
  abbrev pub Done : Type 0
  Done = d.Files × Option (Result ClientError Report)

  abbrev pub saved_report : d.Files × Result ClientError Address → Done
  saved_report (fs, err e) = (fs, some (err e))
  saved_report (fs, ok a) = (fs, some (ok (created a)))

  unfoldable pub new_in : Bytes → Bytes → d.Files × Bool → Done
  new_in path pass (fs, false) = (fs, some (err keystore_io))
  new_in path pass (fs, true) =
      saved_report (create c v d fs path pass desk.seed desk.salt desk.nonce)

  -- The passphrase that was entered twice, and the folder.
  unfoldable pub new_passphrase : Bytes → Result ClientError (Bytes × Bytes)
  new_passphrase path = do
    pass1 ← ok_or (desk.prompt 0) keystore_io
    pass2 ← ok_or (desk.prompt 1) keystore_io
    guard (test (bytes_discrete pass1 pass2)) passphrase_mismatch
    folder ← ok_or (desk.parent path) config
    ok (pass1, folder)

  unfoldable pub new_with : d.Files → Bytes → Result ClientError (Bytes × Bytes) → Done
  unfolding new_in
  new_with fs path (err e) = (fs, some (err e))
  new_with fs path (ok (pass, folder)) = new_in path pass (desk.create_dir_all fs folder)

  unfoldable pub cmd_wallet_new : d.Files → Bytes → Done
  unfolding new_passphrase new_with
  cmd_wallet_new fs path =
      if desk.exists fs path
      then (fs, some (err keystore_exists))
      else new_with fs path (new_passphrase path)

  -- `load_and_decrypt(…)?` and what is done with the key.
  abbrev pub with_key :
      (Bytes → Result ClientError Report)
      → Option (Result ClientError Bytes)
      → Option (Result ClientError Report)
  with_key use_key none = none
  with_key use_key (some (err e)) = some (err e)
  with_key use_key (some (ok key)) = some (use_key key)

  -- The key of the keystore, after the prompt.
  unfoldable pub unlocked : d.Files → Bytes → Option Bytes → Option (Result ClientError Bytes)
  unlocked fs path none = some (err keystore_io)
  unlocked fs path (some pass) = load_and_decrypt c v d fs path pass

  unfoldable pub cmd_wallet_show : d.Files → Bytes → Option (Result ClientError Report)
  unfolding unlocked
  cmd_wallet_show fs path =
      with_key (λ key. ok (shown (from_pubkey_bytes c (c.verifying_key key))))
        (unlocked fs path (desk.prompt 0))

  unfoldable pub cmd_balance : Bytes → Result ClientError Report
  cmd_balance raw_address = do
    map_err (λ _. address) (validate raw_address)
    resp ← get_balance http url raw_address
    ok (balance_is resp)

  unfoldable pub send_with : Bytes → ℕ → Bytes → Result ClientError Report
  send_with to amount signing_key = do
    let sender = from_pubkey_bytes c (c.verifying_key signing_key)
    recipient ← map_err (λ _. address) (validate to)
    utxos ← get_utxos http url sender.text
    selection ← select_coins utxos amount
    tx ← build_transfer c signing_key selection.selected recipient amount sender
    hash ← post_tx http url tx
    ok (submitted hash)

  unfoldable pub cmd_send : d.Files → Bytes → ℕ → Bytes → Option (Result ClientError Report)
  unfolding unlocked send_with
  cmd_send fs to amount path = with_key (send_with to amount) (unlocked fs path (desk.prompt 0))

  unfoldable pub cmd_chain_tip : Result ClientError Report
  cmd_chain_tip = do resp ← get_tip http url; ok (tip_is resp)

  unfoldable pub config_of : InitArgs → Bytes → NodeConfigToml
  config_of args signing_key = record {
    listen_addr = args.listen_addr;
    bootstrap_peers = args.peers;
    slot_duration_secs = args.slot_duration;
    http_addr = args.http_addr;
    sled_path = args.sled_path;
    mempool_max_size = args.mempool_max_size;
    genesis_path = args.genesis_path;
    my_address = (from_pubkey_bytes c (c.verifying_key signing_key)).text;
    my_signing_key = c.hex_encode signing_key;
  }

  abbrev pub config_saved : Bytes → d.Files × Bool → Done
  config_saved output (fs, false) = (fs, some (err keystore_io))
  config_saved output (fs, true) = (fs, some (ok (config_written output)))

  unfoldable pub write_config : Bytes → Bytes → d.Files × Bool → Done
  write_config output text (fs, false) = (fs, some (err keystore_io))
  write_config output text (fs, true) = config_saved output (d.write fs output text)

  -- The parent folder, unless it is the empty path.
  unfoldable pub with_folder : d.Files → Option Bytes → d.Files × Bool
  with_folder fs none = (fs, true)
  with_folder fs (some []) = (fs, true)
  with_folder fs (some (x ∷ folder)) = desk.create_dir_all fs (x ∷ folder)

  unfoldable pub init_text : d.Files → Bytes → Result ClientError Bytes → Done
  unfolding write_config with_folder
  init_text fs output (err e) = (fs, some (err e))
  init_text fs output (ok text) = write_config output text (with_folder fs (desk.parent output))

  -- With the key of the keystore, or a fresh one.
  unfoldable pub init_key : d.Files → Option Bytes → Option (Result ClientError Bytes)
  unfolding unlocked
  init_key fs none = some (ok desk.seed)
  init_key fs (some path) = unlocked fs path (desk.prompt 0)

  unfoldable pub init_with : d.Files → InitArgs → Option (Result ClientError Bytes) → Done
  unfolding config_of init_text
  init_with fs args none = (fs, none)
  init_with fs args (some (err e)) = (fs, some (err e))
  init_with fs args (some (ok key)) =
      init_text fs args.output (ok_or (desk.to_toml (config_of args key)) config)

  unfoldable pub cmd_node_init : d.Files → Option Bytes → InitArgs → Done
  unfolding init_key init_with
  cmd_node_init fs keystore args = init_with fs args (init_key fs keystore)

  -- The dispatch on the command; those that write nothing leave the files.
  unfoldable pub run : Command → d.Files → Done
  unfolding cmd_wallet_new cmd_wallet_show cmd_balance cmd_send cmd_chain_tip cmd_node_init
  run (wallet_new keystore) fs = cmd_wallet_new fs (path_or keystore desk.default_path)
  run (wallet_show keystore) fs = (fs, cmd_wallet_show fs (path_or keystore desk.default_path))
  run (balance raw_address) fs = (fs, some (cmd_balance raw_address))
  run (send recipient amount keystore) fs =
      (fs, cmd_send fs recipient amount (path_or keystore desk.default_path))
  run tip fs = (fs, some cmd_chain_tip)
  run (init keystore args) fs = cmd_node_init fs keystore args
