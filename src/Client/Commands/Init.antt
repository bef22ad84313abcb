-- ===== src/Client/Commands/Init.antt =====
-- What `node init` writes is a configuration that the node takes.
use better_call_chain.Prelude.{
  ◌≡◌, refl, ap, ◌∙◌, inl, inr, Bool, true, false, List, Option, some, Option-cases, Result, ok,
  err, ok_or, length, All, arith,
}
use better_call_chain.Core.Types.{Bytes}
use better_call_chain.Core.Crypto.{Crypto, CryptoLaws, IsByte}
use better_call_chain.Core.Address.{from_pubkey_bytes}
use better_call_chain.Core.Address.Laws.{validate-from_pubkey_bytes}
use better_call_chain.Node.State.{SocketAddr}
use better_call_chain.Node.Config.{NodeConfig, RawConfig, from_raw}
use better_call_chain.Node.Config.Checked.{AreParsed, from_raw_iff}
use better_call_chain.Client.Errors.{ClientError, config}
use better_call_chain.Client.Keystore.{Vault, Disk, DiskLaws}
use better_call_chain.Client.Rpc.{Http}
use better_call_chain.Client.Commands.{
  NodeConfigToml, InitArgs, Desk, init, Report, config_of, config_saved, write_config, with_folder,
  init_text, init_key, init_with, cmd_node_init, run,
}

-- The configuration as the node's reader has it: the fields of both structs have the same names.
abbrev pub raw_of : NodeConfigToml → RawConfig
raw_of t = record {
  listen_addr = t.listen_addr;
  bootstrap_peers = t.bootstrap_peers;
  slot_duration_secs = t.slot_duration_secs;
  http_addr = t.http_addr;
  sled_path = t.sled_path;
  mempool_max_size = t.mempool_max_size;
  genesis_path = t.genesis_path;
  my_address = t.my_address;
  my_signing_key = t.my_signing_key;
}

module _ (c : Crypto) (v : Vault) (d : Disk) (desk : Desk d) (http : Http) (url : Bytes) where
  -- The file at the path holds the text.
  config_saved-found :
      (dl : DiskLaws d) (fs fs' : d.Files) (output text : Bytes) (w : d.Files × Bool) (r : Report)
      → d.write fs output text ≡ w
      → config_saved c v d desk http url output w ≡ (fs', some (ok r))
      → d.read_to_string fs' output ≡ some text
  config_saved-found dl fs fs' output text (gs, false) r e h = absurd (cc (h))
  config_saved-found dl fs fs' output text (gs, true) r e h =
      let same : gs ≡ fs' = cc (h) in
      let found = dl.read-write fs output text in rw (← same) (rw e at found refl)

  write_config-found :
      (dl : DiskLaws d) (output text : Bytes) (w : d.Files × Bool) (fs' : d.Files) (r : Report)
      → write_config c v d desk http url output text w ≡ (fs', some (ok r))
      → d.read_to_string fs' output ≡ some text
  unfolding write_config
  write_config-found dl output text (fs, false) fs' r h = absurd (cc (h))
  write_config-found dl output text (fs, true) fs' r h =
      config_saved-found dl fs fs' output text (d.write fs output text) r refl h

  init_text-found :
      (dl : DiskLaws d) (fs fs' : d.Files) (output : Bytes) (t : Result ClientError Bytes)
      (r : Report)
      → init_text c v d desk http url fs output t ≡ (fs', some (ok r))
      → (text : Bytes) × (t ≡ ok text) × (d.read_to_string fs' output ≡ some text)
  unfolding init_text
  init_text-found dl fs fs' output (err e) r h = absurd (cc (h))
  init_text-found dl fs fs' output (ok text) r h = (
    text,
    refl,
    write_config-found dl output text (with_folder c v d desk http url fs (desk.parent output)) fs'
        r h,
  )

  config_of-IsTaken :
      (cl : CryptoLaws c) (parse : Bytes → Option SocketAddr) (args : InitArgs) (key : Bytes)
      (listen served : SocketAddr) (addrs : List SocketAddr)
      → length key ≡ 32
      → All IsByte key
      → parse args.listen_addr ≡ some listen
      → parse args.http_addr ≡ some served
      → AreParsed c parse args.peers addrs
      → (cfg : NodeConfig) × (from_raw c parse (raw_of (config_of c v d desk http url args key))
          ≡ ok cfg)
        × (cfg.my_signing_key ≡ key)
  unfolding config_of
  config_of-IsTaken cl parse args key listen served addrs sized bytes e1 e2 e3 =
      let cfg : NodeConfig = record {
        listen_addr = listen;
        bootstrap_peers = addrs;
        slot_duration_secs = args.slot_duration;
        http_addr = served;
        sled_path = args.sled_path;
        mempool_max_size = args.mempool_max_size;
        genesis_path = args.genesis_path;
        my_address = from_pubkey_bytes c (c.verifying_key key);
        my_signing_key = key;
      } in
      (
        cfg,
        (from_raw_iff c parse (raw_of (config_of c v d desk http url args key)) cfg).1 (record {
          listens = e1;
          serves = e2;
          dials = e3;
          named = validate-from_pubkey_bytes c cl (c.verifying_key key);
          keyed = cl.hex_decode-hex_encode key bytes;
          sized = sized;
          owned = refl;
          kept = (refl, refl, refl, refl);
        }),
        refl,
      )

  written_text :
      (dl : DiskLaws d) (fs fs' : d.Files) (args : InitArgs) (key : Bytes) (r : Report)
      → init_with c v d desk http url fs args (some (ok key)) ≡ (fs', some (ok r))
      → (text : Bytes) × (desk.to_toml (config_of c v d desk http url args key) ≡ some text)
        × (d.read_to_string fs' args.output ≡ some text)
  unfolding init_with
  written_text dl fs fs' args key r h =
      let toml = desk.to_toml (config_of c v d desk http url args key) in
      let (text, made, found) = init_text-found dl fs fs' args.output (ok_or toml config) r h in
      elim (Option-cases toml) [
        | inl missing ↦ absurd (ground (arith, made, missing))
        | inr (t, e) ↦
            let same : t ≡ text = ground (arith, made, e) in
            (text, e ∙ ap (λ s. some s) same, found)
      ]

  -- What `node init` writes, the node takes: where it succeeds, with the key of a keystore or a fresh
  -- one of 32 bytes, and the addresses that were given can be parsed, the file that it leaves is read as
  -- a configuration that `from_raw` accepts, with that key.
  pub run-init :
      (cl : CryptoLaws c) (dl : DiskLaws d) (parse : Bytes → Option SocketAddr)
      (from_toml : Bytes → Option RawConfig) (fs fs' : d.Files) (keystore : Option Bytes)
      (args : InitArgs) (key : Bytes) (listen served : SocketAddr) (addrs : List SocketAddr)
      (r : Report)
      → ((t : NodeConfigToml) (text : Bytes)
          → desk.to_toml t ≡ some text
          → from_toml text ≡ some (raw_of t))
      → init_key c v d desk http url fs keystore ≡ some (ok key)
      → length key ≡ 32
      → All IsByte key
      → parse args.listen_addr ≡ some listen
      → parse args.http_addr ≡ some served
      → AreParsed c parse args.peers addrs
      → run c v d desk http url (init keystore args) fs ≡ (fs', some (ok r))
      → (text : Bytes) × (raw : RawConfig) × (cfg : NodeConfig) × (d.read_to_string fs' args.output
          ≡ some text)
        × (from_toml text ≡ some raw)
        × (from_raw c parse raw ≡ ok cfg)
        × (cfg.my_signing_key ≡ key)
  unfolding run cmd_node_init
  run-init cl dl parse from_toml fs fs' keystore args key listen served addrs r law unlocked sized
        bytes e1 e2 e3 h =
      let (text, made, found) = written_text dl fs fs' args key r (rw unlocked at h) in
      let (cfg, taken, keyed) =
        config_of-IsTaken cl parse args key listen served addrs sized bytes e1 e2 e3 in
      (
        text,
        raw_of (config_of c v d desk http url args key),
        cfg,
        found,
        law (config_of c v d desk http url args key) text made,
        taken,
        keyed,
      )
