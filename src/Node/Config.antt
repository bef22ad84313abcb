-- ===== src/Node/Config.antt =====
-- crates/bcc-node/src/config.rs: from_raw. The reading of the file and of the environment is left out.
pub mod Checked
use better_call_chain.Prelude.{
  ℕ, List, [], ◌∷◌, Option, none, some, Result, ok, err, ok_or, map_err, guard, ensure, ◌>>=◌, ◌>>◌,
  ◌==◌, length,
}
use better_call_chain.Core.Types.{Bytes, Address, address_discrete}
use better_call_chain.Core.Crypto.{Crypto}
use better_call_chain.Core.Address.{from_pubkey_bytes, validate}
use better_call_chain.Node.Errors.{NodeError, config}
use better_call_chain.Node.State.{SocketAddr}

pub record NodeConfig : Type 0 where
  pub listen_addr : SocketAddr
  pub bootstrap_peers : List SocketAddr
  pub slot_duration_secs : ℕ
  pub http_addr : SocketAddr
  pub sled_path : Bytes
  pub mempool_max_size : ℕ
  pub genesis_path : Bytes
  pub my_address : Address
  pub my_signing_key : Bytes

pub record RawConfig : Type 0 where
  pub listen_addr : Bytes
  pub bootstrap_peers : List Bytes
  pub slot_duration_secs : ℕ
  pub http_addr : Bytes
  pub sled_path : Bytes
  pub mempool_max_size : ℕ
  pub genesis_path : Bytes
  pub my_address : Bytes
  pub my_signing_key : Bytes

-- `parse` is `str::parse::<SocketAddr>`.
module _ (c : Crypto) (parse : Bytes → Option SocketAddr) where
  unfoldable pub parse_all : List Bytes → Result NodeError (List SocketAddr)
  parse_all [] = ok []
  parse_all (s ∷ ss) = do a ← ok_or (parse s) config; as' ← parse_all ss; ok (a ∷ as')

  unfoldable pub from_raw : RawConfig → Result NodeError NodeConfig
  unfolding parse_all
  from_raw raw = do
    listen_addr ← ok_or (parse raw.listen_addr) config
    http_addr ← ok_or (parse raw.http_addr) config
    bootstrap_peers ← parse_all raw.bootstrap_peers
    my_address ← map_err (λ _. config) (validate raw.my_address)
    key_bytes ← ok_or (c.hex_decode raw.my_signing_key) config
    guard (length key_bytes == 32) config
    ensure (address_discrete (from_pubkey_bytes c (c.verifying_key key_bytes)) my_address) config
    ok (record {
      listen_addr = listen_addr;
      bootstrap_peers = bootstrap_peers;
      slot_duration_secs = raw.slot_duration_secs;
      http_addr = http_addr;
      sled_path = raw.sled_path;
      mempool_max_size = raw.mempool_max_size;
      genesis_path = raw.genesis_path;
      my_address = my_address;
      my_signing_key = key_bytes;
    })
