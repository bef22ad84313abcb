-- ===== src/Node/State.antt =====
-- crates/bcc-node/src/state.rs, with the messages of p2p/protocol.rs. The stores are a parameter:
-- the trait objects behind which a node has its storage.
pub mod Reorg
use better_call_chain.Prelude.{
  ℕ, Bool, true, false, List, [], ◌∷◌, ◌++◌, map, Option, none, some, Result, ok, err, ite, length,
  test, ℕ_discrete, ◌||◌, ◌>>=◌, ◌>>◌,
}
use better_call_chain.Prelude.Maps.{add, delete}
use better_call_chain.Core.Types.{
  Bytes, BlockHash, Address, TxOutRef, TxOutput, Transaction, Block, Validator, StoreError,
  bytes_discrete,
}
use better_call_chain.Core.Memory.{
  StoreResult, MemoryStore, get_by_height, get_by_hash, insert_block, tip, iter_from, get_output,
  balance, list_utxos, apply_block, rollback_block, all_active, upsert,
}
use better_call_chain.Core.Crypto.{Crypto}
use better_call_chain.Node.IndexMap.{IndexMap}
use better_call_chain.Node.Mempool.{Mempool}

-- `SocketAddr` of the standard library.
pub record SocketAddr : Type 0 where
  pub ip : Bytes
  pub port : ℕ

unfoldable pub addr_discrete : Discrete SocketAddr
unfolding ℕ_discrete
addr_discrete = hlevel ℕ_discrete

pub data Message : Type 0 where
  get_blocks : (from_height : ℕ) → Message
  blocks : List Block → Message
  new_block : Block → Message
  new_tx : Transaction → Message
  get_peers : Message
  peers : List SocketAddr → Message
  ping pong : (nonce : ℕ) → Message

-- The traits `BlockStore`, `UtxoStore` and `ValidatorStore` over one storage. A method that writes
-- leaves a storage behind also when it fails.
pub record Stores : Type 1 where
  pub Storage : Type 0
  pub get_by_height : Storage → ℕ → StoreResult (Option Block)
  pub get_by_hash : Storage → BlockHash → StoreResult (Option Block)
  pub insert : Storage → Block → Storage × StoreResult (Unit {0})
  pub tip : Storage → StoreResult (Option (ℕ × BlockHash))
  pub iter_from : Storage → ℕ → StoreResult (List Block)
  pub get_output : Storage → TxOutRef → StoreResult (Option TxOutput)
  pub balance : Storage → Address → StoreResult ℕ
  pub list_utxos : Storage → Address → StoreResult (List (TxOutRef × TxOutput))
  pub apply_block : Storage → Block → Storage × StoreResult (Unit {0})
  pub rollback_block : Storage → Block → Storage × StoreResult (Unit {0})
  pub all_active : Storage → ℕ → StoreResult (List Validator)
  pub upsert : Storage → Validator → Storage × StoreResult (Unit {0})

-- A write of `MemoryStore`: one that fails leaves the storage as it was.
abbrev pub written : {S : Type 0} → S → StoreResult S → S × StoreResult (Unit {0})
written s (err e) = (s, err e)
written s (ok t) = (t, ok tt)

-- `MemoryStore` behind the traits.
abbrev pub memory : Crypto → Stores
memory c = record {
  Storage = MemoryStore;
  get_by_height = get_by_height;
  get_by_hash = get_by_hash;
  insert = λ s b. written s (insert_block c s b);
  tip = tip c;
  iter_from = iter_from;
  get_output = get_output;
  balance = balance;
  list_utxos = list_utxos;
  apply_block = λ s b. written s (apply_block c s b);
  rollback_block = λ s b. written s (rollback_block c s b);
  all_active = all_active;
  upsert = λ s v. written s (upsert c s v);
}

-- `?` after a write.
abbrev pub and_write :
    {S : Type 0}
    → S × StoreResult (Unit {0})
    → (S → S × StoreResult (Unit {0}))
    → S × StoreResult (Unit {0})
and_write (s, err e) k = (s, err e)
and_write (s, ok _) k = k s

-- `PeerSet`, by the addresses of its map. Which order the map is walked in is open.
abbrev pub PeerSet : Type 0
PeerSet = List SocketAddr

abbrev pub Sends : Type 0
Sends = List (SocketAddr × Message)

abbrev pub insert_peer : SocketAddr → PeerSet → PeerSet
insert_peer = add addr_discrete

abbrev pub remove_peer : SocketAddr → PeerSet → PeerSet
remove_peer = delete addr_discrete

unfoldable pub has_ip : Bytes → PeerSet → Bool
has_ip ip [] = false
has_ip ip (a ∷ ps) = test (bytes_discrete a.ip ip) || has_ip ip ps

-- The `try_send` calls; a message for a full or closed queue is lost.
unfoldable pub broadcast_except : SocketAddr → Message → PeerSet → Sends
broadcast_except source msg [] = []
broadcast_except source msg (a ∷ ps) =
    ite (addr_discrete a source) (broadcast_except source msg ps)
      ((a, msg) ∷ broadcast_except source msg ps)

unfoldable pub broadcast_all : Message → PeerSet → Sends
broadcast_all msg ps = map (λ a. (a, msg)) ps

-- What a node's tasks share; the channels and the events for the visualizer are left out.
pub record NodeState (st : Stores) (im : IndexMap) : Type 0 where
  pub stores : st.Storage
  pub mempool : Mempool im
  pub peer_set : PeerSet
  pub slot_duration_secs : ℕ

unfoldable pub reorg_block :
    (st : Stores) → Block → Block → st.Storage → st.Storage × StoreResult (Unit {0})
reorg_block st old new s =
    and_write (and_write (st.rollback_block s old) (λ t. st.insert t new))
      (λ t. st.apply_block t new)
