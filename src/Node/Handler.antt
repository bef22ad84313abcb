-- ===== src/Node/Handler.antt =====
-- crates/bcc-node/src/p2p/handler.rs: `dispatch` after the message is decoded. Log lines and the
-- events for the visualizer are left out; what is sent is the list of the `try_send` calls.
pub mod Gossip
pub mod Fork
use better_call_chain.Prelude.{
  ℕ, ◌-◌, Bool, true, false, not, List, [], ◌∷◌, map, Option, none, some, test, Result, ok, err,
  if◌then◌else◌, ite, ltb, ◌==◌, take,
}
use better_call_chain.Prelude.Words.{add_u64}
use better_call_chain.Core.Types.{BlockHash, TxHash, Transaction, Block, StoreError, bytes_discrete}
use better_call_chain.Core.Crypto.{Crypto}
use better_call_chain.Core.Merkle.{zeros, tx_hash, block_hash}
use better_call_chain.Core.Memory.{StoreResult, ltb_bytes}
use better_call_chain.Core.Validation.Blocks.{validate_block}
use better_call_chain.Node.IndexMap.{IndexMap}
use better_call_chain.Node.Mempool.{Mempool, remove_hashes, add}
use better_call_chain.Node.State.{
  SocketAddr, Message, get_blocks, blocks, new_block, new_tx, get_peers, peers, ping, pong, Stores,
  NodeState, Sends, broadcast_except, reorg_block, and_write,
}

-- The `String` of a failed dispatch, by its cause.
pub data DispatchError : Type 0 where
  store : StoreError → DispatchError
  parent_not_found : ℕ → DispatchError
  tip_missing : DispatchError

module _ (c : Crypto) (st : Stores) (im : IndexMap) where
  pub record Outcome : Type 0 where
    pub node : NodeState st im
    pub sent : Sends
    pub answer : Result DispatchError (Unit {0})

  abbrev pub ignore : NodeState st im → Outcome
  ignore n = record { node = n; sent = []; answer = ok tt }

  abbrev pub fail : NodeState st im → DispatchError → Outcome
  fail n e = record { node = n; sent = []; answer = err e }

  abbrev pub reply : NodeState st im → SocketAddr → Message → Outcome
  reply n source msg = record { node = n; sent = (source, msg) ∷ []; answer = ok tt }

  -- After the writes to the stores: the pool drops the block's transactions and the block is
  -- passed on; or the error of a write is the answer.
  unfoldable pub commit :
      SocketAddr → Block → NodeState st im → st.Storage × StoreResult (Unit {0}) → Outcome
  commit source block n (s, err e) = fail (record n { stores = s }) (store e)
  commit source block n (s, ok _) = record {
    node = record n {
      stores = s;
      mempool = remove_hashes c im (map (tx_hash c) block.txs) n.mempool;
    };
    sent = broadcast_except source (new_block block) n.peer_set;
    answer = ok tt;
  }

  unfoldable pub write_block : Block → st.Storage → st.Storage × StoreResult (Unit {0})
  write_block block s = and_write (st.insert s block) (λ t. st.apply_block t block)

  -- The block extends the tip.
  unfoldable pub extend : SocketAddr → Block → ℕ → NodeState st im → Outcome
  extend source block tip_height n = elim (st.get_by_height n.stores tip_height) [
    | err e ↦ fail n (store e)
    | ok none ↦ fail n (parent_not_found tip_height)
    | ok (some parent) ↦
        elim (validate_block c block parent (st.get_output n.stores) (st.all_active n.stores)
          n.slot_duration_secs) [
            | err e ↦ ignore n
            | ok _ ↦ commit source block n (write_block block n.stores)
          ]
  ]

  -- The current tip is swapped for the block.
  unfoldable pub swap_tip : SocketAddr → Block → ℕ → NodeState st im → Outcome
  swap_tip source block tip_height n = elim (st.get_by_height n.stores tip_height) [
    | err e ↦ fail n (store e)
    | ok none ↦ fail n tip_missing
    | ok (some current_tip) ↦ commit source block n (reorg_block st current_tip block n.stores)
  ]

  -- A block of lower hash than the tip's, at its height: it has to have the same parent.
  unfoldable pub adopt : SocketAddr → Block → ℕ → NodeState st im → Outcome
  adopt source block tip_height n = elim (st.get_by_height n.stores (tip_height - 1)) [
    | err e ↦ fail n (store e)
    | ok none ↦ ignore n
    | ok (some parent) ↦
        if test (bytes_discrete block.header.prev_hash (block_hash c parent))
        then (elim (validate_block c block parent (st.get_output n.stores) (st.all_active n.stores)
            n.slot_duration_secs) [ err e ↦ ignore n | ok _ ↦ swap_tip source block tip_height n ])
        else ignore n
  ]

  -- A competing block at the height of the tip: the lower hash wins.
  unfoldable pub fork : SocketAddr → Block → ℕ → BlockHash → NodeState st im → Outcome
  fork source block tip_height tip_hash n =
      if ltb_bytes (block_hash c block) tip_hash then adopt source block tip_height n else ignore n

  unfoldable pub on_tip : SocketAddr → Block → ℕ × BlockHash → NodeState st im → Outcome
  on_tip source block (tip_height, tip_hash) n =
      if block.header.height == add_u64 tip_height 1
      then extend source block tip_height n
      else if block.header.height == tip_height
      then fork source block tip_height tip_hash n
      else if ltb (add_u64 tip_height 1) block.header.height
      then reply n source (get_blocks (add_u64 tip_height 1))
      else ignore n

  abbrev pub tip_or_zero : Option (ℕ × BlockHash) → ℕ × BlockHash
  tip_or_zero none = (0, zeros 32)
  tip_or_zero (some t) = t

  unfoldable pub on_new_block : SocketAddr → Block → NodeState st im → Outcome
  on_new_block source block n = elim (st.get_by_hash n.stores (block_hash c block)) [
    | err e ↦ fail n (store e)
    | ok (some _) ↦ ignore n
    | ok none ↦ elim (st.tip n.stores) [
      | err e ↦ fail n (store e)
      | ok t ↦ on_tip source block (tip_or_zero t) n
    ]
  ]

  -- The pool's answer decides whether the transaction is passed on.
  unfoldable pub on_new_tx : SocketAddr → Transaction → NodeState st im → Outcome
  on_new_tx source tx n = elim (add c im (st.get_output n.stores) tx n.mempool) [
    | err e ↦ ignore n
    | ok (q, added) ↦ record {
      node = record n { mempool = q };
      sent = if added.newly_added then broadcast_except source (new_tx tx) n.peer_set else [];
      answer = ok tt;
    }
  ]

  unfoldable pub on_get_blocks : SocketAddr → ℕ → NodeState st im → Outcome
  on_get_blocks source from_height n = elim (st.iter_from n.stores from_height) [
    | err e ↦ fail n (store e)
    | ok bs ↦ reply n source (blocks (take 256 bs))
  ]

  -- What `run_peer` sends a new peer before its loop: the block at the tip, when it can be read.
  unfoldable pub greeting : NodeState st im → List Message
  greeting n = elim (st.tip n.stores) [
    | err _ ↦ []
    | ok none ↦ []
    | ok (some (tip_height, _)) ↦ elim (st.get_by_height n.stores tip_height) [
      | err _ ↦ []
      | ok none ↦ []
      | ok (some tip_block) ↦ new_block tip_block ∷ []
    ]
  ]

  unfoldable pub dispatch : SocketAddr → Message → NodeState st im → Outcome
  dispatch source (new_block block) n = on_new_block source block n
  dispatch source (new_tx tx) n = on_new_tx source tx n
  dispatch source (get_blocks from_height) n = on_get_blocks source from_height n
  dispatch source get_peers n = reply n source (peers n.peer_set)
  dispatch source (ping nonce) n = reply n source (pong nonce)
  dispatch source _ n = ignore n
