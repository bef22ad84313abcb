-- ===== src/Node/Ticker.antt =====
-- crates/bcc-node/src/slot_ticker.rs: one iteration of `run_slot_ticker`, and `propose_block`. The
-- clock and the sleeping are left out; `now` is in seconds after 1970, and the slot duration is
-- positive and fits in an i64.
pub mod Proposal
use better_call_chain.Prelude.{
  ℕ, ◌/◌, Bool, true, false, ◌&&◌, not, List, map, Option, none, some, Result, ok, err,
  if◌then◌else◌, leb, test,
}
use better_call_chain.Prelude.Words.{ℤ, pos, add_u64, sub_i64, ltb_i64}
use better_call_chain.Core.Types.{
  Bytes, BlockHash, Address, Transaction, BlockHeader, Block, address_discrete,
}
use better_call_chain.Core.Crypto.{Crypto}
use better_call_chain.Core.Merkle.{tx_hash, compute_merkle_root}
use better_call_chain.Core.Election.{elect_proposer}
use better_call_chain.Core.Memory.{StoreResult}
use better_call_chain.Core.Validation.Blocks.{slot_end}
use better_call_chain.Node.IndexMap.{IndexMap}
use better_call_chain.Node.Mempool.{Mempool, remove_hashes, drain}
use better_call_chain.Node.State.{Stores, NodeState, and_write}

abbrev pub max_txs_per_block : ℕ
max_txs_per_block = 512

abbrev pub min_propose_window_secs : ℤ
min_propose_window_secs = pos 1

-- The fields of the configuration that the proposer uses.
pub record Proposer : Type 0 where
  pub my_address : Address
  pub my_signing_key : Bytes

-- `get_by_height(tip).ok().flatten().map(|b| b.header.slot >= slot).unwrap_or(false)`
unfoldable pub already_covered : StoreResult (Option Block) → ℕ → Bool
already_covered (ok (some b)) slot = leb slot b.header.slot
already_covered _ slot = false

module _ (c : Crypto) (st : Stores) (im : IndexMap) (me : Proposer) where
  -- The node after an iteration, and the block that went to the broadcast channel.
  pub record Tick : Type 0 where
    pub node : NodeState st im
    pub produced : Option Block

  abbrev pub idle : NodeState st im → Tick
  idle n = record { node = n; produced = none }

  abbrev pub header_of : ℕ → BlockHash → ℕ → ℤ → List Transaction → BlockHeader
  header_of tip_height tip_hash slot timestamp txs = record {
    prev_hash = tip_hash;
    merkle_root = compute_merkle_root c txs;
    timestamp = timestamp;
    height = add_u64 tip_height 1;
    slot = slot;
    proposer = me.my_address;
  }

  unfoldable pub build_block : ℕ → BlockHash → ℕ → ℤ → List Transaction → Block
  build_block tip_height tip_hash slot timestamp txs = record {
    header = header_of tip_height tip_hash slot timestamp txs;
    signature =
        c.sign me.my_signing_key (c.header_json (header_of tip_height tip_hash slot timestamp txs));
    txs = txs;
  }

  -- After the writes: the pool drops the block's transactions, and the block is announced.
  unfoldable pub announce : Block → NodeState st im → st.Storage × StoreResult (Unit {0}) → Tick
  announce block n (s, err e) = idle (record n { stores = s })
  announce block n (s, ok _) = record {
    node = record n {
      stores = s;
      mempool = remove_hashes c im (map (tx_hash c) block.txs) n.mempool;
    };
    produced = some block;
  }

  unfoldable pub propose_block : ℕ → BlockHash → ℕ → ℤ → NodeState st im → Tick
  propose_block tip_height tip_hash slot timestamp n =
      let block : Block =
        build_block tip_height tip_hash slot timestamp (drain c im max_txs_per_block n.mempool) in
      announce block n (and_write (st.insert n.stores block) (λ s. st.apply_block s block))

  -- From the election on.
  unfoldable pub on_elected : ℕ → BlockHash → ℕ → ℕ → Address → NodeState st im → Tick
  on_elected tip_height tip_hash slot now proposer n =
      if test (address_discrete proposer me.my_address)
        && ltb_i64 min_propose_window_secs (sub_i64 (slot_end slot n.slot_duration_secs) (pos now))
      then propose_block tip_height tip_hash slot (pos now) n
      else idle n

  unfoldable pub on_slot : ℕ → ℕ → NodeState st im → Tick
  on_slot slot now n = elim (st.tip n.stores) [
    | err e ↦ idle n
    | ok none ↦ idle n
    | ok (some (tip_height, tip_hash)) ↦ elim (st.all_active n.stores slot) [
      | err e ↦ idle n
      | ok validators ↦
          if already_covered (st.get_by_height n.stores tip_height) slot
          then idle n
          else (elim (elect_proposer c slot tip_hash validators) [
            | none ↦ idle n
            | some v ↦ on_elected tip_height tip_hash slot now v.address n
          ])
    ]
  ]

  unfoldable pub tick : ℕ → NodeState st im → Tick
  tick now n =
      let slot : ℕ = now / n.slot_duration_secs in
      if not (ltb_i64 (pos now) (slot_end slot n.slot_duration_secs))
      then idle n
      else on_slot slot now n
