-- ===== src/Node/Ticker/Proposal.antt =====
-- What the slot ticker proposes.
use better_call_chain.Prelude.{
  ℕ, ◌/◌, ◌≤◌, ◌<◌, ◌≡◌, refl, subst, true, false, List, map, Option, none, some, Result-cases, ok,
  err, All, length, inl, inr, test, not, ◌&&◌, if_both, arith,
}
use better_call_chain.Prelude.Words.{ℤ, pos, add_u64, sub_i64, ltb_i64}
use better_call_chain.Core.Types.{BlockHash, Transaction, Block, Validator, address_discrete}
use better_call_chain.Core.Crypto.{Crypto, CryptoLaws}
use better_call_chain.Core.Merkle.{block_hash, tx_hash, compute_merkle_root}
use better_call_chain.Core.Election.{elect_proposer}
use better_call_chain.Core.Memory.{StoreResult}
use better_call_chain.Core.Validation.Transactions.{UtxoGet}
use better_call_chain.Core.Validation.Transactions.Sound.{IsValidTx}
use better_call_chain.Core.Validation.Blocks.{AllActive, slot_end, validate_block}
use better_call_chain.Core.Validation.Blocks.Sound.{validate_block_iff}
use better_call_chain.Node.IndexMap.{IndexMap}
use better_call_chain.Node.Mempool.Invariant.{IsConsistent, remove_hashes-IsConsistent}
use better_call_chain.Node.State.{Stores, NodeState}
use better_call_chain.Node.Ticker.{
  Proposer, Tick, idle, build_block, announce, propose_block, on_elected, on_slot, tick,
  already_covered, min_propose_window_secs,
}
use better_call_chain.Node.Mempool.{drain}
use better_call_chain.Node.Mempool.Drain.{length-drain}

module _ (c : Crypto) (laws : CryptoLaws c) (st : Stores) (im : IndexMap) (me : Proposer) where
  -- The block that an elected proposer builds on the tip, dated within its slot and not before the
  -- tip, of transactions that are valid, passes `validate_block` at every node that has the same tip,
  -- the same active validators and those transactions' outputs.
  pub validate_block-build_block :
      (get : UtxoGet) (all_active : AllActive) (duration slot : ℕ) (timestamp : ℤ) (parent : Block)
      (txs : List Transaction) (validators : List Validator) (v : Validator)
      → all_active slot ≡ ok validators
      → elect_proposer c slot (block_hash c parent) validators ≡ some v
      → v.address ≡ me.my_address
      → v.pubkey ≡ c.verifying_key me.my_signing_key
      → ltb_i64 timestamp parent.header.timestamp ≡ false
      → ltb_i64 timestamp (slot_end slot duration) ≡ true
      → All (IsValidTx c get) txs
      → validate_block c
          (build_block c st im me parent.header.height (block_hash c parent) slot timestamp txs)
          parent
          get
          all_active
          duration
        ≡ ok tt
  unfolding build_block slot_end
  validate_block-build_block get all_active duration slot timestamp parent txs validators v a e addr
        key early late valid =
      (validate_block_iff c get all_active duration parent
          (build_block c st im me parent.header.height (block_hash c parent) slot timestamp txs)).1
        (record {
          height = refl;
          linked = refl;
          not_before = early;
          in_slot = late;
          active = validators;
          registered = a;
          elected = v;
          by_election = e;
          proposer = addr;
          signed = rw key (laws.signature_ok-sign me.my_signing_key _);
          merkle_root = refl;
          valid_txs = valid;
        })

module _ (c : Crypto) (st : Stores) (im : IndexMap) (me : Proposer) (now : ℕ)
    (n : NodeState st im) where
  abbrev slot : ℕ
  slot = now / n.slot_duration_secs

  -- The tip at which, and the validators by which, this node is elected for the slot of `now`, while
  -- the tip is of an earlier slot, and more than a second is left.
  pub record IsElectedHere (tip_height : ℕ) (tip_hash : BlockHash) : Type 0 where
    pub at_tip : st.tip n.stores ≡ ok (some (tip_height, tip_hash))
    pub uncovered :
        (b : Block)
        → st.get_by_height n.stores tip_height ≡ ok (some b)
        → b.header.slot < now / n.slot_duration_secs
    pub validators : List Validator
    pub registered : st.all_active n.stores (now / n.slot_duration_secs) ≡ ok validators
    pub elected : Validator
    pub by_election :
        elect_proposer c (now / n.slot_duration_secs) tip_hash validators ≡ some elected
    pub is_me : elected.address ≡ me.my_address
    pub in_time :
        ltb_i64
          (pos 1)
          (sub_i64 (slot_end (now / n.slot_duration_secs) n.slot_duration_secs) (pos now))
        ≡ true

  -- The block is of this slot and this moment, follows that tip, commits to its transactions, which
  -- are the most valuable of the pool, at most 512, and is signed with this node's key.
  pub record IsProposal (tip_height : ℕ) (tip_hash : BlockHash) (b : Block) : Type 0 where
    pub follows : b.header.height ≡ add_u64 tip_height 1
    pub linked : b.header.prev_hash ≡ tip_hash
    pub of_slot : b.header.slot ≡ now / n.slot_duration_secs
    pub dated : b.header.timestamp ≡ pos now
    pub proposer : b.header.proposer ≡ me.my_address
    pub committed : b.header.merkle_root ≡ compute_merkle_root c b.txs
    pub signed : b.signature ≡ c.sign me.my_signing_key (c.header_json b.header)
    pub drained : b.txs ≡ drain c im 512 n.mempool
    pub few : length b.txs ≤ 512

  build_block-IsProposal :
      (h : ℕ) (hash : BlockHash)
      → IsProposal h hash (build_block c st im me h hash slot (pos now) (drain c im 512 n.mempool))
  unfolding build_block
  build_block-IsProposal h hash = record {
    follows = refl;
    linked = refl;
    of_slot = refl;
    dated = refl;
    proposer = refl;
    committed = refl;
    signed = refl;
    drained = refl;
    few = length-drain c im 512 n.mempool;
  }

  -- A tip that does not cover a slot is of an earlier one.
  uncovered_earlier :
      (r : StoreResult (Option Block)) (b : Block)
      → already_covered r slot ≡ false
      → r ≡ ok (some b)
      → b.header.slot < slot
  unfolding already_covered
  uncovered_earlier r b k e = ground (arith, k, e)

  module _ (P : Tick c st im me → Type 0) (rests : P (idle c st im me n))
      (proposes : (h : ℕ) (hash : BlockHash)
        → IsElectedHere h hash
        → P (propose_block c st im me h hash slot (pos now) n)) where
    on_slot-all : P (on_slot c st im me slot now n)
    unfolding on_slot on_elected
    on_slot-all = elim (Result-cases (st.tip n.stores)) [
      | inr (e, f) ↦ rw (f, on_slot) rests
      | inl (none, f) ↦ rw (f, on_slot) rests
      | inl (some (h, hash), f) ↦ elim (Result-cases (st.all_active n.stores slot)) [
        | inr (e, g) ↦ rw (f, g, on_slot) rests
        | inl (vs, g) ↦
            rw (f, g, on_slot)
              (if_both P (already_covered (st.get_by_height n.stores h) slot) (λ _. rests)
                (λ k. elected h hash vs f g k (elect_proposer c slot hash vs) refl))
      ]
    ]
      where
        elected :
            (h : ℕ) (hash : BlockHash) (vs : List Validator)
            → st.tip n.stores ≡ ok (some (h, hash))
            → st.all_active n.stores slot ≡ ok vs
            → already_covered (st.get_by_height n.stores h) slot ≡ false
            → (o : Option Validator) → elect_proposer c slot hash vs ≡ o
            → P (elim o [
              | none ↦ idle c st im me n
              | some v ↦ on_elected c st im me h hash slot now v.address n
            ])
        elected h hash vs f g k none e = rests
        elected h hash vs f g k (some v) e =
            if_both P
              (test (address_discrete v.address me.my_address)
                && ltb_i64 min_propose_window_secs
                    (sub_i64 (slot_end slot n.slot_duration_secs) (pos now)))
              (λ t. proposes h hash (record {
                at_tip = f;
                uncovered = λ b. uncovered_earlier (st.get_by_height n.stores h) b k;
                validators = vs;
                registered = g;
                elected = v;
                by_election = e;
                is_me = ground (arith, t);
                in_time = ground (arith, t);
              }))
              (λ _. rests)

    tick-all : P (tick c st im me now n)
    unfolding tick
    tick-all =
        if_both P (not (ltb_i64 (pos now) (slot_end slot n.slot_duration_secs))) (λ _. rests)
          (λ _. on_slot-all)

  announce-IsConsistent :
      (block : Block) (r : st.Storage × StoreResult (Unit {0}))
      → IsConsistent c im n.mempool
      → IsConsistent c im (announce c st im me block n r).node.mempool
  unfolding announce
  announce-IsConsistent block (s, err e) w = w
  announce-IsConsistent block (s, ok _) w =
      remove_hashes-IsConsistent c im (map (tx_hash c) block.txs) n.mempool w

  -- An iteration of the ticker keeps the pool consistent.
  pub tick-IsConsistent :
      IsConsistent c im n.mempool → IsConsistent c im (tick c st im me now n).node.mempool
  unfolding propose_block
  tick-IsConsistent w =
      tick-all (λ t. IsConsistent c im t.node.mempool) w (λ h hash i. announce-IsConsistent _ _ w)

  announce-produced :
      (block b : Block) (r : st.Storage × StoreResult (Unit {0}))
      → (announce c st im me block n r).produced ≡ some b
      → block ≡ b
  unfolding announce
  announce-produced block b (s, err e) h = absurd (cc (h))
  announce-produced block b (s, ok _) h = cc (h)

  -- A block that an iteration announces is of a slot for which this node is elected at its tip,
  -- which is after the slot of the tip's block, and of which more than a second is left. It follows the tip, carries the slot, the time and the
  -- proposer, the most valuable pooled transactions, at most 512, with their Merkle root, and the
  -- signature of its header with this node's key.
  pub tick-IsElectedHere :
      (b : Block)
      → (tick c st im me now n).produced ≡ some b
      → (h : ℕ) × (hash : BlockHash) × IsElectedHere h hash × IsProposal h hash b
  unfolding propose_block
  tick-IsElectedHere b =
      tick-all
        (λ t.
          t.produced ≡ some b
          → (h : ℕ) × (hash : BlockHash) × IsElectedHere h hash × IsProposal h hash b)
        (λ e. absurd (cc (e)))
        (λ h hash i e. (
          h,
          hash,
          i,
          subst (IsProposal h hash) (announce-produced _ b _ e) (build_block-IsProposal h hash),
        ))
