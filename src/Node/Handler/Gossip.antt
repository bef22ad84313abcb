-- ===== src/Node/Handler/Gossip.antt =====
-- What the handler leaves of a node, and what it sends.
use better_call_chain.Prelude.{
  ℕ, ◌-◌, ◌≡◌, refl, ◌≢◌, List, [], ◌∷◌, ◌⊎◌, inl, inr, none, some, Result-cases, ok, err, ltb,
  ◌==◌, All, map, if_both, if_pos, if_neg, test,
}
use better_call_chain.Core.Types.{BlockHash, Block, bytes_discrete}
use better_call_chain.Core.Crypto.{Crypto}
use better_call_chain.Core.Merkle.{tx_hash, block_hash}
use better_call_chain.Core.Memory.{StoreResult, ltb_bytes}
use better_call_chain.Core.Validation.Blocks.{validate_block}
use better_call_chain.Prelude.Words.{add_u64}
use better_call_chain.Node.IndexMap.{IndexMap}
use better_call_chain.Node.Mempool.{add}
use better_call_chain.Node.Mempool.Invariant.{IsConsistent, remove_hashes-IsConsistent}
use better_call_chain.Node.Mempool.Admission.{add-IsConsistent}
use better_call_chain.Node.State.{
  SocketAddr, Message, get_blocks, blocks, new_block, new_tx, get_peers, peers, ping, pong, Stores,
  NodeState, addr_discrete, broadcast_except, reorg_block,
}
use better_call_chain.Node.Handler.{
  DispatchError, store, parent_not_found, tip_missing, ignore, fail, reply, Outcome, commit, extend,
  swap_tip, adopt, fork, on_tip, on_new_block, on_new_tx, on_get_blocks, dispatch, tip_or_zero,
  write_block,
}

module _ (c : Crypto) (st : Stores) (im : IndexMap) (source : SocketAddr) where
  -- The block is valid on the node's stores, on some parent.
  abbrev pub IsValidOn : NodeState st im → Block → Type 0
  IsValidOn n block =
      (parent : Block) × (validate_block c block parent (st.get_output n.stores)
          (st.all_active n.stores) n.slot_duration_secs
        ≡ ok tt)

  -- What holds of each way out of the handler of a block holds of its outcome.
  module _ (n : NodeState st im) (block : Block) (P : Outcome c st im → Type 0)
      (fails : (e : DispatchError) → P (fail c st im n e)) (ignored : P (ignore c st im n))
      (asks : (h : ℕ) → P (reply c st im n source (get_blocks h)))
      (commits : (r : st.Storage × StoreResult (Unit {0}))
        → IsValidOn n block
        → P (commit c st im source block n r)) where
    extend-all : (h : ℕ) → P (extend c st im source block h n)
    unfolding extend
    extend-all h = elim (Result-cases (st.get_by_height n.stores h)) [
      | inr (e, f) ↦ rw (f, extend) (fails (store e))
      | inl (none, f) ↦ rw (f, extend) (fails (parent_not_found h))
      | inl (some parent, f) ↦
          elim (Result-cases (
            validate_block c block parent (st.get_output n.stores) (st.all_active n.stores)
              n.slot_duration_secs)) [
                | inr (e, g) ↦ rw (f, g, extend) ignored
                | inl (_, g) ↦
                    rw (f, g, extend) (commits (write_block c st im block n.stores) (parent, g))
              ]
    ]

    swap_tip-all : (h : ℕ) → IsValidOn n block → P (swap_tip c st im source block h n)
    unfolding swap_tip
    swap_tip-all h v = elim (Result-cases (st.get_by_height n.stores h)) [
      | inr (e, f) ↦ rw (f, swap_tip) (fails (store e))
      | inl (none, f) ↦ rw (f, swap_tip) (fails tip_missing)
      | inl (some tip, f) ↦ rw (f, swap_tip) (commits (reorg_block st tip block n.stores) v)
    ]

    adopt-all : (h : ℕ) → P (adopt c st im source block h n)
    unfolding adopt
    adopt-all h = elim (Result-cases (st.get_by_height n.stores (h - 1))) [
      | inr (e, f) ↦ rw (f, adopt) (fails (store e))
      | inl (none, f) ↦ rw (f, adopt) ignored
      | inl (some parent, f) ↦
          rw (f, adopt)
            (if_both P (test (bytes_discrete block.header.prev_hash (block_hash c parent)))
              (λ _.
                elim (Result-cases (
                  validate_block c block parent (st.get_output n.stores) (st.all_active n.stores)
                    n.slot_duration_secs)) [
                      | inr (e, g) ↦ rw g ignored
                      | inl (_, g) ↦ rw g (swap_tip-all h (parent, g))
                    ])
              (λ _. ignored))
    ]

    on_tip-all : (t : ℕ × BlockHash) → P (on_tip c st im source block t n)
    unfolding on_tip fork
    on_tip-all (h, hash) =
        if_both P (block.header.height == add_u64 h 1) (λ _. extend-all h)
          (λ _.
            if_both P (block.header.height == h)
              (λ _.
                if_both P (ltb_bytes (block_hash c block) hash) (λ _. adopt-all h) (λ _. ignored))
              (λ _.
                if_both P (ltb (add_u64 h 1) block.header.height) (λ _. asks (add_u64 h 1))
                  (λ _. ignored)))

    on_new_block-all : P (on_new_block c st im source block n)
    unfolding on_new_block
    on_new_block-all = elim (Result-cases (st.get_by_hash n.stores (block_hash c block))) [
      | inr (e, f) ↦ rw (f, on_new_block) (fails (store e))
      | inl (some b, f) ↦ rw (f, on_new_block) ignored
      | inl (none, f) ↦ elim (Result-cases (st.tip n.stores)) [
        | inr (e, g) ↦ rw (f, g, on_new_block) (fails (store e))
        | inl (t, g) ↦ rw (f, g, on_new_block) (on_tip-all (tip_or_zero c st im t))
      ]
    ]

  abbrev IsKept : Outcome c st im → Type 0
  IsKept o = IsConsistent c im o.node.mempool

  commit-IsKept :
      (n : NodeState st im) (block : Block) (r : st.Storage × StoreResult (Unit {0}))
      → IsConsistent c im n.mempool
      → IsKept (commit c st im source block n r)
  unfolding commit
  commit-IsKept n block (s, err e) w = w
  commit-IsKept n block (s, ok _) w =
      remove_hashes-IsConsistent c im (map (tx_hash c) block.txs) n.mempool w

  -- Whatever message a peer sends, the pool stays consistent.
  pub dispatch-IsConsistent :
      (msg : Message) (n : NodeState st im)
      → IsConsistent c im n.mempool
      → IsConsistent c im (dispatch c st im source msg n).node.mempool
  unfolding dispatch on_new_tx on_get_blocks
  dispatch-IsConsistent (new_block block) n w =
      on_new_block-all n block IsKept (λ e. w) w (λ h. w) (λ r v. commit-IsKept n block r w)
  dispatch-IsConsistent (new_tx tx) n w =
      elim (Result-cases (add c im (st.get_output n.stores) tx n.mempool)) [
        | inr (e, f) ↦ rw (f, on_new_tx) w
        | inl ((q, info), f) ↦
            rw (f, on_new_tx)
              (add-IsConsistent c im (st.get_output n.stores) tx n.mempool q info w f).0
      ]
  dispatch-IsConsistent (get_blocks from_height) n w =
      elim (Result-cases (st.iter_from n.stores from_height)) [
        | inr (e, f) ↦ rw (f, on_get_blocks) w
        | inl (bs, f) ↦ rw (f, on_get_blocks) w
      ]
  dispatch-IsConsistent get_peers n w = w
  dispatch-IsConsistent (ping nonce) n w = w
  dispatch-IsConsistent (pong nonce) n w = w
  dispatch-IsConsistent (blocks bs) n w = w
  dispatch-IsConsistent (peers ps) n w = w

  broadcast_except-All :
      (P : SocketAddr × Message → Type 0) (msg : Message) (ps : List SocketAddr)
      → ((a : SocketAddr) → a ≢ source → P (a, msg))
      → All P (broadcast_except source msg ps)
  unfolding broadcast_except
  broadcast_except-All P msg [] h = tt
  broadcast_except-All P msg (a ∷ ps) h = elim (addr_discrete a source) [
    | yes e ↦ rw (if_pos _ e) (broadcast_except-All P msg ps h)
    | no ne ↦ rw (if_neg _ ne) (h a ne, broadcast_except-All P msg ps h)
  ]

  -- What the handler of a block may send: a request for blocks to the sender, or the block itself to
  -- another peer, when it is valid.
  abbrev pub IsProper : NodeState st im → Block → SocketAddr × Message → Type 0
  IsProper n block (a, msg) =
      ((h : ℕ) × (a ≡ source) × (msg ≡ get_blocks h))
      ⊎ ((a ≢ source) × (msg ≡ new_block block) × IsValidOn n block)

  commit-IsProper :
      (n : NodeState st im) (block : Block) (r : st.Storage × StoreResult (Unit {0}))
      → IsValidOn n block
      → All (IsProper n block) (commit c st im source block n r).sent
  unfolding commit
  commit-IsProper n block (s, err e) v = tt
  commit-IsProper n block (s, ok _) v =
      broadcast_except-All (IsProper n block) (new_block block) n.peer_set
        (λ a ne. inr (ne, refl, v))

  -- On a block from a peer a node sends the peer at most a request for blocks, and passes the block
  -- on to the others only if it is valid on the node's own stores.
  pub on_new_block-IsProper :
      (n : NodeState st im) (block : Block)
      → All (IsProper n block) (on_new_block c st im source block n).sent
  on_new_block-IsProper n block =
      on_new_block-all n block (λ o. All (IsProper n block) o.sent) (λ e. tt) tt
        (λ h. (inl (h, refl, refl), tt)) (commit-IsProper n block)
