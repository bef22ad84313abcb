-- ===== src/Node/Sync/Download/Honest.antt =====
-- A download from a peer that serves its chain as `run_peer` and its handler do: first the greeting,
-- and then the replies in the order of the requests.
use better_call_chain.Prelude.{
  ℕ, zero, suc, ◌+◌, ◌≤◌, ◌<◌, ◌≡◌, refl, ap, ◌∙◌, inl, inr, ◌⊎◌, true, length, map, take, List, [],
  ◌∷◌, ◌++◌, Option, none, some, ok, Result-cases, get_elem?, take-all_le, arith,
}
use better_call_chain.Core.Types.{Block, BlockHash}
use better_call_chain.Core.Crypto.{Crypto}
use better_call_chain.Node.IndexMap.{IndexMap}
use better_call_chain.Node.State.{
  SocketAddr, Message, get_blocks, blocks, new_block, Stores, NodeState,
}
use better_call_chain.Node.Handler.{greeting, dispatch, on_get_blocks}
use better_call_chain.Node.Sync.{apply_batch}
use better_call_chain.Node.Sync.Download.{
  Answer, timed_out, received, Network, Phase, choosing, talking, Download, ended, connect, choose,
  advance, on_blocks, on_message, on_answer, step_in, step, download, start, start_height, run_ibd,
  blocks_per_request,
}

-- What a wait for a frame ends in, by the frame that comes next, if any.
abbrev pub arriving : Option Message → Answer
arriving none = timed_out
arriving (some msg) = received msg

module _ (cp : Crypto) (stp : Stores) (im : IndexMap) (peer : NodeState stp im)
    (me : SocketAddr) where
  -- What the peer's handler sends for requests, in their order.
  abbrev pub replies : List ℕ → List Message
  replies [] = []
  replies (h ∷ hs) = map (λ s. s.1) (dispatch cp stp im me (get_blocks h) peer).sent ++ replies hs

  -- The frames that the peer sends on a connection on which these requests come in.
  abbrev pub frames : List ℕ → List Message
  frames hs = greeting cp stp im peer ++ replies hs

  -- The answer that a round finds, after as many rounds and with these requests made on the
  -- connection, is the next of the peer's frames.
  abbrev pub Delivers : Network → SocketAddr → List ℕ → ℕ → ℕ → Type 0
  Delivers net p asked before h =
      net.answers (before + 1) p (get_blocks h) ≡ arriving (get_elem? (frames asked) before)

  greeting-cases :
      (greeting cp stp im peer ≡ []) ⊎ ((b : Block) × (greeting cp stp im peer ≡ new_block b ∷ []))
  unfolding greeting
  greeting-cases = elim (Result-cases (stp.tip peer.stores)) [
    | inr (e, f) ↦ inl (rw (f, greeting) refl)
    | inl (none, f) ↦ inl (rw (f, greeting) refl)
    | inl (some (h, hash), f) ↦ elim (Result-cases (stp.get_by_height peer.stores h)) [
      | inr (e, g) ↦ inl (rw (f, g, greeting) refl)
      | inl (none, g) ↦ inl (rw (f, g, greeting) refl)
      | inl (some b, g) ↦ inr (b, rw (f, g, greeting) refl)
    ]
  ]

  replies_lem :
      (h : ℕ) (hs : List ℕ) (bs : List Block)
      → stp.iter_from peer.stores h ≡ ok bs
      → replies (h ∷ hs) ≡ blocks (take 256 bs) ∷ replies hs
  unfolding dispatch on_get_blocks
  replies_lem h hs bs e = rw (e, on_get_blocks) refl

  module _ (c : Crypto) (st : Stores) (duration : ℕ) (net : Network) (p : SocketAddr)
      (ps : List SocketAddr) where
    step-received :
        (tick : ℕ) (d : Download c st duration) (msg : Message)
        → d.phase ≡ talking p
        → net.answers tick p (get_blocks d.from_height) ≡ received msg
        → step c st duration net tick ps d
          ≡ on_message c st duration msg (record d { consecutive_timeouts = 0 })
    unfolding step
    step-received tick d msg e brought = at_phase d.phase e
      where
        at_phase :
            (ph : Phase)
            → ph ≡ talking p
            → step_in c st duration net tick ps ph d
              ≡ on_message c st duration msg (record d { consecutive_timeouts = 0 })
        at_phase choosing f = absurd (cc (f))
        at_phase (talking a) f =
            let same : a ≡ p = cc (f) in unfold step_in on_answer in rw (same, brought) refl

    -- A chain that does not fill one answer is the last batch.
    on_blocks-short :
        (k : ℕ) (chain : List Block) (d : Download c st duration) (t : st.Storage)
        → k ≡ blocks_per_request
        → apply_batch c st duration chain d.storage ≡ (t, ok tt)
        → length chain < k
        → on_blocks c st duration (take k chain) d ≡ ended t (ok tt)
    unfolding on_blocks advance
    on_blocks-short zero chain d t f h short = absurd (omega arith)
    on_blocks-short (suc k) [] d t f h short = unfold apply_batch in cc (h)
    on_blocks-short (suc k) (b ∷ bs) d t f h short =
        rw (take-all_le k bs (omega arith), h) (ground (arith, f, short))

    download-last :
        (fuel tick : ℕ) (d : Download c st duration) (chain : List Block) (t : st.Storage)
        → d.phase ≡ talking p
        → net.answers tick p (get_blocks d.from_height) ≡ received (blocks (take 256 chain))
        → apply_batch c st duration chain d.storage ≡ (t, ok tt)
        → length chain < 256
        → download c st duration (suc fuel) net tick ps d ≡ some (t, ok tt)
    unfolding download on_message
    download-last fuel tick d chain t e brought h short =
        rw
          (
            step-received tick d (blocks (take 256 chain)) e brought,
            on_blocks-short 256 chain (record d { consecutive_timeouts = 0 }) t refl h short,
          )
          refl

    talking_complete :
        (fuel : ℕ) (d : Download c st duration) (chain : List Block) (t : st.Storage)
        → d.phase ≡ talking p
        → Delivers net p (d.from_height ∷ []) 0 d.from_height
        → Delivers net p (d.from_height ∷ d.from_height ∷ []) 1 d.from_height
        → stp.iter_from peer.stores d.from_height ≡ ok chain
        → apply_batch c st duration chain d.storage ≡ (t, ok tt)
        → length chain < 256
        → download c st duration (suc (suc fuel)) net 1 ps d ≡ some (t, ok tt)
    unfolding on_message
    talking_complete fuel d chain t e first second holds h short =
        let reply : (hs : List ℕ)
            → replies (d.from_height ∷ hs) ≡ blocks (take 256 chain) ∷ replies hs =
          λ hs. replies_lem d.from_height hs chain holds in
        elim greeting-cases [
          | inl quiet ↦
              let brought : net.answers 1 p (get_blocks d.from_height)
                  ≡ received (blocks (take 256 chain)) =
                first
                ∙ ap (λ l. arriving (get_elem? (l ++ replies (d.from_height ∷ [])) 0)) quiet
                ∙ ap (λ l. arriving (get_elem? l 0)) (reply []) in
              download-last (suc fuel) 1 d chain t e brought h short
          | inr (b, greets) ↦
              let greeted : net.answers 1 p (get_blocks d.from_height) ≡ received (new_block b) =
                first
                ∙ ap (λ l. arriving (get_elem? (l ++ replies (d.from_height ∷ [])) 0)) greets in
              let brought : net.answers 2 p (get_blocks d.from_height)
                  ≡ received (blocks (take 256 chain)) =
                second
                ∙ ap
                    (λ l.
                      arriving (get_elem? (l ++ replies (d.from_height ∷ d.from_height ∷ [])) 1))
                    greets
                ∙ ap (λ l. arriving (get_elem? l 0)) (reply (d.from_height ∷ [])) in
              unfold download in
              rw (step-received 1 d (new_block b) e greeted) (
                download-last fuel 2 (record d { consecutive_timeouts = 0 }) chain t e brought h
                  short)
        ]

  -- A node that is less than one full answer behind catches up with an honest peer: where the first
  -- bootstrap peer is reachable and its frames arrive in their order, first the greeting, if its store
  -- has a tip, and then the replies of its handler, and where the fewer than 256 blocks that the peer
  -- holds from the height above the node's tip on can be applied to the node's storage, the download
  -- ends without an error and leaves the storage with all of these blocks.
  pub run_ibd_complete :
      (c : Crypto) (st : Stores) (duration fuel : ℕ) (net : Network) (p : SocketAddr)
      (ps : List SocketAddr) (s t : st.Storage) (found : Option (ℕ × BlockHash))
      (chain : List Block)
      → st.tip s ≡ ok found
      → net.connects 0 p ≡ true
      → let from = start_height c st duration found in
        Delivers net p (from ∷ []) 0 from
        → Delivers net p (from ∷ from ∷ []) 1 from
        → stp.iter_from peer.stores from ≡ ok chain
        → apply_batch c st duration chain s ≡ (t, ok tt)
        → length chain < 256
        → 3 ≤ fuel
        → run_ibd c st duration fuel net (p ∷ ps) s ≡ some (t, ok tt)
  unfolding run_ibd step step_in choose connect start
  run_ibd_complete c st duration (suc (suc (suc fuel))) net p ps s t found chain e co first second
        holds h short enough =
      unfold download in
      rw (e, run_ibd, co)
        (talking_complete c st duration net p (p ∷ ps) fuel
          (record (start c st duration (start_height c st duration found) s) { phase = talking p })
          chain t refl first second holds h short)
  run_ibd_complete c st duration zero net p ps s t found chain e co first second holds h short
        enough =
      absurd (omega (arith, enough))
  run_ibd_complete c st duration (suc zero) net p ps s t found chain e co first second holds h short
        enough =
      absurd (omega (arith, enough))
  run_ibd_complete c st duration (suc (suc zero)) net p ps s t found chain e co first second holds h
        short enough =
      absurd (omega (arith, enough))
