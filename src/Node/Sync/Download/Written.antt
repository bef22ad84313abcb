-- ===== src/Node/Sync/Download/Written.antt =====
-- What a download leaves in the storage.
use better_call_chain.Prelude.{
  ℕ, zero, suc, ◌+◌, ◌≡◌, refl, sym, subst, inl, inr, ltb, leb, ◌==◌, ◌&&◌, length, List, [], ◌∷◌,
  ◌++◌, some, Option-cases, Result, ok, err, Result-cases, if_both, get_elem?, arith,
}
use better_call_chain.Core.Types.{Block}
use better_call_chain.Core.Crypto.{Crypto}
use better_call_chain.Node.Errors.{NodeError}
use better_call_chain.Node.State.{SocketAddr, get_blocks, blocks, Stores}
use better_call_chain.Node.Sync.{apply_batch}
use better_call_chain.Node.Sync.Batch.{Synced, apply_batch-Synced}
use better_call_chain.Node.Sync.Download.{
  Answer, cancelled, encode_failed, timed_out, received, Network, Phase, choosing, talking,
  Download, Next, going, ended, next_peer, exhausted, connect, choose, time_out, advance, on_blocks,
  on_message, on_answer, step_in, step, download, Ended, continue, start, start_height, run_ibd,
  max_ibd_retries, max_consecutive_timeouts, blocks_per_request,
}

module _ (c : Crypto) (st : Stores) (duration : ℕ) where
  -- Some blocks lead from one storage to the other, each written where it follows.
  abbrev pub Wrote : st.Storage → st.Storage → Type 0
  Wrote s t = (bs : List Block) × Synced c st duration bs s t

  Synced-append :
      (xs bs : List Block) (s t u : st.Storage)
      → Synced c st duration xs s t
      → Synced c st duration bs t u
      → Synced c st duration (xs ++ bs) s u
  Synced-append [] bs s t u e h = subst (λ v. Synced c st duration bs v u) (sym e) h
  Synced-append (a ∷ xs) bs s t u (v, follows, written, more) h =
      (v, follows, written, Synced-append xs bs v t u more h)

  Wrote-trans : (s t u : st.Storage) → Wrote s t → Wrote t u → Wrote s u
  Wrote-trans s t u (xs, h) (bs, k) = (xs ++ bs, Synced-append xs bs s t u h k)

  -- A round that goes on, or ends well, has only written blocks that follow.
  abbrev Keeps : st.Storage → Next c st duration → Type 0
  Keeps s (going d) = Wrote s d.storage
  Keeps s (ended t (ok _)) = Wrote s t
  Keeps s (ended t (err _)) = Unit

  unchanged : (s : st.Storage) → Wrote s s
  unchanged s = ([], refl)

  choose-Keeps :
      (net : Network) (tick : ℕ) (ps : List SocketAddr) (d : Download c st duration)
      → Keeps d.storage (choose c st duration net tick ps d)
  unfolding choose exhausted connect next_peer
  choose-Keeps net tick ps d = elim (Option-cases (get_elem? ps d.peer_idx)) [
    | inr (addr, e) ↦
        rw (e, choose)
          (if_both (Keeps d.storage) (net.connects tick addr) (λ _. unchanged d.storage)
            (λ _. unchanged d.storage))
    | inl e ↦
        rw (e, choose)
          (if_both (Keeps d.storage)
            (d.from_height == d.initial_from_height && ltb d.retry_count max_ibd_retries)
            (λ _. unchanged d.storage) (λ _. unchanged d.storage))
  ]

  advance-Keeps :
      (b : Block) (bs : List Block) (s : st.Storage) (d : Download c st duration)
      (r : st.Storage × Result NodeError (Unit {0}))
      → apply_batch c st duration (b ∷ bs) s ≡ r
      → Keeps s (advance c st duration b bs d r)
  unfolding advance
  advance-Keeps b bs s d (t, err e) h = tt
  advance-Keeps b bs s d (t, ok _) h =
      let wrote : Wrote s t = (b ∷ bs, apply_batch-Synced c st duration (b ∷ bs) s t h) in
      if_both (Keeps s) (ltb (length (b ∷ bs)) blocks_per_request) (λ _. wrote) (λ _. wrote)

  on_answer-Keeps :
      (a : Answer) (d : Download c st duration) → Keeps d.storage (on_answer c st duration a d)
  unfolding on_answer on_message on_blocks time_out next_peer
  on_answer-Keeps cancelled d = tt
  on_answer-Keeps encode_failed d = tt
  on_answer-Keeps timed_out d =
      if_both (Keeps d.storage) (leb max_consecutive_timeouts (d.consecutive_timeouts + 1))
        (λ _. unchanged d.storage) (λ _. unchanged d.storage)
  on_answer-Keeps (received (blocks [])) d = unchanged d.storage
  on_answer-Keeps (received (blocks (b ∷ bs))) d =
      advance-Keeps b bs d.storage (record d { consecutive_timeouts = 0 })
        (apply_batch c st duration (b ∷ bs) d.storage) refl
  on_answer-Keeps (received _) d = unchanged d.storage
  on_answer-Keeps _ d = unchanged d.storage

  step_in-Keeps :
      (net : Network) (tick : ℕ) (ps : List SocketAddr) (phase : Phase) (d : Download c st duration)
      → Keeps d.storage (step_in c st duration net tick ps phase d)
  unfolding step_in
  step_in-Keeps net tick ps choosing d = choose-Keeps net tick ps d
  step_in-Keeps net tick ps (talking addr) d =
      on_answer-Keeps (net.answers tick addr (get_blocks d.from_height)) d

  after-Wrote :
      (more : Download c st duration → Ended c st duration) (s t : st.Storage)
      (n : Next c st duration)
      → ((d : Download c st duration) → more d ≡ some (t, ok tt) → Wrote d.storage t)
      → Keeps s n
      → continue c st duration more n ≡ some (t, ok tt)
      → Wrote s t
  after-Wrote more s t (ended u (ok _)) rest k h = subst (Wrote s) (ground (arith, h)) k
  after-Wrote more s t (ended u (err _)) rest k h = absurd (cc (h))
  after-Wrote more s t (going d) rest k h = Wrote-trans s d.storage t k (rest d h)

  download-Wrote :
      (fuel : ℕ) (net : Network) (tick : ℕ) (ps : List SocketAddr) (d : Download c st duration)
      (t : st.Storage)
      → download c st duration fuel net tick ps d ≡ some (t, ok tt)
      → Wrote d.storage t
  unfolding download step
  download-Wrote zero net tick ps d t h = absurd (cc (h))
  download-Wrote (suc fuel) net tick ps d t h =
      after-Wrote (λ next. download c st duration fuel net (tick + 1) ps next) d.storage t
        (step c st duration net tick ps d)
        (λ next k. download-Wrote fuel net (tick + 1) ps next t k)
        (step_in-Keeps net tick ps d.phase d) h

  -- A download that ends without an error, whatever the network does, has written nothing but a
  -- sequence of blocks, each at height 0 or valid behind the stored block below it on the storage
  -- that the blocks before it left.
  pub run_ibd-Wrote :
      (fuel : ℕ) (net : Network) (ps : List SocketAddr) (s t : st.Storage)
      → run_ibd c st duration fuel net ps s ≡ some (t, ok tt)
      → Wrote s t
  unfolding run_ibd start
  run_ibd-Wrote fuel net [] s t h = ([], ground (arith, h))
  run_ibd-Wrote fuel net (p ∷ ps) s t h = elim (Result-cases (st.tip s)) [
    | inl (found, e) ↦
        download-Wrote fuel net 0 (p ∷ ps)
          (start c st duration (start_height c st duration found) s) t (rw (e, run_ibd) at h)
    | inr (e, f) ↦ absurd (ground (arith, h, f))
  ]
