-- ===== src/Node/Sync/Download/Ends.antt =====
-- How long a download lasts.
use better_call_chain.Prelude.{
  ℕ, zero, suc, ◌+◌, ◌-◌, ◌*◌, ◌≤◌, ◌<◌, ◌≡◌, refl, inl, inr, length, List, [], ◌∷◌, some,
  Option-cases, Result, ok, err, Result-cases, get_elem?, get_elem?-lt, get_elem?-none-le, arith,
}
use better_call_chain.Core.Crypto.{Crypto}
use better_call_chain.Node.Errors.{NodeError, store}
use better_call_chain.Node.State.{SocketAddr, Message, get_blocks, Stores}
use better_call_chain.Node.Sync.Download.{
  Answer, cancelled, encode_failed, send_failed, timed_out, disconnected, framing_error,
  undecodable, received, Network, Phase, choosing, talking, Download, Next, going, ended, next_peer,
  exhausted, connect, choose, time_out, on_answer, step_in, step, download, Ended, continue, start,
  start_height, run_ibd,
}

-- The peer sends no frame in the round.
abbrev pub IsSilent : Answer → Type 0
IsSilent undecodable = ⊥
IsSilent (received _) = ⊥
IsSilent _ = Unit

one_retry : (r w : ℕ) → r < 5 → (5 - r) * w ≡ (5 - (r + 1)) * w + w
one_retry zero w _ = omega arith
one_retry (suc zero) w _ = omega arith
one_retry (suc (suc zero)) w _ = omega arith
one_retry (suc (suc (suc zero))) w _ = omega arith
one_retry (suc (suc (suc (suc zero)))) w _ = omega arith
one_retry (suc (suc (suc (suc (suc r))))) w h = absurd (omega arith)

retries_le : (r w : ℕ) → (5 - r) * w ≤ 5 * w
retries_le zero w = omega arith
retries_le (suc zero) w = omega arith
retries_le (suc (suc zero)) w = omega arith
retries_le (suc (suc (suc zero))) w = omega arith
retries_le (suc (suc (suc (suc zero)))) w = omega arith
retries_le (suc (suc (suc (suc (suc r))))) w =
    let none_left : 5 - suc (suc (suc (suc (suc r)))) ≡ 0 = omega arith in
    rw none_left (omega arith)

module _ (c : Crypto) (st : Stores) (duration : ℕ) where
  -- The rounds left with the peers of the list, from the present one on.
  abbrev rounds : ℕ → Phase → ℕ → ℕ → ℕ
  rounds n choosing idx waited = 4 * (n - idx)
  rounds n (talking _) idx waited = 4 * (n - suc idx) + 1 + (2 - waited)

  abbrev measure : ℕ → Download c st duration → ℕ
  measure n d =
      (5 - d.retry_count) * (4 * n + 1) + rounds n d.phase d.peer_idx d.consecutive_timeouts

  rounds-le : (n : ℕ) (p : Phase) (idx waited : ℕ) → rounds n p idx waited ≤ 4 * n + 3
  rounds-le n choosing idx waited = omega arith
  rounds-le n (talking _) idx waited = omega arith

  measure-le : (n : ℕ) (d : Download c st duration) → measure n d ≤ 24 * n + 8
  measure-le n d = omega (
    arith,
    rounds-le n d.phase d.peer_idx d.consecutive_timeouts,
    retries_le d.retry_count (4 * n + 1),
  )

  -- A round that goes on has fewer rounds left.
  abbrev Falls : ℕ → ℕ → Next c st duration → Type 0
  Falls n m (going d) = measure n d < m
  Falls n m (ended _ _) = Unit

  exhausted-Falls :
      (n : ℕ) (d : Download c st duration)
      → d.phase ≡ choosing
      → n ≤ d.peer_idx
      → Falls n (measure n d) (exhausted c st duration d)
  unfolding exhausted
  exhausted-Falls n d e h = ground (arith, one_retry d.retry_count (4 * n + 1))

  connect-Falls :
      (net : Network) (tick n : ℕ) (addr : SocketAddr) (d : Download c st duration)
      → d.phase ≡ choosing
      → d.peer_idx < n
      → Falls n (measure n d) (connect c st duration net tick addr d)
  unfolding connect next_peer
  connect-Falls net tick n addr d e h = ground arith

  choose-Falls :
      (net : Network) (tick : ℕ) (ps : List SocketAddr) (d : Download c st duration)
      → d.phase ≡ choosing
      → Falls (length ps) (measure (length ps) d) (choose c st duration net tick ps d)
  unfolding choose
  choose-Falls net tick ps d e = elim (Option-cases (get_elem? ps d.peer_idx)) [
    | inr (addr, f) ↦
        rw (f, choose)
          (connect-Falls net tick (length ps) addr d e (get_elem?-lt ps d.peer_idx addr f))
    | inl f ↦ rw (f, choose) (exhausted-Falls (length ps) d e (get_elem?-none-le ps d.peer_idx f))
  ]

  time_out-Falls :
      (n : ℕ) (addr : SocketAddr) (d : Download c st duration)
      → d.phase ≡ talking addr
      → Falls n (measure n d) (time_out c st duration d)
  unfolding time_out next_peer
  time_out-Falls n addr d e = ground arith

  next_peer-Falls :
      (n : ℕ) (addr : SocketAddr) (d : Download c st duration)
      → d.phase ≡ talking addr
      → measure n (next_peer c st duration d) < measure n d
  unfolding next_peer
  next_peer-Falls n addr d e = ground arith

  on_answer-Falls :
      (n : ℕ) (a : Answer) (addr : SocketAddr) (d : Download c st duration)
      → d.phase ≡ talking addr
      → IsSilent a
      → Falls n (measure n d) (on_answer c st duration a d)
  unfolding on_answer
  on_answer-Falls n cancelled addr d e q = tt
  on_answer-Falls n encode_failed addr d e q = tt
  on_answer-Falls n timed_out addr d e q = time_out-Falls n addr d e
  on_answer-Falls n send_failed addr d e q = next_peer-Falls n addr d e
  on_answer-Falls n disconnected addr d e q = next_peer-Falls n addr d e
  on_answer-Falls n framing_error addr d e q = next_peer-Falls n addr d e
  on_answer-Falls n undecodable addr d e q = elim q [ ]
  on_answer-Falls n (received _) addr d e q = elim q [ ]

  abbrev IsSilentFrom : ℕ → Network → Type 0
  IsSilentFrom from net =
      (tick : ℕ) (addr : SocketAddr) (msg : Message)
      → from ≤ tick
      → IsSilent (net.answers tick addr msg)

  step_in-Falls :
      (net : Network) (tick : ℕ) (ps : List SocketAddr) (p : Phase) (d : Download c st duration)
      → ((addr : SocketAddr) (msg : Message) → IsSilent (net.answers tick addr msg))
      → d.phase ≡ p
      → Falls (length ps) (measure (length ps) d) (step_in c st duration net tick ps p d)
  unfolding step_in
  step_in-Falls net tick ps choosing d q e = choose-Falls net tick ps d e
  step_in-Falls net tick ps (talking addr) d q e =
      on_answer-Falls (length ps) (net.answers tick addr (get_blocks d.from_height)) addr d e
        (q addr (get_blocks d.from_height))

  abbrev Ends : Ended c st duration → Type 0
  Ends o = (r : st.Storage × Result NodeError (Unit {0})) × (o ≡ some r)

  continue-Ends :
      (more : Download c st duration → Ended c st duration) (n m : ℕ) (next : Next c st duration)
      → Falls n m next
      → ((d : Download c st duration) → measure n d < m → Ends (more d))
      → Ends (continue c st duration more next)
  continue-Ends more n m (ended s r) falls rest = ((s, r), refl)
  continue-Ends more n m (going d) falls rest = rest d falls

  continue-Ends_any :
      (more : Download c st duration → Ended c st duration) (next : Next c st duration)
      → ((d : Download c st duration) → Ends (more d))
      → Ends (continue c st duration more next)
  continue-Ends_any more (ended s r) rest = ((s, r), refl)
  continue-Ends_any more (going d) rest = rest d

  -- From a round on after which the peers are silent.
  silent-Ends :
      (fuel : ℕ) (net : Network) (tick : ℕ) (ps : List SocketAddr) (d : Download c st duration)
      → IsSilentFrom tick net
      → measure (length ps) d < fuel
      → Ends (download c st duration fuel net tick ps d)
  unfolding download step
  silent-Ends zero net tick ps d q h = absurd (omega arith)
  silent-Ends (suc fuel) net tick ps d q h =
      continue-Ends (λ next. download c st duration fuel net (tick + 1) ps next) (length ps)
        (measure (length ps) d) (step c st duration net tick ps d)
        (step_in-Falls net tick ps d.phase d (λ addr msg. q tick addr msg (omega arith)) refl)
        (λ next k.
          silent-Ends fuel net (tick + 1) ps next (λ t addr msg le. q t addr msg (omega arith))
            (omega arith))

  later-Ends :
      (busy fuel : ℕ) (net : Network) (tick : ℕ) (ps : List SocketAddr) (d : Download c st duration)
      → IsSilentFrom (tick + busy) net
      → busy + 24 * length ps + 8 < fuel
      → Ends (download c st duration fuel net tick ps d)
  unfolding download step
  later-Ends zero fuel net tick ps d q h =
      silent-Ends fuel net tick ps d (λ t addr msg le. q t addr msg (omega arith))
        (omega (arith, measure-le (length ps) d))
  later-Ends (suc busy) zero net tick ps d q h = absurd (omega arith)
  later-Ends (suc busy) (suc fuel) net tick ps d q h =
      continue-Ends_any (λ next. download c st duration fuel net (tick + 1) ps next)
        (step c st duration net tick ps d)
        (λ next.
          later-Ends busy fuel net (tick + 1) ps next (λ t addr msg le. q t addr msg (omega arith))
            (omega arith))

  -- The download ends once the peers have been silent for long enough: where no frame arrives after
  -- the first `busy` rounds, whether the peers refuse, fail, hang up or let the requests time out, it
  -- ends within 24 further rounds for each bootstrap peer and nine more.
  pub run_ibd-Ends :
      (busy fuel : ℕ) (net : Network) (ps : List SocketAddr) (s : st.Storage)
      → ((tick : ℕ) (addr : SocketAddr) (msg : Message)
          → busy ≤ tick
          → IsSilent (net.answers tick addr msg))
      → busy + 24 * length ps + 9 ≤ fuel
      → (r : st.Storage × Result NodeError (Unit {0})) × (run_ibd c st duration fuel net ps s
          ≡ some r)
  unfolding run_ibd
  run_ibd-Ends busy fuel net [] s q h = ((s, ok tt), refl)
  run_ibd-Ends busy fuel net (p ∷ ps) s q h = elim (Result-cases (st.tip s)) [
    | inl (found, e) ↦
        rw (e, run_ibd)
          (later-Ends busy fuel net 0 (p ∷ ps)
            (start c st duration (start_height c st duration found) s)
            (λ t addr msg le. q t addr msg (omega arith)) (omega arith))
    | inr (e, f) ↦ ((s, err (store e)), rw (f, run_ibd))
  ]
