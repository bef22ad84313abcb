-- ===== src/Node/Sync/Download.antt =====
-- crates/bcc-node/src/ibd.rs: the loop of run_ibd over the bootstrap peers and their batches. One
-- step is one round of a loop; what the network brings in it is a parameter.
pub mod Written
pub mod Ends
pub mod Honest
use better_call_chain.Prelude.{
  ℕ, zero, suc, ◌+◌, Bool, true, false, ◌&&◌, List, [], ◌∷◌, Option, none, some, Result, ok, err,
  map_err, if◌then◌else◌, ltb, leb, ◌==◌, length, get_elem?,
}
use better_call_chain.Prelude.Words.{add_u64}
use better_call_chain.Core.Types.{Block, BlockHash}
use better_call_chain.Core.Crypto.{Crypto}
use better_call_chain.Core.Memory.{StoreResult}
use better_call_chain.Node.Errors.{NodeError, store, p2p, shutdown}
use better_call_chain.Node.State.{SocketAddr, Message, get_blocks, blocks, Stores}
use better_call_chain.Node.Sync.{apply_batch}

abbrev pub max_consecutive_timeouts : ℕ
max_consecutive_timeouts = 3

abbrev pub blocks_per_request : ℕ
blocks_per_request = 256

abbrev pub max_ibd_retries : ℕ
max_ibd_retries = 5

-- What comes of one round with a peer: the download is cancelled before the request, the request
-- cannot be encoded or sent, or the wait for a frame ends in one of these ways.
pub data Answer : Type 0 where
  cancelled encode_failed send_failed timed_out disconnected framing_error undecodable : Answer
  received : Message → Answer

-- The network, by the number of the step: whether a connection succeeds, and what answers a request.
pub record Network : Type 0 where
  pub connects : ℕ → SocketAddr → Bool
  pub answers : ℕ → SocketAddr → Message → Answer

-- Whether the outer loop looks for a peer, or the inner one talks to the peer that it found.
pub data Phase : Type 0 where
  choosing : Phase
  talking : SocketAddr → Phase

-- `last.header.height + 1`
abbrev pub after_last : Block → List Block → ℕ
after_last b [] = add_u64 b.header.height 1
after_last _ (b ∷ bs) = after_last b bs

module _ (c : Crypto) (st : Stores) (duration : ℕ) where
  -- The variables of `run_ibd`, with the storage that the node shares.
  pub record Download : Type 0 where
    pub phase : Phase
    pub initial_from_height : ℕ
    pub from_height : ℕ
    pub peer_idx : ℕ
    pub consecutive_timeouts : ℕ
    pub retry_count : ℕ
    pub storage : st.Storage

  pub data Next : Type 0 where
    going : Download → Next
    ended : st.Storage → Result NodeError (Unit {0}) → Next

  -- `peer_idx += 1; break;`
  unfoldable pub next_peer : Download → Download
  next_peer d = record d { phase = choosing; peer_idx = d.peer_idx + 1 }

  -- No peer is left.
  unfoldable pub exhausted : Download → Next
  exhausted d =
      if d.from_height == d.initial_from_height && ltb d.retry_count max_ibd_retries
      then going
          (record d { peer_idx = 0; consecutive_timeouts = 0; retry_count = d.retry_count + 1 })
      else ended d.storage (ok tt)

  unfoldable pub connect : Network → ℕ → SocketAddr → Download → Next
  unfolding next_peer
  connect net tick addr d =
      if net.connects tick addr
      then going (record d { phase = talking addr })
      else going (next_peer d)

  -- A round of the outer loop.
  unfoldable pub choose : Network → ℕ → List SocketAddr → Download → Next
  unfolding exhausted connect
  choose net tick peers d = elim (get_elem? peers d.peer_idx) [
    | none ↦ exhausted d
    | some addr ↦ connect net tick addr d
  ]

  unfoldable pub time_out : Download → Next
  unfolding next_peer
  time_out d =
      let waited = d.consecutive_timeouts + 1 in
      if leb max_consecutive_timeouts waited
      then going (record (next_peer d) { consecutive_timeouts = 0 })
      else going (record d { consecutive_timeouts = waited })

  -- After a batch that is not empty was applied, with its result.
  unfoldable pub advance :
      Block → List Block → Download → st.Storage × Result NodeError (Unit {0}) → Next
  advance b bs d (s, err e) = ended s (err e)
  advance b bs d (s, ok _) =
      if ltb (length (b ∷ bs)) blocks_per_request
      then ended s (ok tt)
      else going (record d { storage = s; from_height = after_last b bs })

  unfoldable pub on_blocks : List Block → Download → Next
  unfolding advance
  on_blocks [] d = ended d.storage (ok tt)
  on_blocks (b ∷ bs) d = advance b bs d (apply_batch c st duration (b ∷ bs) d.storage)

  unfoldable pub on_message : Message → Download → Next
  unfolding on_blocks
  on_message (blocks bs) d = on_blocks bs d
  on_message _ d = going d

  -- A round of the inner loop, by its answer.
  unfoldable pub on_answer : Answer → Download → Next
  unfolding next_peer time_out on_message
  on_answer cancelled d = ended d.storage (err shutdown)
  on_answer encode_failed d = ended d.storage (err p2p)
  on_answer send_failed d = going (next_peer d)
  on_answer timed_out d = time_out d
  on_answer disconnected d = going (next_peer d)
  on_answer framing_error d = going (next_peer d)
  on_answer undecodable d = going (record d { consecutive_timeouts = 0 })
  on_answer (received msg) d = on_message msg (record d { consecutive_timeouts = 0 })

  unfoldable pub step_in : Network → ℕ → List SocketAddr → Phase → Download → Next
  unfolding choose on_answer
  step_in net tick peers choosing d = choose net tick peers d
  step_in net tick peers (talking addr) d =
      on_answer (net.answers tick addr (get_blocks d.from_height)) d

  unfoldable pub step : Network → ℕ → List SocketAddr → Download → Next
  unfolding step_in
  step net tick peers d = step_in net tick peers d.phase d

  abbrev pub Ended : Type 0
  Ended = Option (st.Storage × Result NodeError (Unit {0}))

  abbrev pub continue : (Download → Ended) → Next → Ended
  continue more (ended s r) = some (s, r)
  continue more (going d) = more d

  -- Both loops; `none` means that the fuel ran out.
  unfoldable pub download : ℕ → Network → ℕ → List SocketAddr → Download → Ended
  download zero net tick peers d = none
  download (suc fuel) net tick peers d =
      continue (λ next. download fuel net (tick + 1) peers next) (step net tick peers d)

  abbrev pub start_height : Option (ℕ × BlockHash) → ℕ
  start_height none = add_u64 0 1
  start_height (some (h, _)) = add_u64 h 1

  unfoldable pub start : ℕ → st.Storage → Download
  start from s = record {
    phase = choosing;
    initial_from_height = from;
    from_height = from;
    peer_idx = 0;
    consecutive_timeouts = 0;
    retry_count = 0;
    storage = s;
  }

  unfoldable pub run_ibd : ℕ → Network → List SocketAddr → st.Storage → Ended
  unfolding start download
  run_ibd fuel net [] s = some (s, ok tt)
  run_ibd fuel net (p ∷ ps) s = elim (st.tip s) [
    | err e ↦ some (s, err (store e))
    | ok tip ↦ download fuel net 0 (p ∷ ps) (start (start_height tip) s)
  ]
