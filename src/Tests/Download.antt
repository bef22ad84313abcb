-- ===== src/Tests/Download.antt =====
-- The theorems about the initial download at concrete inputs.
use better_call_chain.Prelude.{
  ℕ, ◌+◌, ◌≤◌, ◌≡◌, refl, ap, true, if◌then◌else◌, ◌==◌, List, [], ◌∷◌, some, ok, get_elem?, Result,
  arith,
}
use better_call_chain.Core.Memory.{MemoryStore, iter_from, tip}
use better_call_chain.Node.Errors.{NodeError}
use better_call_chain.Node.State.{SocketAddr, NodeState, memory}
use better_call_chain.Node.Sync.Download.{Network, timed_out, run_ibd}
use better_call_chain.Node.Sync.Download.Written.{Wrote, run_ibd-Wrote}
use better_call_chain.Node.Sync.Download.Ends.{run_ibd-Ends}
use better_call_chain.Node.Sync.Download.Honest.{arriving, frames, run_ibd_complete}
use better_call_chain.Prelude.Trees.{tree_from}
use better_call_chain.Core.Merkle.{block_hash}
use better_call_chain.Tests.Toy.{toy}
use better_call_chain.Tests.Index.{entries}
use better_call_chain.Tests.Data.{genesis, block, store}
use better_call_chain.Tests.Ledger.{synced, batch-ok}
use better_call_chain.Tests.Network.{peer_a, peer_b, node}

-- A node that has the block, and a network in which it answers.
abbrev longer : MemoryStore
longer = record store { blocks = (0, genesis) ∷ (1, block) ∷ [] }

abbrev ahead : NodeState (memory toy) entries
ahead = record node { stores = longer }

-- The frames of that node come one in each round.
abbrev open_net : Network
open_net = record {
  connects = λ _ _. true;
  answers = λ round _ _.
      if round == 1
      then arriving (get_elem? (frames toy (memory toy) entries ahead peer_b (1 ∷ [])) 0)
      else arriving (get_elem? (frames toy (memory toy) entries ahead peer_b (1 ∷ 1 ∷ [])) 1);
}

ahead-block : iter_from longer 1 ≡ ok (block ∷ [])
unfolding iter_from tree_from
ahead-block = refl

found_tip : tip toy store ≡ ok (some (0, block_hash toy genesis))
unfolding tip better_call_chain.Prelude.Trees.tree_last
found_tip = refl

abbrev both : List SocketAddr
both = peer_a ∷ peer_b ∷ []

caught_up : run_ibd toy (memory toy) 100 3 open_net both store ≡ some (synced, ok tt)
caught_up =
    run_ibd_complete toy (memory toy) entries ahead peer_b toy (memory toy) 100 3 open_net peer_a
      (peer_b ∷ []) store synced (some (0, block_hash toy genesis)) (block ∷ []) found_tip refl refl
      refl ahead-block (ap (λ r. (synced, r)) batch-ok) (omega arith) (omega arith)

run_ibd_complete_example : run_ibd toy (memory toy) 100 9 open_net both store ≡ some (synced, ok tt)
run_ibd_complete_example =
    run_ibd_complete toy (memory toy) entries ahead peer_b toy (memory toy) 100 9 open_net peer_a
      (peer_b ∷ []) store synced (some (0, block_hash toy genesis)) (block ∷ []) found_tip refl refl
      refl ahead-block (ap (λ r. (synced, r)) batch-ok) (omega arith) (omega arith)

run_ibd-Wrote_example : Wrote toy (memory toy) 100 store synced
run_ibd-Wrote_example = run_ibd-Wrote toy (memory toy) 100 3 open_net both store synced caught_up

abbrev slow : Network
slow = record { connects = λ _ _. true; answers = λ _ _ _. timed_out }

run_ibd-Ends_example :
    (r : MemoryStore × Result NodeError (Unit {0})) × (run_ibd toy
        (memory toy)
        100
        57
        slow
        both
        store
      ≡ some r)
run_ibd-Ends_example =
    run_ibd-Ends toy (memory toy) 100 0 57 slow both store (λ _ _ _ _. tt) (omega arith)
