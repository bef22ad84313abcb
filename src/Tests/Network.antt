-- ===== src/Tests/Network.antt =====
-- The theorems about the message handler at concrete inputs.
use better_call_chain.Core.Types.{Transaction}
use better_call_chain.Node.Api.{Served, route, post_method, tx_path}
use better_call_chain.Node.Api.Requests.{IsServed, route-IsServed}
use better_call_chain.Prelude.{Option, some, [], ◌∷◌, All}
use better_call_chain.Core.Types.{Bytes}
use better_call_chain.Node.Mempool.{empty}
use better_call_chain.Node.Mempool.Invariant.{IsConsistent, empty-IsConsistent}
use better_call_chain.Node.State.{SocketAddr, new_tx, NodeState, memory}
use better_call_chain.Node.Handler.{on_new_block, dispatch}
use better_call_chain.Node.Handler.Gossip.{IsProper, on_new_block-IsProper, dispatch-IsConsistent}
use better_call_chain.Tests.Toy.{toy}
use better_call_chain.Tests.Index.{entries}
use better_call_chain.Tests.Data.{block, payment, store}

abbrev pub peer_a : SocketAddr
peer_a = record { ip = 10 ∷ []; port = 1 }

abbrev pub peer_b : SocketAddr
peer_b = record { ip = 11 ∷ []; port = 1 }

abbrev pub node : NodeState (memory toy) entries
node = record {
  stores = store;
  mempool = empty toy entries 4;
  peer_set = peer_a ∷ peer_b ∷ [];
  slot_duration_secs = 100;
}

dispatch-IsConsistent_example :
    IsConsistent toy entries
      (dispatch toy (memory toy) entries peer_a (new_tx payment) node).node.mempool
dispatch-IsConsistent_example =
    dispatch-IsConsistent toy (memory toy) entries peer_a (new_tx payment) node
      (empty-IsConsistent toy entries 4)

on_new_block-IsProper_example :
    All
      (IsProper toy (memory toy) entries peer_a node block)
      (on_new_block toy (memory toy) entries peer_a block node).sent
on_new_block-IsProper_example = on_new_block-IsProper toy (memory toy) entries peer_a node block

abbrev from_slice : Bytes → Option Transaction
from_slice body = some payment

abbrev posted : Served toy (memory toy) entries
posted = route toy (memory toy) entries from_slice post_method tx_path [] node

route-IsServed_example :
    IsServed toy (memory toy) entries from_slice node [] posted
    × IsConsistent toy entries posted.node.mempool
route-IsServed_example =
    route-IsServed toy (memory toy) entries from_slice node [] post_method tx_path
      (empty-IsConsistent toy entries 4)
