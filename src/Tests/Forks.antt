-- ===== src/Tests/Forks.antt =====
-- The theorem about competing tips at concrete nodes.
use better_call_chain.Prelude.{ℕ, [], ◌∷◌, none, some, ok}
use better_call_chain.Core.Types.{Block, BlockHeader}
use better_call_chain.Core.Merkle.{block_hash}
use better_call_chain.Core.Memory.{MemoryStore}
use better_call_chain.Node.State.{NodeState, memory}
use better_call_chain.Tests.Toy.{toy}
use better_call_chain.Tests.Index.{entries}
use better_call_chain.Tests.Data.{alice_key, genesis, block_of, store}
use better_call_chain.Tests.Network.{node}

-- Two empty blocks on the genesis block, of the slots 1 and 2.
abbrev first : Block
first = block_of 1 []

abbrev later : BlockHeader
later = record first.header { slot = 2 }

abbrev second : Block
second = record { header = later; signature = toy.sign alice_key (toy.header_json later); txs = [] }

abbrev store_of : Block → MemoryStore
store_of b = record store {
  blocks = (0, genesis) ∷ (1, b) ∷ [];
  index = (block_hash toy genesis, 0) ∷ (block_hash toy b, 1) ∷ [];
}

abbrev node_of : Block → NodeState (memory toy) entries
node_of b = record node { stores = store_of b }
