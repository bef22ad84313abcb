-- ===== src/Core/Merkle.antt =====
-- `Block::hash`, `Transaction::hash` and `Block::compute_merkle_root` of
-- crates/bcc-core/src/types/{block,transaction}.rs.
pub mod Rounds
pub mod Binding
use better_call_chain.Prelude.{
  ℕ, zero, suc, ◌%◌, List, [], ◌∷◌, ◌++◌, map, if◌then◌else◌, ltb, ◌==◌, length, get_or,
}
use better_call_chain.Core.Types.{Bytes, BlockHash, TxHash, Transaction, Block}
use better_call_chain.Core.Crypto.{Crypto, sha256d}

-- `[0u8; 32]`
abbrev pub zeros : ℕ → Bytes
zeros zero = []
zeros (suc n) = 0 ∷ zeros n

-- `if let Some(&last) = layer.last() { layer.push(last) }`
unfoldable pub push_last : List BlockHash → List BlockHash
push_last [] = []
push_last (x ∷ []) = x ∷ x ∷ []
push_last (x ∷ y ∷ l) = x ∷ push_last (y ∷ l)

-- The layer with its last leaf again, if its length is odd.
unfoldable pub pad : List BlockHash → List BlockHash
pad layer = if length layer % 2 == 0 then layer else push_last layer

module _ (c : Crypto) where
  unfoldable pub tx_hash : Transaction → TxHash
  tx_hash tx = sha256d c (c.transaction_json tx)

  unfoldable pub block_hash : Block → BlockHash
  block_hash block = sha256d c (c.header_json block.header)

  -- `layer.chunks(2).map(…)`. A last chunk of one, which would panic at `pair[1]`, is dropped here;
  -- a padded layer has none.
  unfoldable pub hash_pairs : List BlockHash → List BlockHash
  hash_pairs (a ∷ b ∷ layer) = sha256d c (a ++ b) ∷ hash_pairs layer
  hash_pairs _ = []

  -- `while layer.len() > 1 { … }`, with fuel for the rounds.
  unfoldable pub merkle_loop : ℕ → List BlockHash → List BlockHash
  merkle_loop zero layer = layer
  merkle_loop (suc fuel) layer =
      let rest = merkle_loop fuel (hash_pairs (pad layer)) in
      if ltb 1 (length layer) then rest else layer

  -- `layer[0]`; the default is never read, since a layer of transactions is not empty.
  unfoldable pub root_of_layer : List BlockHash → BlockHash
  root_of_layer layer = get_or (merkle_loop (length layer) layer) 0 (zeros 32)

  unfoldable pub compute_merkle_root : List Transaction → BlockHash
  compute_merkle_root [] = zeros 32
  compute_merkle_root (tx ∷ txs) = root_of_layer (map tx_hash (tx ∷ txs))
