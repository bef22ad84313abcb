-- ===== src/Node/Handler/Fork.antt =====
-- How two nodes whose tips compete at one height decide between them.
use better_call_chain.Prelude.{ℕ, ◌-◌, ◌<◌, ◌≡◌, List, [], ◌∷◌, none, some, ok}
use better_call_chain.Core.Types.{Block}
use better_call_chain.Core.Crypto.{Crypto}
use better_call_chain.Core.Merkle.{block_hash}
use better_call_chain.Core.Validation.Blocks.{validate_block}
use better_call_chain.Node.IndexMap.{IndexMap}
use better_call_chain.Node.State.{Stores, NodeState}

-- The order of the dictionary on strings of numbers.
pub data Below : List ℕ → List ℕ → Type 0 where
  shorter : (y : ℕ) (t : List ℕ) → Below [] (y ∷ t)
  at_first : (x y : ℕ) (s t : List ℕ) → x < y → Below (x ∷ s) (y ∷ t)
  behind : (x : ℕ) (s t : List ℕ) → Below s t → Below (x ∷ s) (x ∷ t)

module _ (c : Crypto) (st : Stores) (im : IndexMap) where
  -- The node's tip and another block, which it does not know, compete at a height: both have the
  -- parent that the node stores below the tip, and the other block is valid on the node's stores.
  pub record Competes (height : ℕ) (tip other : Block) (n : NodeState st im) : Type 0 where
    pub at_tip : st.tip n.stores ≡ ok (some (height, block_hash c tip))
    pub tip_block : st.get_by_height n.stores height ≡ ok (some tip)
    pub unknown : st.get_by_hash n.stores (block_hash c other) ≡ ok none
    pub at_height : other.header.height ≡ height
    pub parent : Block
    pub below_tip : st.get_by_height n.stores (height - 1) ≡ ok (some parent)
    pub child : other.header.prev_hash ≡ block_hash c parent
    pub valid :
        validate_block c other parent
          (st.get_output n.stores)
          (st.all_active n.stores)
          n.slot_duration_secs
        ≡ ok tt
