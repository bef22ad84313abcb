-- ===== src/Core/Types.antt =====
-- The data types of crates/bcc-core/src/types, with the errors of store/mod.rs. A byte string, a
-- hash, a key and a signature is the list of its bytes.
use better_call_chain.Prelude.{ℕ, List, ℕ_discrete}
use better_call_chain.Prelude.Words.{ℤ}

abbrev pub Bytes : Type 0
Bytes = List ℕ

unfoldable pub bytes_discrete : Discrete Bytes
unfolding ℕ_discrete
bytes_discrete = hlevel ℕ_discrete

abbrev pub BlockHash : Type 0
BlockHash = Bytes

abbrev pub TxHash : Type 0
TxHash = BlockHash

pub record Address : Type 0 where
  pub text : Bytes

unfoldable pub address_discrete : Discrete Address
unfolding ℕ_discrete
address_discrete = hlevel ℕ_discrete

pub record TxOutRef : Type 0 where
  pub tx_hash : TxHash
  pub index : ℕ

unfoldable pub out_ref_discrete : Discrete TxOutRef
unfolding ℕ_discrete
out_ref_discrete = hlevel ℕ_discrete

pub record TxInput : Type 0 where
  pub out_ref : TxOutRef
  pub signature : Bytes
  pub pubkey : Bytes

pub record TxOutput : Type 0 where
  pub amount : ℕ
  pub address : Address

pub data TxKind : Type 0 where
  transfer : TxKind
  stake unstake : ℕ → TxKind

pub record Transaction : Type 0 where
  pub kind : TxKind
  pub inputs : List TxInput
  pub outputs : List TxOutput

pub record BlockHeader : Type 0 where
  pub prev_hash : BlockHash
  pub merkle_root : BlockHash
  pub timestamp : ℤ
  pub height : ℕ
  pub slot : ℕ
  pub proposer : Address

pub record Block : Type 0 where
  pub header : BlockHeader
  pub signature : Bytes
  pub txs : List Transaction

pub record Validator : Type 0 where
  pub address : Address
  pub pubkey : Bytes
  pub stake : ℕ
  pub active_since : ℕ

-- `TxSigningData` of validation/transaction.rs: what a spender signs.
pub record TxSigningData : Type 0 where
  pub kind : TxKind
  pub inputs : List TxOutRef
  pub outputs : List TxOutput

-- `StoreError`; the text of a backend error is left out.
pub data StoreError : Type 0 where
  not_found backend : StoreError
