-- ===== src/Node/Api.antt =====
-- crates/bcc-node/src/api.rs, after the request is read: the router and its handlers.
pub mod Requests
use better_call_chain.Prelude.{
  ℕ, Bool, true, false, List, [], ◌∷◌, map, Option, none, some, Result, ok, err, ◌&&◌, test, drop,
  if◌then◌else◌, ◌==◌,
}
use better_call_chain.Core.Types.{Bytes, Address, TxOutRef, TxOutput, Transaction, bytes_discrete}
use better_call_chain.Core.Crypto.{Crypto}
use better_call_chain.Core.Address.{validate, starts_with}
use better_call_chain.Core.Merkle.{tx_hash}
use better_call_chain.Node.Errors.{NodeError, store, validation}
use better_call_chain.Node.IndexMap.{IndexMap}
use better_call_chain.Node.Mempool.{Mempool, AddedToPool, add}
use better_call_chain.Node.State.{
  SocketAddr, Message, new_tx, Stores, NodeState, Sends, broadcast_all,
}

-- The JSON of an answer, before it is written; the texts of errors are left out.
pub data Body : Type 0 where
  tip_body : (height : ℕ) (hash : Bytes) → Body
  balance_body : (address : Bytes) (balance : ℕ) → Body
  utxos_body : List (Bytes × ℕ × ℕ) → Body
  tx_body : (tx_hash : Bytes) → Body
  peers_body : List SocketAddr → Body
  error_body : Body

-- `build_response` before it is written: the first line, and the body with its length and type.
pub data Reason : Type 0 where
  ok_reason bad_request service_unavailable : Reason

pub data Response : Type 0 where
  response : (status : ℕ) (reason : Reason) (body : Body) → Response
  no_content : Response

unfoldable pub json_ok : Body → Response
json_ok body = response 200 ok_reason body

unfoldable pub err_response : ℕ → Response
err_response status =
    response status (if status == 400 then bad_request else service_unavailable) error_body

unfoldable pub not_found : Response
not_found = err_response 404

module _ (c : Crypto) (st : Stores) (im : IndexMap) where
  -- What a request leaves behind: the node, the messages to its peers, and the answer.
  pub record Served : Type 0 where
    pub node : NodeState st im
    pub sent : Sends
    pub answer : Response

  unfoldable pub reads : NodeState st im → Response → Served
  reads n answer = record { node = n; sent = []; answer = answer }

  unfoldable pub get_tip : NodeState st im → Response
  get_tip n = elim (st.tip n.stores) [
    | err e ↦ err_response 503
    | ok none ↦ err_response 503
    | ok (some (height, hash)) ↦ json_ok (tip_body height (c.hex_encode hash))
  ]

  unfoldable pub get_balance : NodeState st im → Bytes → Response
  get_balance n raw_addr = elim (validate raw_addr) [
    | err e ↦ err_response 400
    | ok addr ↦ elim (st.balance n.stores addr) [
      | err e ↦ err_response 503
      | ok balance ↦ json_ok (balance_body raw_addr balance)
    ]
  ]

  abbrev pub item_of : TxOutRef × TxOutput → Bytes × ℕ × ℕ
  item_of (r, o) = (c.hex_encode r.tx_hash, r.index, o.amount)

  unfoldable pub get_utxos : NodeState st im → Bytes → Response
  get_utxos n raw_addr = elim (validate raw_addr) [
    | err e ↦ err_response 400
    | ok addr ↦ elim (st.list_utxos n.stores addr) [
      | err e ↦ err_response 503
      | ok utxos ↦ json_ok (utxos_body (map item_of utxos))
    ]
  ]

  -- The status of a transaction that the pool refuses.
  unfoldable pub status_of : NodeError → ℕ
  status_of validation = 400
  status_of _ = 503

  -- What follows `serde_json::from_slice(body)`.
  unfoldable pub submit : NodeState st im → Transaction → Served
  submit n tx = elim (add c im (st.get_output n.stores) tx n.mempool) [
    | err e ↦ reads n (err_response (status_of e))
    | ok (pool, added) ↦ record {
      node = record n { mempool = pool };
      sent = if added.newly_added then broadcast_all (new_tx tx) n.peer_set else [];
      answer = json_ok (tx_body (c.hex_encode (tx_hash c tx)));
    }
  ]

  unfoldable pub post_tx : (Bytes → Option Transaction) → NodeState st im → Bytes → Served
  post_tx from_slice n body = elim (from_slice body) [
    | none ↦ reads n (err_response 400)
    | some tx ↦ submit n tx
  ]

  unfoldable pub get_peers : NodeState st im → Response
  get_peers n = json_ok (peers_body n.peer_set)

-- The methods and paths of the router.
abbrev pub get_method : Bytes
get_method = b'G' ∷ b'E' ∷ b'T' ∷ []

abbrev pub post_method : Bytes
post_method = b'P' ∷ b'O' ∷ b'S' ∷ b'T' ∷ []

abbrev pub options_method : Bytes
options_method = b'O' ∷ b'P' ∷ b'T' ∷ b'I' ∷ b'O' ∷ b'N' ∷ b'S' ∷ []

abbrev pub tip_path : Bytes
tip_path = b'/' ∷ b'c' ∷ b'h' ∷ b'a' ∷ b'i' ∷ b'n' ∷ b'/' ∷ b't' ∷ b'i' ∷ b'p' ∷ []

abbrev pub balance_path : Bytes
balance_path = b'/' ∷ b'b' ∷ b'a' ∷ b'l' ∷ b'a' ∷ b'n' ∷ b'c' ∷ b'e' ∷ b'/' ∷ []

abbrev pub utxos_path : Bytes
utxos_path = b'/' ∷ b'u' ∷ b't' ∷ b'x' ∷ b'o' ∷ b's' ∷ b'/' ∷ []

abbrev pub tx_path : Bytes
tx_path = b'/' ∷ b't' ∷ b'x' ∷ []

abbrev pub peers_path : Bytes
peers_path = b'/' ∷ b'p' ∷ b'e' ∷ b'e' ∷ b'r' ∷ b's' ∷ []

-- The arm of the router that a request takes.
pub data Route : Type 0 where
  tip_route tx_route peers_route options_route unknown_route : Route
  balance_route utxos_route : (raw_addr : Bytes) → Route

abbrev pub same : Bytes → Bytes → Bool
same s t = test (bytes_discrete s t)

-- The patterns of the `match`, in their order.
unfoldable pub route_of : Bytes → Bytes → Route
route_of method path =
    if same method get_method && same path tip_path
    then tip_route
    else if same method get_method && starts_with path balance_path
    then balance_route (drop 9 path)
    else if same method get_method && starts_with path utxos_path
    then utxos_route (drop 7 path)
    else if same method post_method && same path tx_path
    then tx_route
    else if same method get_method && same path peers_path
    then peers_route
    else if same method options_method
    then options_route
    else unknown_route

module _ (c : Crypto) (st : Stores) (im : IndexMap) (from_slice : Bytes → Option Transaction) where
  -- The handlers of the arms.
  unfoldable pub serve : Route → Bytes → NodeState st im → Served c st im
  serve tip_route body n = reads c st im n (get_tip c st im n)
  serve (balance_route raw_addr) body n = reads c st im n (get_balance c st im n raw_addr)
  serve (utxos_route raw_addr) body n = reads c st im n (get_utxos c st im n raw_addr)
  serve tx_route body n = post_tx c st im from_slice n body
  serve peers_route body n = reads c st im n (get_peers c st im n)
  serve options_route body n = reads c st im n no_content
  serve unknown_route body n = reads c st im n not_found

  unfoldable pub route : Bytes → Bytes → Bytes → NodeState st im → Served c st im
  route method path body n = serve (route_of method path) body n
