-- ===== src/Client/Rpc.antt =====
-- crates/bcc-client/src/rpc.rs: the requests to a node and the reading of the answers. The HTTP client
-- and serde_json are a parameter.
use better_call_chain.Prelude.{
  ℕ, Bool, List, [], ◌∷◌, ◌++◌, Option, Result, err, ok_or, ◌>>=◌, if◌then◌else◌, ◌&&◌, ltb, leb,
}
use better_call_chain.Core.Types.{Bytes, Transaction}
use better_call_chain.Client.Errors.{ClientError, rpc, node_error}
use better_call_chain.Client.Wallet.{UtxoItem}

pub record TipResponse : Type 0 where
  pub height : ℕ
  pub hash : Bytes

pub record BalanceResponse : Type 0 where
  pub address : Bytes
  pub balance : ℕ

-- An answer, by its status and body.
pub record Response : Type 0 where
  pub status : ℕ
  pub body : Bytes

-- `reqwest`: a request by its URL, which may fail in transport, and the reading of a body.
pub record Http : Type 0 where
  pub get : Bytes → Option Response
  pub post : Bytes → Transaction → Option Response
  pub tip_json : Bytes → Option TipResponse
  pub balance_json : Bytes → Option BalanceResponse
  pub utxos_json : Bytes → Option (List UtxoItem)
  -- the `tx_hash` of a `TxResponse`
  pub tx_json : Bytes → Option Bytes

abbrev pub is_success : ℕ → Bool
is_success status = leb 200 status && ltb status 300

abbrev pub ok_response {ℓ} : {T : Type ℓ} → (Bytes → Option T) → Response → Result ClientError T
ok_response json resp =
    if is_success resp.status then ok_or (json resp.body) rpc else err (node_error resp.status)

-- `check_response` after the `?` of the request.
abbrev pub check_response {ℓ} :
    {T : Type ℓ} → (Bytes → Option T) → Option Response → Result ClientError T
check_response json sent = ok_or sent rpc >>= ok_response json

-- The paths of the requests.
abbrev pub tip_target : Bytes
tip_target = b'/' ∷ b'c' ∷ b'h' ∷ b'a' ∷ b'i' ∷ b'n' ∷ b'/' ∷ b't' ∷ b'i' ∷ b'p' ∷ []

unfoldable pub balance_target : Bytes → Bytes
balance_target address =
    (b'/' ∷ b'b' ∷ b'a' ∷ b'l' ∷ b'a' ∷ b'n' ∷ b'c' ∷ b'e' ∷ b'/' ∷ []) ++ address

unfoldable pub utxos_target : Bytes → Bytes
utxos_target address = (b'/' ∷ b'u' ∷ b't' ∷ b'x' ∷ b'o' ∷ b's' ∷ b'/' ∷ []) ++ address

abbrev pub tx_target : Bytes
tx_target = b'/' ∷ b't' ∷ b'x' ∷ []

module _ (http : Http) (base_url : Bytes) where
  unfoldable pub get_tip : Result ClientError TipResponse
  get_tip = check_response http.tip_json (http.get (base_url ++ tip_target))

  unfoldable pub get_balance : Bytes → Result ClientError BalanceResponse
  get_balance address =
      check_response http.balance_json (http.get (base_url ++ balance_target address))

  unfoldable pub get_utxos : Bytes → Result ClientError (List UtxoItem)
  get_utxos address = check_response http.utxos_json (http.get (base_url ++ utxos_target address))

  unfoldable pub post_tx : Transaction → Result ClientError Bytes
  post_tx t = check_response http.tx_json (http.post (base_url ++ tx_target) t)
