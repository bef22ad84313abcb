-- ===== src/Client/Commands/Send.antt =====
-- From a new wallet to a payment that the node accepts.
use better_call_chain.Prelude.{ℕ, ◌≡◌, List, ok}
use better_call_chain.Prelude.Words.{total}
use better_call_chain.Core.Types.{Bytes, Address, Transaction}
use better_call_chain.Core.Crypto.{Crypto}
use better_call_chain.Core.Merkle.{tx_hash}
use better_call_chain.Core.Validation.Transactions.{UtxoGet, validate_transaction}
use better_call_chain.Client.Wallet.{UtxoItem, CoinSelection, values, select_coins}
use better_call_chain.Client.Wallet.Transfer.{IsPayment}
use better_call_chain.Client.Keystore.{Vault, Disk}
use better_call_chain.Client.Rpc.{Http, post_tx}
use better_call_chain.Client.Commands.{Desk}

module _ (c : Crypto) (v : Vault) (d : Disk) (desk : Desk d) (http : Http) (url : Bytes) where
  -- A node that answers a valid transaction with its hash.
  abbrev pub TakesValid : UtxoGet → Type 0
  TakesValid get =
      (tx : Transaction)
      → validate_transaction c get tx ≡ ok tt
      → post_tx http url tx ≡ ok (c.hex_encode (tx_hash c tx))

  -- The transaction is valid and spends the coins that the selection takes, which cover the amount:
  -- its first output gives the recipient the amount, and what is left goes to the address for the
  -- change.
  abbrev pub Pays :
      UtxoGet → Bytes → ℕ → Address → Address → List UtxoItem → CoinSelection → Transaction → Type 0
  Pays get key amount recipient change utxos s tx =
      (select_coins utxos amount ≡ ok s)
      × (validate_transaction c get tx ≡ ok tt)
      × IsPayment c get key (total (values s.selected)) amount recipient change tx.outputs
