-- ===== src/Auth/Payment/Verifier.antt =====
-- `RpcPaymentVerifier::verify_payment` (server/src/auth/payment.rs). The exchange with the node and
-- the readers of serde_json are parameters.
pub mod Taken
pub mod Answered
use month_erdmko_de.Base.{
  ℕ, ◌≡◌, sym, ap, subst, ◌∙◌, Bool, Option, none, some, List, [], ◌∷◌, String, ◌==◌, if◌then◌else◌,
}
use month_erdmko_de.Base.Text.{Str}
use month_erdmko_de.Base.Result.{Result, ok, err, ◌>>=◌, >>=-ok, ok-inj}
use month_erdmko_de.Auth.Error.{AuthResult, fault, internal_error}
use month_erdmko_de.Auth.Service.{normalize_wallet_address, normalize_tx_hash}
use month_erdmko_de.Auth.Service.Normal.{normalize_wallet_address-normal, normalize_tx_hash-normal}
use month_erdmko_de.Auth.Payment.Accepted.{IsPayment, validate_rpc_payment-accepts}
use month_erdmko_de.Auth.Payment.{
  PaymentConfig, RpcTransaction, RpcTransactionReceipt, VerifiedPayment, validate_rpc_payment,
}

-- `JsonRpcResponse`, over the JSON values of serde_json.
pub record JsonRpcResponse (Value : Type 0) : Type 0 where
  pub id : ℕ
  pub result : Option Value
  pub error : Option String

-- How the exchange ends: no answer, a status that is no success, a body that cannot be read or
-- parsed, or the answers of the batch in the order the node gave them.
pub data Reply (Value : Type 0) : Type 0 where
  unreachable bad_status unread_body malformed : String → Reply Value
  answers : List (JsonRpcResponse Value) → Reply Value

-- What the loop over the answers has found.
pub record Found : Type 0 where
  pub tx : Option RpcTransaction
  pub receipt : Option RpcTransactionReceipt

-- `is_null` is that of a value; the readers are `serde_json::from_value` at the two types.
module _ {Value : Type 0} (is_null : Value → Bool) (read_tx : Value → Result String RpcTransaction)
    (read_receipt : Value → Result String RpcTransactionReceipt) where
  -- `.map_err(|err| AuthError::internal(message, …))`
  abbrev pub or_internal : {A : Type 0} → String → Result String A → AuthResult A
  or_internal message (ok a) = ok a
  or_internal message (err e) = err (internal_error message (fault e))

  unfoldable pub take_tx : Found → Option Value → AuthResult Found
  take_tx found none = ok found
  take_tx found (some val) = if is_null val then ok found else do
    tx ← or_internal "Malformed transaction object from RPC." (read_tx val)
    ok (record found { tx = some tx })

  unfoldable pub take_receipt : Found → Option Value → AuthResult Found
  take_receipt found none = ok found
  take_receipt found (some val) = if is_null val then ok found else do
    receipt ← or_internal "Malformed transaction receipt from RPC." (read_receipt val)
    ok (record found { receipt = some receipt })

  unfoldable pub take_item : Found → JsonRpcResponse Value → AuthResult Found
  unfolding take_tx take_receipt
  take_item found item = elim item.error [
    | some e ↦ err (internal_error "ETH JSON-RPC returned an error." (fault e))
    | none ↦
        if item.id == 1
        then take_tx found item.result
        else if item.id == 2
        then take_receipt found item.result
        else ok found
  ]

  -- The loop over the answers.
  unfoldable pub read_items : Found → List (JsonRpcResponse Value) → AuthResult Found
  read_items found [] = ok found
  read_items found (item ∷ items) = do found' ← take_item found item; read_items found' items

  unfoldable pub read_reply : Reply Value → AuthResult Found
  unfolding read_items
  read_reply (unreachable e) =
      err (internal_error "Failed to reach ETH JSON-RPC endpoint." (fault e))
  read_reply (bad_status e) =
      err (internal_error "ETH JSON-RPC returned non-success HTTP status." (fault e))
  read_reply (unread_body e) =
      err (internal_error "Failed to read ETH JSON-RPC response body." (fault e))
  read_reply (malformed e) = err (internal_error "Failed to parse ETH JSON-RPC response." (fault e))
  read_reply (answers items) = read_items (record { tx = none; receipt = none }) items

  -- `exchange` is the node's reply to the batch for a transaction hash.
  unfoldable pub verify_payment :
      (Str → Reply Value) → PaymentConfig → Str → Str → AuthResult VerifiedPayment
  verify_payment exchange config raw_tx_hash expected_sender_wallet = do
    tx_hash ← normalize_tx_hash raw_tx_hash
    expected_sender ← normalize_wallet_address expected_sender_wallet
    found ← read_reply (exchange tx_hash)
    validate_rpc_payment tx_hash expected_sender config found.tx found.receipt
