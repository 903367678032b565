-- ===== src/Tests/Payment.antt =====
-- The theorems on server/src/auth/payment.rs at concrete inputs.
use month_erdmko_de.Base.{
  All, List, ℕ, ◌≡◌, refl, ◌↔◌, Bool, none, some, [], ◌∷◌, String, ◌==◌, if◌then◌else◌,
}
use month_erdmko_de.Base.Int.{pos}
use month_erdmko_de.Base.Text.{Str, codes}
use month_erdmko_de.Base.Parse.{from_str_radix, to_digit, digit_value}
use month_erdmko_de.Base.Parse.Laws.{value_from}
use month_erdmko_de.Base.Result.{Result, ok, err}
use month_erdmko_de.Auth.Payment.{
  PaymentConfig, RpcTransaction, RpcTransactionReceipt, VerifiedPayment, parse_hex_wei,
  hex_quantity, validate_rpc_payment,
}
use month_erdmko_de.Auth.Payment.Accepted.{IsPayment, validate_rpc_payment-accepts}
use month_erdmko_de.Auth.Payment.Wei.{parse_hex_wei-value}
use month_erdmko_de.Auth.Error.{internal}
use month_erdmko_de.Auth.Payment.Verifier.{
  Reply, JsonRpcResponse, unreachable, bad_status, unread_body, malformed, answers, read_reply,
  verify_payment, take_item,
}
use month_erdmko_de.Auth.Payment.Verifier.Answered.{failure, HasAnswered, verify_payment-IsPayment}
use month_erdmko_de.Tests.Data.{parts, alice, alice_raw, bob, tx_hash, tx_hash_raw}

-- Bob is paid, and asks for at least 16 wei.
abbrev config : PaymentConfig
config = record {
  rpc_url = codes "http://localhost:8545";
  recipient_address = bob;
  min_payment_wei = 16;
  access_duration_secs = pos 3600;
}

abbrev transaction : RpcTransaction
transaction = record { hash = some tx_hash; from = alice_raw; to = some bob; value = codes "0x0fF" }

abbrev receipt : RpcTransactionReceipt
receipt = record { status = some (codes "0x1") }

abbrev payment : VerifiedPayment
payment = record {
  tx_hash = tx_hash;
  from_wallet = alice;
  to_wallet = bob;
  amount_wei = 255;
  access_duration_secs = pos 3600;
}

-- The values of the node: nothing, the transaction, and anything else is the receipt.
abbrev is_null : ℕ → Bool
is_null n = n == 0

abbrev read_tx : ℕ → Result String RpcTransaction
read_tx n = if n == 1 then ok transaction else err "missing field `from`"

abbrev read_receipt : ℕ → Result String RpcTransactionReceipt
read_receipt n = ok receipt

abbrev node : Str → Reply ℕ
node h = answers (
    record { id = 2; result = some 2; error = none }
    ∷ record { id = 1; result = some 1; error = none }
    ∷ [])

verifies : verify_payment is_null read_tx read_receipt node config tx_hash_raw alice ≡ ok payment
unfolding verify_payment parts validate_rpc_payment read_reply take_item parse_hex_wei hex_quantity
    from_str_radix to_digit
verifies = refl

verify_payment-IsPayment_example :
    (tx : RpcTransaction) × (r : RpcTransactionReceipt) × (items : List (JsonRpcResponse ℕ))
    × HasAnswered is_null read_tx read_receipt (node tx_hash) tx r items
    × IsPayment tx_hash_raw alice config tx r payment
    × All
        (λ (reply : Reply ℕ).
          failure
            (verify_payment is_null read_tx read_receipt (λ h. reply) config tx_hash_raw alice)
          ≡ some internal)
        (unreachable "refused"
          ∷ bad_status "refused"
          ∷ unread_body "refused"
          ∷ malformed "refused"
          ∷ [])
verify_payment-IsPayment_example =
    verify_payment-IsPayment is_null read_tx read_receipt node config tx_hash_raw alice payment
      "refused" verifies

validate_rpc_payment-accepts_example :
    (validate_rpc_payment tx_hash_raw alice config (some transaction) (some receipt) ≡ ok payment)
    ↔ ((tx : RpcTransaction) × (r : RpcTransactionReceipt) × (some transaction ≡ some tx)
        × (some receipt ≡ some r)
        × IsPayment tx_hash_raw alice config tx r payment)
validate_rpc_payment-accepts_example =
    validate_rpc_payment-accepts tx_hash_raw alice config (some transaction) (some receipt) payment

parse_hex_wei-value_example : parse_hex_wei (codes "0x0fF") ≡ ok 255
unfolding value_from to_digit digit_value
parse_hex_wei-value_example =
    parse_hex_wei-value b'0' (codes "fF") ((0, refl), ((15, refl), ((15, refl), tt)))
