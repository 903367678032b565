-- ===== src/Auth/Payment.antt =====
-- server/src/auth/payment.rs: reading a transaction from an Ethereum node and deciding whether it
-- pays for access. The reply to the JSON-RPC batch is an argument, and so are the environment
-- variables.
pub mod Accepted
pub mod Wei
pub mod Verifier
use month_erdmko_de.Base.{
  ℕ, ◌*◌, ◌≡◌, Bool, true, false, not, ◌||◌, Option, none, some, List, [], ◌∷◌, String, ltb, ◌==◌,
  if◌then◌else◌,
}
use month_erdmko_de.Base.Int.{ℤ, pos, ltb_ℤ}
use month_erdmko_de.Base.Text.{Str, codes, trim, starts_with, is_empty, str_eq}
use month_erdmko_de.Base.Parse.{from_str_radix, u128_mod, parse_i64}
use month_erdmko_de.Base.Result.{Result, ok, err, ◌>>=◌, ok_or}
use month_erdmko_de.Auth.Error.{
  AuthResult, fault, validation_error, unauthorized_error, internal_error,
}
use month_erdmko_de.Auth.Service.{strip_0x, normalize_wallet_address, normalize_tx_hash}

abbrev pub default_eth_rpc_url : Str
default_eth_rpc_url = codes "https://ethereum-rpc.publicnode.com"

abbrev pub default_min_payment_wei : ℕ
default_min_payment_wei = 1000000000000000

abbrev pub recipient_wallet_address : Str
recipient_wallet_address = codes "0xeff121f128e0e64c0e64ae8eb6eb042a0e5aa81c"

abbrev pub default_access_duration_secs : ℤ
default_access_duration_secs = pos (30 * 24 * 60 * 60)

pub record PaymentConfig : Type 0 where
  pub rpc_url : Str
  pub recipient_address : Str
  pub min_payment_wei : ℕ
  pub access_duration_secs : ℤ

pub record RpcTransaction : Type 0 where
  pub hash : Option Str
  pub from : Str
  pub to : Option Str
  pub value : Str

pub record RpcTransactionReceipt : Type 0 where
  pub status : Option Str

pub record VerifiedPayment : Type 0 where
  pub tx_hash : Str
  pub from_wallet : Str
  pub to_wallet : Str
  pub amount_wei : ℕ
  pub access_duration_secs : ℤ

-- `trim_start_matches('0')`
unfoldable pub trim_zeros : Str → Str
trim_zeros [] = []
trim_zeros (c ∷ s) = if c == b'0' then trim_zeros s else c ∷ s

-- The quantity behind the prefix.
unfoldable pub hex_quantity : Str → AuthResult ℕ
unfolding trim_zeros
hex_quantity hex_digits =
    if is_empty hex_digits
    then err (validation_error "hex quantity cannot be empty")
    else let stripped = trim_zeros hex_digits in
      if is_empty stripped
      then ok 0
      else ok_or (from_str_radix 16 u128_mod stripped)
          (validation_error "invalid hex quantity or overflow")

unfoldable pub parse_hex_wei : Str → AuthResult ℕ
unfolding hex_quantity
parse_hex_wei raw = do
  hex_digits ← ok_or (strip_0x (trim raw)) (validation_error "hex quantity must start with 0x")
  hex_quantity hex_digits

abbrev pub unwrap_or : {A : Type 0} → Option A → A → A
unwrap_or none a = a
unwrap_or (some b) a = b

-- The early return of `if c { return Err(e) }`.
abbrev pub reject_if : {E : Type 0} → Bool → E → Result E (Unit {0})
reject_if true e = err e
reject_if false e = ok tt

unfoldable pub validate_rpc_payment :
    Str
    → Str
    → PaymentConfig
    → Option RpcTransaction
    → Option RpcTransactionReceipt
    → AuthResult VerifiedPayment
validate_rpc_payment raw_tx_hash expected_sender_wallet config found_tx found_receipt = do
  tx_hash ← normalize_tx_hash raw_tx_hash
  expected_sender ← normalize_wallet_address expected_sender_wallet
  expected_recipient ← normalize_wallet_address config.recipient_address
  tx ← ok_or found_tx (validation_error "Payment transaction was not found on the network.")
  receipt ←
      ok_or found_receipt (validation_error "Payment transaction is still pending confirmation.")
  status_val ← parse_hex_wei (unwrap_or receipt.status (codes "0x0"))
  _ ←
      reject_if (not (status_val == 1))
        (validation_error "Payment transaction failed or reverted onchain.")
  raw_to ← ok_or tx.to (validation_error "Payment transaction has no recipient address.")
  to_wallet ← normalize_wallet_address raw_to
  _ ←
      reject_if (not (str_eq to_wallet expected_recipient))
        (validation_error "Transaction recipient does not match the project payment wallet.")
  from_wallet ← normalize_wallet_address tx.from
  _ ← reject_if (not (str_eq from_wallet expected_sender)) (
      unauthorized_error "PAYMENT_SENDER_MISMATCH"
        "Transaction sender does not match the authenticated wallet.")
  amount_wei ← parse_hex_wei tx.value
  _ ←
      reject_if (ltb amount_wei config.min_payment_wei)
        (validation_error "Transaction value is below the minimum required payment.")
  ok (record {
    tx_hash = tx_hash;
    from_wallet = from_wallet;
    to_wallet = to_wallet;
    amount_wei = amount_wei;
    access_duration_secs = config.access_duration_secs;
  })

-- `.filter(p).unwrap_or(default)`
abbrev pub filter_or : {A : Type 0} → (A → Bool) → A → Option A → A
filter_or p default none = default
filter_or p default (some a) = if p a then a else default

abbrev pub to_option : {A : Type 0} → AuthResult A → Option A
to_option (ok a) = some a
to_option (err e) = none

unfoldable pub rpc_url_from : Option Str → Str
rpc_url_from none = default_eth_rpc_url
rpc_url_from (some s) = if is_empty (trim s) then default_eth_rpc_url else trim s

unfoldable pub recipient_from : Option Str → Str
recipient_from none = recipient_wallet_address
recipient_from (some raw) =
    unwrap_or (to_option (normalize_wallet_address raw)) recipient_wallet_address

unfoldable pub min_payment_from : Option Str → ℕ
min_payment_from none = default_min_payment_wei
min_payment_from (some raw) =
    let trimmed = trim raw in
    if starts_with (codes "0x") trimmed || starts_with (codes "0X") trimmed
    then unwrap_or (to_option (parse_hex_wei trimmed)) default_min_payment_wei
    else unwrap_or (from_str_radix 10 u128_mod trimmed) default_min_payment_wei

unfoldable pub access_duration_from : Option Str → ℤ
access_duration_from none = default_access_duration_secs
access_duration_from (some raw) =
    filter_or (ltb_ℤ (pos 0)) default_access_duration_secs (parse_i64 (trim raw))

-- `PaymentConfig::from_env`, on the values of ETH_RPC_URL, PAYMENT_RECIPIENT_ADDRESS,
-- MIN_PAYMENT_WEI and ACCESS_DURATION_SECS.
unfoldable pub from_env : Option Str → Option Str → Option Str → Option Str → PaymentConfig
unfolding rpc_url_from recipient_from min_payment_from access_duration_from
from_env url recipient min_wei duration = record {
  rpc_url = rpc_url_from url;
  recipient_address = recipient_from recipient;
  min_payment_wei = min_payment_from min_wei;
  access_duration_secs = access_duration_from duration;
}
