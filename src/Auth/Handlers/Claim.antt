-- ===== src/Auth/Handlers/Claim.antt =====
-- server/src/pages/auth.rs: the endpoints that need a session, `post_auth_claim_payment_handler` and
-- `post_auth_nickname_handler`. The payment verifier is an argument: the injected one, if the server
-- has one, and otherwise the one of server/src/auth/payment.rs.
pub mod Inputs
pub mod Gate
pub mod Once
use month_erdmko_de.Base.{Bool, true, false, not, Option, none, some, if◌then◌else◌}
use month_erdmko_de.Base.Int.{ℤ}
use month_erdmko_de.Base.Text.{Str, trim, is_empty}
use month_erdmko_de.Base.Parse.{to_decimal}
use month_erdmko_de.Base.Result.{ok, err, ok_or}
use month_erdmko_de.Auth.Error.{AuthError, AuthResult, unauthorized_error}
use month_erdmko_de.Auth.Service.{normalize_tx_hash, validate_ascii_nickname}
use month_erdmko_de.Auth.Exec.{Conn, Exec, pure, fail, lift, ◌>>=◌, ◌>>◌}
use month_erdmko_de.Auth.Db.{
  WalletProfile, get_valid_session_wallet, get_wallet_profile, set_wallet_nickname,
  record_payment_and_extend_access,
}
use month_erdmko_de.Auth.Payment.{VerifiedPayment, unwrap_or, reject_if}
use month_erdmko_de.Auth.Handlers.Cookie.{extract_session_token}
use month_erdmko_de.Auth.Handlers.Claim.Inputs.{missing_cookie, ClaimInputs, claim_inputs}
use month_erdmko_de.Auth.Handlers.{HttpResponse, Block, on_block, answer, status_response}

abbrev pub invalid_session : AuthError
invalid_session = unauthorized_error "UNAUTHORIZED" "Session is invalid or expired."

-- `PaymentVerifier::verify_payment`
abbrev pub PaymentVerifier : Type 0
PaymentVerifier = Str → Str → AuthResult VerifiedPayment

-- The wallet of a live session.
unfoldable pub session_wallet : Str → ℤ → Exec Str
session_wallet token now_unix = do
  wallet ← get_valid_session_wallet token now_unix
  lift (ok_or wallet invalid_session)

unfoldable pub rename_if : Str → ℤ → Option Str → Exec (Unit {0})
rename_if wallet_address now_unix none = pure tt
rename_if wallet_address now_unix (some nick) = do
  set_wallet_nickname wallet_address nick now_unix
  pure tt

-- The second block of the claim: the nickname first, then the payment.
unfoldable pub record_claim : Str → Option Str → VerifiedPayment → ℤ → Exec WalletProfile
unfolding rename_if
record_claim wallet_address nickname verified now_unix = do
  rename_if wallet_address now_unix nickname
  record_payment_and_extend_access wallet_address verified.tx_hash (to_decimal verified.amount_wei)
      now_unix verified.access_duration_secs

-- The exchange with the node, and the second block.
unfoldable pub pay_claim :
    Option PaymentVerifier → PaymentVerifier → Block → ClaimInputs → ℤ → Str → Exec WalletProfile
unfolding record_claim
pay_claim verifier rpc_verifier claim_block inputs now_unix wallet_address = do
  verified ← lift (unwrap_or verifier rpc_verifier inputs.tx_hash wallet_address)
  on_block claim_block "Failed to record claimed payment."
      (record_claim wallet_address inputs.nickname verified now_unix)

-- The handler's chain behind its inputs: the block for the session, and then the claim.
unfoldable pub settle_claim :
    Option PaymentVerifier → PaymentVerifier → Block → Block → ℤ → ClaimInputs → Exec WalletProfile
unfolding session_wallet pay_claim
settle_claim verifier rpc_verifier session_block claim_block now_unix inputs = do
  wallet_address ←
      on_block session_block "Failed to resolve auth session."
        (session_wallet inputs.token now_unix)
  pay_claim verifier rpc_verifier claim_block inputs now_unix wallet_address

unfoldable pub claim_payment :
    Option PaymentVerifier
    → PaymentVerifier
    → Block
    → Block
    → Option Str
    → Str
    → Option Str
    → ℤ
    → Exec WalletProfile
unfolding settle_claim
claim_payment verifier rpc_verifier session_block claim_block cookie raw_tx_hash nickname now_unix =
    do
      inputs ← lift (claim_inputs cookie raw_tx_hash nickname)
      settle_claim verifier rpc_verifier session_block claim_block now_unix inputs

unfoldable pub post_auth_claim_payment_handler :
    Option PaymentVerifier
    → PaymentVerifier
    → Block
    → Block
    → Option Str
    → Str
    → Option Str
    → ℤ
    → Conn
    → HttpResponse × Conn
unfolding claim_payment
post_auth_claim_payment_handler verifier rpc_verifier session_block claim_block cookie raw_tx_hash
      nickname now_unix =
    answer status_response (
      claim_payment verifier rpc_verifier session_block claim_block cookie raw_tx_hash nickname
        now_unix)

-- The closure of the nickname handler: only a wallet with active access is renamed.
unfoldable pub rename_paid : Str → Str → ℤ → Exec WalletProfile
unfolding session_wallet
rename_paid token raw_nickname now_unix = do
  wallet_address ← session_wallet token now_unix
  profile ← get_wallet_profile wallet_address now_unix
  lift (
      reject_if (not profile.has_active_access) (
        unauthorized_error "PAYMENT_REQUIRED" "Active paid access is required to update nickname."))
  set_wallet_nickname wallet_address raw_nickname now_unix

unfoldable pub rename_wallet : Block → Option Str → Str → ℤ → Exec WalletProfile
unfolding rename_paid
rename_wallet block cookie raw_nickname now_unix = do
  token ← lift (ok_or (extract_session_token cookie) missing_cookie)
  on_block block "Failed to update wallet nickname." (rename_paid token raw_nickname now_unix)

unfoldable pub post_auth_nickname_handler :
    Block → Option Str → Str → ℤ → Conn → HttpResponse × Conn
unfolding rename_wallet
post_auth_nickname_handler block cookie raw_nickname now_unix =
    answer status_response (rename_wallet block cookie raw_nickname now_unix)
