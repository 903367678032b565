-- ===== src/Auth/Handlers.antt =====
-- server/src/pages/auth.rs: the endpoints under /auth. A handler is a chain on the connections of
-- the pool; the time, the drawn bytes, the Cookie header and how each `web::block` goes are
-- arguments.
pub mod Cookie
pub mod Claim
pub mod Answers
pub mod Reads
pub mod Opened
pub mod SignIn
pub mod Logout
use month_erdmko_de.Base.{
  ℕ, ◌*◌, Bool, true, false, not, Option, none, some, List, String, if◌then◌else◌,
}
use month_erdmko_de.Base.Int.{ℤ, pos}
use month_erdmko_de.Base.Text.{Str, codes, trim, is_empty}
use month_erdmko_de.Base.Parse.{to_decimal}
use month_erdmko_de.Base.Result.{ok, err, ok_or}
use month_erdmko_de.Auth.Error.{
  AuthError, AuthErrorKind, AuthResult, Cause, validation, unauthorized, conflict, internal,
  unauthorized_error, internal_error,
}
use month_erdmko_de.Auth.Service.{normalize_tx_hash, validate_ascii_nickname}
use month_erdmko_de.Auth.Exec.{Conn, Exec, pure, fail, lift, ◌>>=◌, ◌>>◌}
use month_erdmko_de.Auth.Db.{
  IssuedNonce, AuthSession, WalletProfile, issue_nonce, create_session, get_valid_session_wallet,
  revoke_session, get_wallet_profile, set_wallet_nickname, record_payment_and_extend_access,
}
use month_erdmko_de.Auth.Payment.{VerifiedPayment, unwrap_or}
use month_erdmko_de.Auth.Siwe.Validate.{DomainConfig}
use month_erdmko_de.Auth.Siwe.Signature.{Crypto}
use month_erdmko_de.Auth.Siwe.Consume.{verify_siwe_and_consume_nonce}
use month_erdmko_de.Auth.Handlers.Cookie.{extract_session_token, format_session_set_cookie}

abbrev pub nonce_ttl_secs : ℤ
nonce_ttl_secs = pos 300

abbrev pub session_ttl_secs : ℤ
session_ttl_secs = pos (7 * 24 * 60 * 60)

pub record NonceResponse : Type 0 where
  pub nonce : Str
  pub wallet_address : Str
  pub expires_at : ℤ

pub record SessionStatusResponse : Type 0 where
  pub wallet_address : Str
  pub nickname : Option Str
  pub access_until : ℤ
  pub has_active_access : Bool

pub record AuthErrorResponse : Type 0 where
  pub code : String
  pub message : String

-- What the handlers answer with; `unauthenticated` is `{ "authenticated": false }` and `done` is
-- `{ "ok": true }`.
pub data Body : Type 0 where
  issued : NonceResponse → Body
  session_status : SessionStatusResponse → Body
  auth_error : AuthErrorResponse → Body
  unauthenticated : Body
  done : Body

pub record HttpResponse : Type 0 where
  pub status : ℕ
  pub set_cookie : Option Str
  pub body : Body

abbrev pub json_ok : Body → HttpResponse
json_ok body = record { status = 200; set_cookie = none; body = body }

-- `SessionStatusResponse::from`
abbrev pub from_profile : WalletProfile → SessionStatusResponse
from_profile profile = record {
  wallet_address = profile.wallet_address;
  nickname = profile.nickname;
  access_until = profile.access_until;
  has_active_access = profile.has_active_access;
}

unfoldable pub status_of : AuthErrorKind → ℕ
status_of validation = 400
status_of unauthorized = 401
status_of conflict = 409
status_of internal = 500

unfoldable pub auth_error_to_response : AuthError → HttpResponse
unfolding status_of
auth_error_to_response e = record {
  status = status_of e.kind;
  set_cookie = none;
  body = auth_error (record { code = e.code; message = e.message });
}

-- How a `web::block` goes: its closure runs with a connection of the pool, finds the pool
-- unavailable, or is not run at all.
pub data Block : Type 0 where
  runs : Block
  no_connection : Cause → Block
  not_run : Cause → Block

-- The closure of a block, with the message for a block that is not run.
unfoldable pub on_block : {A : Type 0} → Block → String → Exec A → Exec A
on_block runs message m = m
on_block (no_connection e) message m =
    fail (internal_error "Database connection pool unavailable." e)
on_block (not_run e) message m = fail (internal_error message e)

unfoldable pub respond : {A : Type 0} → (A → HttpResponse) → AuthResult A → HttpResponse
respond f (ok a) = f a
respond f (err e) = auth_error_to_response e

-- The match on the result at the end of a handler.
unfoldable pub answer : {A : Type 0} → (A → HttpResponse) → Exec A → Conn → HttpResponse × Conn
unfolding respond
answer f m c = let (r, c') = m c in (respond f r, c')

unfoldable pub nonce_response : IssuedNonce → HttpResponse
nonce_response i = json_ok (
    issued
      (record { nonce = i.nonce; wallet_address = i.wallet_address; expires_at = i.expires_at }))

unfoldable pub post_auth_nonce_handler : Block → List ℕ → Str → ℤ → Conn → HttpResponse × Conn
unfolding nonce_response
post_auth_nonce_handler block drawn wallet_address now_unix = answer nonce_response (
    on_block block "Failed to execute nonce request."
      (issue_nonce drawn wallet_address now_unix nonce_ttl_secs))

-- What the verify handler answers with: the cookie of the new session and its status.
unfoldable pub session_opened : AuthSession × WalletProfile → HttpResponse
session_opened (session, profile) = record {
  status = 200;
  set_cookie = some (format_session_set_cookie session.token session_ttl_secs);
  body = session_status (from_profile profile);
}

unfoldable pub status_response : WalletProfile → HttpResponse
status_response profile = json_ok (session_status (from_profile profile))

unfoldable pub session_response : Option WalletProfile → HttpResponse
unfolding status_response
session_response none = json_ok unauthenticated
session_response (some profile) = status_response profile

module _ (crypto : Crypto) (rfc3339 : Str → Option ℤ) (config : DomainConfig) where
  -- The closure of the verify handler.
  unfoldable pub open_session : List ℕ → Str → Str → ℤ → Exec (AuthSession × WalletProfile)
  open_session drawn message signature now_unix = do
    verified ←
        verify_siwe_and_consume_nonce crypto rfc3339 config message signature none none now_unix
    session ← create_session drawn verified.address now_unix session_ttl_secs
    profile ← get_wallet_profile verified.address now_unix
    pure (session, profile)

  unfoldable pub post_auth_verify_handler :
      Block → List ℕ → Str → Str → ℤ → Conn → HttpResponse × Conn
  unfolding open_session session_opened
  post_auth_verify_handler block drawn message signature now_unix = answer session_opened (
      on_block block "Failed to verify SIWE signature."
        (open_session drawn message signature now_unix))

-- The profile of the wallet that a token resolves to.
unfoldable pub profile_if : ℤ → Option Str → Exec (Option WalletProfile)
profile_if now_unix none = pure none
profile_if now_unix (some wallet_address) = do
  profile ← get_wallet_profile wallet_address now_unix
  pure (some profile)

-- The closure of the session handler.
unfoldable pub find_profile : Str → ℤ → Exec (Option WalletProfile)
unfolding profile_if
find_profile token now_unix = do
  wallet ← get_valid_session_wallet token now_unix
  profile_if now_unix wallet

unfoldable pub session_of : Block → ℤ → Option Str → Conn → HttpResponse × Conn
unfolding find_profile session_response
session_of block now_unix none c = (json_ok unauthenticated, c)
session_of block now_unix (some token) c =
    answer session_response
      (on_block block "Failed to resolve auth session." (find_profile token now_unix)) c

unfoldable pub get_auth_session_handler : Block → Option Str → ℤ → Conn → HttpResponse × Conn
unfolding session_of
get_auth_session_handler block cookie now_unix =
    session_of block now_unix (extract_session_token cookie)

-- The logout handler ignores what becomes of the block.
unfoldable pub revoke_if : Block → Option Str → Conn → Conn
revoke_if block none c = c
revoke_if block (some token) c = (on_block block "" (revoke_session token) c).1

unfoldable pub post_auth_logout_handler : Block → Option Str → Conn → HttpResponse × Conn
unfolding revoke_if
post_auth_logout_handler block cookie c = (
  record {
    status = 200;
    set_cookie = some (format_session_set_cookie (codes "") (pos 0));
    body = done;
  },
  revoke_if block (extract_session_token cookie) c,
)
