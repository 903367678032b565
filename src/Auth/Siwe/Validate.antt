-- ===== src/Auth/Siwe/Validate.antt =====
-- server/src/auth/siwe.rs: `is_allowed_siwe_domain` and `validate_siwe_message`. The variable DOMAIN
-- of the environment, the one of the build, and the reader of RFC 3339 timestamps (chrono) are
-- arguments.
pub mod Accepted
use month_erdmko_de.Base.{
  ℕ, Bool, true, false, not, ◌&&◌, ◌||◌, Option, none, some, List, [], ◌∷◌, String, ltb, ◌==◌,
  if◌then◌else◌, all,
}
use month_erdmko_de.Base.Int.{ℤ, pos, add_i64, leb_ℤ, ltb_ℤ}
use month_erdmko_de.Base.Text.{
  Str, codes, bytes, len, trim, starts_with, is_empty, str_eq, is_ascii_alphanumeric,
  to_ascii_lowercase,
}
use month_erdmko_de.Base.Result.{ok, err, ◌>>=◌, ok_or}
use month_erdmko_de.Auth.Error.{AuthError, AuthResult, unauthorized_error}
use month_erdmko_de.Auth.Payment.{reject_if}
use month_erdmko_de.Auth.Siwe.Message.{SiweMessage}

abbrev pub siwe_version : Str
siwe_version = codes "1"

-- What the server is configured with: the variable DOMAIN as it runs, and as it was built.
pub record DomainConfig : Type 0 where
  pub env_domain : Option Str
  pub compile_domain : Option Str

unfoldable pub matches_env : Str → Option Str → Bool
matches_env normalized none = false
matches_env normalized (some env_domain) =
    let env_norm = to_ascii_lowercase (trim env_domain) in
    not (is_empty env_norm) && str_eq normalized env_norm

unfoldable pub matches_compile : Str → Option Str → Bool
matches_compile normalized none = false
matches_compile normalized (some compile_domain) =
    str_eq normalized (to_ascii_lowercase compile_domain)

unfoldable pub is_known_domain : Str → Bool
is_known_domain normalized =
    str_eq normalized (codes "erdmko.dev")
    || str_eq normalized (codes "erdmko.dev:443")
    || str_eq normalized (codes "localhost")
    || str_eq normalized (codes "localhost:8080")
    || starts_with (codes "127.0.0.1:") normalized

unfoldable pub is_allowed_siwe_domain : DomainConfig → Str → Bool
unfolding matches_env matches_compile is_known_domain
is_allowed_siwe_domain config domain =
    let normalized = to_ascii_lowercase (trim domain) in
    matches_env normalized config.env_domain
    || matches_compile normalized config.compile_domain
    || is_known_domain normalized

-- `eq_ignore_ascii_case`
abbrev pub eq_ignore_ascii_case : Str → Str → Bool
eq_ignore_ascii_case s t = str_eq (to_ascii_lowercase s) (to_ascii_lowercase t)

abbrev pub differs_from : Option Str → Str → Bool
differs_from none domain = false
differs_from (some expected) domain = not (eq_ignore_ascii_case domain (trim expected))

abbrev pub other_chain : Option ℕ → ℕ → Bool
other_chain none chain_id = false
other_chain (some expected_cid) chain_id = not (chain_id == expected_cid)

unfoldable pub check_issued_at : (Str → Option ℤ) → Str → ℤ → AuthResult (Unit {0})
check_issued_at rfc3339 issued_at now_unix = do
  issued ← ok_or (rfc3339 issued_at) (
      unauthorized_error "INVALID_SIWE_TIMESTAMP"
        "SIWE Issued At must be a valid RFC 3339 timestamp.")
  reject_if (ltb_ℤ (add_i64 now_unix (pos 300)) issued)
      (unauthorized_error "INVALID_SIWE_TIMESTAMP" "SIWE Issued At timestamp is in the future.")

unfoldable pub check_expiration_time : (Str → Option ℤ) → Option Str → ℤ → AuthResult (Unit {0})
check_expiration_time rfc3339 none now_unix = ok tt
check_expiration_time rfc3339 (some exp_str) now_unix = do
  expires ← ok_or (rfc3339 exp_str) (
      unauthorized_error "INVALID_SIWE_TIMESTAMP"
        "SIWE Expiration Time must be a valid RFC 3339 timestamp.")
  reject_if (leb_ℤ expires now_unix)
      (unauthorized_error "SIWE_EXPIRED" "SIWE challenge has expired.")

unfoldable pub check_not_before : (Str → Option ℤ) → Option Str → ℤ → AuthResult (Unit {0})
check_not_before rfc3339 none now_unix = ok tt
check_not_before rfc3339 (some nbf_str) now_unix = do
  not_before ← ok_or (rfc3339 nbf_str) (
      unauthorized_error "INVALID_SIWE_TIMESTAMP"
        "SIWE Not Before must be a valid RFC 3339 timestamp.")
  reject_if (ltb_ℤ now_unix not_before)
      (unauthorized_error "SIWE_NOT_YET_VALID" "SIWE challenge is not yet valid.")

unfoldable pub is_http_uri : Str → Bool
is_http_uri uri = starts_with (codes "http://") uri || starts_with (codes "https://") uri

unfoldable pub is_nonce : Str → Bool
is_nonce nonce = not (ltb (len nonce) 8) && all is_ascii_alphanumeric (bytes nonce)

unfoldable pub validate_siwe_message :
    (Str → Option ℤ)
    → DomainConfig
    → SiweMessage
    → Option Str
    → Option ℕ
    → ℤ
    → AuthResult (Unit {0})
unfolding is_allowed_siwe_domain check_issued_at check_expiration_time check_not_before is_http_uri
    is_nonce
validate_siwe_message rfc3339 config msg expected_domain expected_chain_id now_unix = do
  _ ←
      reject_if (differs_from expected_domain msg.domain)
        (unauthorized_error "SIWE_DOMAIN_MISMATCH" "SIWE domain does not match expected domain.")
  _ ←
      reject_if (not (is_allowed_siwe_domain config msg.domain))
        (unauthorized_error "SIWE_DOMAIN_MISMATCH" "SIWE domain is not allowed.")
  _ ←
      reject_if (not (str_eq msg.version siwe_version))
        (unauthorized_error "INVALID_SIWE_VERSION" "SIWE Version must be '1'.")
  _ ←
      reject_if (msg.chain_id == 0)
        (unauthorized_error "INVALID_CHAIN_ID" "SIWE Chain ID must be positive.")
  _ ←
      reject_if (other_chain expected_chain_id msg.chain_id)
        (unauthorized_error "CHAIN_ID_MISMATCH" "SIWE Chain ID does not match expected chain.")
  _ ←
      reject_if (not (is_http_uri msg.uri))
        (unauthorized_error "INVALID_SIWE_URI" "SIWE URI must use http or https scheme.")
  _ ← reject_if (not (is_nonce msg.nonce)) (
      unauthorized_error "INVALID_NONCE"
        "SIWE nonce must be at least 8 ASCII alphanumeric characters.")
  _ ← check_issued_at rfc3339 msg.issued_at now_unix
  _ ← check_expiration_time rfc3339 msg.expiration_time now_unix
  check_not_before rfc3339 msg.not_before now_unix
