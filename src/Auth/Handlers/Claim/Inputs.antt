-- ===== src/Auth/Handlers/Claim/Inputs.antt =====
-- server/src/pages/auth.rs: what `post_auth_claim_payment_handler` reads from the request.
use month_erdmko_de.Base.{◌≡◌, sym, not, Option, none, some, if◌then◌else◌}
use month_erdmko_de.Base.Text.{Str, trim, is_empty}
use month_erdmko_de.Base.Result.{ok, err, ok_or, ◌>>=◌, >>=-ok, ok-inj}
use month_erdmko_de.Auth.Error.{AuthError, AuthResult, unauthorized_error}
use month_erdmko_de.Auth.Service.{normalize_tx_hash, validate_ascii_nickname}
use month_erdmko_de.Auth.Payment.Accepted.{ok_or-ok}
use month_erdmko_de.Auth.Handlers.Cookie.{extract_session_token}

abbrev pub missing_cookie : AuthError
missing_cookie = unauthorized_error "UNAUTHORIZED" "Missing session cookie."

-- A nickname that is trimmed to nothing counts as absent.
unfoldable pub requested_nickname : Option Str → AuthResult (Option Str)
requested_nickname none = ok none
requested_nickname (some raw) =
    let trimmed = trim raw in
    if not (is_empty trimmed)
    then elim (validate_ascii_nickname trimmed) [ ok n ↦ ok (some n) | err e ↦ err e ]
    else ok none

pub record ClaimInputs : Type 0 where
  pub token : Str
  pub tx_hash : Str
  pub nickname : Option Str

-- The token, the normalized hash and the nickname, before any block runs.
unfoldable pub claim_inputs : Option Str → Str → Option Str → AuthResult ClaimInputs
unfolding requested_nickname
claim_inputs cookie raw_tx_hash nickname = do
  token ← ok_or (extract_session_token cookie) missing_cookie
  tx_hash ← normalize_tx_hash raw_tx_hash
  normalized_nickname ← requested_nickname nickname
  ok (record { token = token; tx_hash = tx_hash; nickname = normalized_nickname })

pub claim_inputs-ok :
    (cookie : Option Str) (raw : Str) (nickname : Option Str) (i : ClaimInputs)
    → claim_inputs cookie raw nickname ≡ ok i
    → (extract_session_token cookie ≡ some i.token) × (normalize_tx_hash raw ≡ ok i.tx_hash)
unfolding claim_inputs
claim_inputs-ok cookie raw nickname i h =
    let (token, t, h) = >>=-ok (ok_or (extract_session_token cookie) missing_cookie) _ h in
    let (x, n, h) = >>=-ok (normalize_tx_hash raw) _ h in
    let (nick, k, h) = >>=-ok (requested_nickname nickname) _ h in
    let e = ok-inj h in rw (sym e) (ok_or-ok (extract_session_token cookie) missing_cookie t, n)
