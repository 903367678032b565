-- ===== src/Auth/Db.antt =====
-- server/src/auth/db.rs: one function for each operation, as chains of statements.
pub mod Profiles
pub mod Sessions
use month_erdmko_de.Base.{
  ℕ, Bool, true, false, not, ◌&&◌, Option, none, some, List, String, ltb, ◌==◌, if◌then◌else◌,
}
use month_erdmko_de.Base.Int.{ℤ, pos, ltb_ℤ, leb_ℤ, add_i64}
use month_erdmko_de.Base.Text.{Str, trim, is_empty, str_eq}
use month_erdmko_de.Base.Result.{ok, err}
use month_erdmko_de.Auth.Error.{validation_error, conflict_error}
use month_erdmko_de.Auth.Service.{
  normalize_wallet_address, normalize_tx_hash, validate_ascii_nickname, random_hex,
}
use month_erdmko_de.Auth.Tables.{
  insert_nonce, update_consumed, insert_session, select_session, delete_session,
  delete_stale_nonces, delete_stale_sessions, select_profile, select_owner, upsert_nickname,
  insert_payment, upsert_access,
}
use month_erdmko_de.Auth.Exec.{Exec, pure, fail, lift, ◌>>=◌, ◌>>◌, sql}

pub record IssuedNonce : Type 0 where
  pub nonce : Str
  pub wallet_address : Str
  pub created_at : ℤ
  pub expires_at : ℤ

pub record AuthSession : Type 0 where
  pub token : Str
  pub wallet_address : Str
  pub created_at : ℤ
  pub expires_at : ℤ

pub record WalletProfile : Type 0 where
  pub wallet_address : Str
  pub nickname : Option Str
  pub access_until : ℤ
  pub has_active_access : Bool

-- `drawn` are the sixteen bytes of `generate_nonce`.
unfoldable pub issue_nonce : List ℕ → Str → ℤ → ℤ → Exec IssuedNonce
issue_nonce drawn raw_wallet_address now_unix ttl_secs =
    if leb_ℤ ttl_secs (pos 0) then fail (validation_error "nonce TTL must be positive") else do
      wallet_address ← lift (normalize_wallet_address raw_wallet_address)
      let nonce = random_hex drawn
      let expires_at = add_i64 now_unix ttl_secs
      sql "Failed to persist auth nonce." (
          insert_nonce (record {
            nonce = nonce;
            wallet_address = wallet_address;
            created_at = now_unix;
            expires_at = expires_at;
            consumed_at = none;
          }))
      pure (record {
        nonce = nonce;
        wallet_address = wallet_address;
        created_at = now_unix;
        expires_at = expires_at;
      })

unfoldable pub consume_nonce : Str → Str → ℤ → Exec Bool
consume_nonce nonce raw_wallet_address now_unix =
    let trimmed_nonce = trim nonce in
    if is_empty trimmed_nonce then fail (validation_error "nonce is required") else do
      wallet_address ← lift (normalize_wallet_address raw_wallet_address)
      affected ←
          sql "Failed to consume auth nonce."
            (update_consumed trimmed_nonce wallet_address now_unix)
      pure (affected == 1)

-- `drawn` are the thirty-two bytes of `generate_session_token`.
unfoldable pub create_session : List ℕ → Str → ℤ → ℤ → Exec AuthSession
create_session drawn raw_wallet_address now_unix ttl_secs =
    if leb_ℤ ttl_secs (pos 0) then fail (validation_error "session TTL must be positive") else do
      wallet_address ← lift (normalize_wallet_address raw_wallet_address)
      let token = random_hex drawn
      let expires_at = add_i64 now_unix ttl_secs
      sql "Failed to create auth session." (
          insert_session (record {
            token = token;
            wallet_address = wallet_address;
            created_at = now_unix;
            expires_at = expires_at;
          }))
      pure (record {
        token = token;
        wallet_address = wallet_address;
        created_at = now_unix;
        expires_at = expires_at;
      })

unfoldable pub get_valid_session_wallet : Str → ℤ → Exec (Option Str)
get_valid_session_wallet token now_unix =
    let trimmed = trim token in
    if is_empty trimmed
    then pure none
    else sql "Failed to query auth session." (select_session trimmed now_unix)

unfoldable pub revoke_session : Str → Exec Bool
revoke_session token =
    let trimmed = trim token in
    if is_empty trimmed then pure false else do
      deleted ← sql "Failed to revoke auth session." (delete_session trimmed)
      pure (ltb 0 deleted)

unfoldable pub cleanup_expired_auth_records : ℤ → Exec (ℕ × ℕ)
cleanup_expired_auth_records now_unix = do
  deleted_nonces ← sql "Failed to clean up auth nonces." (delete_stale_nonces now_unix)
  deleted_sessions ← sql "Failed to clean up auth sessions." (delete_stale_sessions now_unix)
  pure (deleted_nonces, deleted_sessions)

unfoldable pub profile_of : Str → ℤ → Option (Option Str × ℤ) → WalletProfile
profile_of wallet now (some (nickname, access_until)) = record {
  wallet_address = wallet;
  nickname = nickname;
  access_until = access_until;
  has_active_access = ltb_ℤ now access_until;
}
profile_of wallet now none = record {
  wallet_address = wallet;
  nickname = none;
  access_until = pos 0;
  has_active_access = false;
}

unfoldable pub get_wallet_profile : Str → ℤ → Exec WalletProfile
unfolding profile_of
get_wallet_profile raw_wallet_address now_unix = do
  wallet_address ← lift (normalize_wallet_address raw_wallet_address)
  row ← sql "Failed to query wallet profile." (select_profile wallet_address)
  pure (profile_of wallet_address now_unix row)

-- `if let Some(owner) = existing_owner { if owner != wallet_address { … } }`
unfoldable pub is_taken : Str → Option Str → Bool
is_taken wallet_address none = false
is_taken wallet_address (some owner) = not (str_eq owner wallet_address)

unfoldable pub set_wallet_nickname : Str → Str → ℤ → Exec WalletProfile
unfolding is_taken
set_wallet_nickname raw_wallet_address raw_nickname now_unix = do
  wallet_address ← lift (normalize_wallet_address raw_wallet_address)
  nickname ← lift (validate_ascii_nickname raw_nickname)
  existing_owner ← sql "Failed to check nickname owner." (select_owner nickname)
  if is_taken wallet_address existing_owner
      then fail
          (conflict_error "NICKNAME_TAKEN" "Nickname is already registered to another wallet.")
      else do
        sql "Failed to update wallet nickname." (upsert_nickname wallet_address nickname now_unix)
        get_wallet_profile wallet_address now_unix

-- The second half of `record_payment_and_extend_access`, once the payment has been recorded.
unfoldable pub extend_access : Str → ℤ → ℤ → Exec WalletProfile
extend_access wallet_address now_unix duration_secs = do
  sql "Failed to extend wallet access." (upsert_access wallet_address now_unix duration_secs)
  get_wallet_profile wallet_address now_unix

unfoldable pub record_payment_and_extend_access : Str → Str → Str → ℤ → ℤ → Exec WalletProfile
record_payment_and_extend_access raw_wallet_address raw_tx_hash amount_wei now_unix duration_secs =
    if leb_ℤ duration_secs (pos 0)
    then fail (validation_error "access duration must be positive")
    else do
      wallet_address ← lift (normalize_wallet_address raw_wallet_address)
      tx_hash ← lift (normalize_tx_hash raw_tx_hash)
      let trimmed_amount = trim amount_wei
      if is_empty trimmed_amount then fail (validation_error "amount_wei is required") else do
        inserted ← sql "Failed to record claimed payment." (
            insert_payment (record {
              tx_hash = tx_hash;
              wallet_address = wallet_address;
              amount_wei = trimmed_amount;
              claimed_at = now_unix;
            }))
        if inserted == 0
            then fail (
                conflict_error "PAYMENT_ALREADY_CLAIMED"
                  "This transaction hash has already been claimed.")
            else extend_access wallet_address now_unix duration_secs
