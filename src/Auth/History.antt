-- ===== src/Auth/History.antt =====
-- Histories of the operations of server/src/auth/db.rs, in any order and with any interference.
pub mod Stable
pub mod Spent
pub mod Nicknames
pub mod Revoked
pub mod Payments
pub mod Unique
use month_erdmko_de.Base.{List, [], ◌∷◌, ℕ}
use month_erdmko_de.Base.Int.{ℤ}
use month_erdmko_de.Base.Text.{Str}
use month_erdmko_de.Auth.Exec.{Exec, Conn, pure, ◌>>=◌, ◌>>◌}
use month_erdmko_de.Auth.Db.{
  issue_nonce, consume_nonce, create_session, get_valid_session_wallet, revoke_session,
  cleanup_expired_auth_records, get_wallet_profile, set_wallet_nickname,
  record_payment_and_extend_access,
}

-- The calls of the module, with their arguments.
pub data Op : Type 0 where
  issue : List ℕ → Str → ℤ → ℤ → Op
  consume : Str → Str → ℤ → Op
  open_session : List ℕ → Str → ℤ → ℤ → Op
  find_session : Str → ℤ → Op
  revoke : Str → Op
  cleanup : ℤ → Op
  profile : Str → ℤ → Op
  rename : Str → Str → ℤ → Op
  pay : Str → Str → Str → ℤ → ℤ → Op

-- The call, without its result.
unfoldable pub perform : Op → Exec Unit
perform (issue drawn w now ttl) = do issue_nonce drawn w now ttl; pure tt
perform (consume n w now) = do consume_nonce n w now; pure tt
perform (open_session drawn w now ttl) = do create_session drawn w now ttl; pure tt
perform (find_session k now) = do get_valid_session_wallet k now; pure tt
perform (revoke k) = do revoke_session k; pure tt
perform (cleanup now) = do cleanup_expired_auth_records now; pure tt
perform (profile w now) = do get_wallet_profile w now; pure tt
perform (rename w n now) = do set_wallet_nickname w n now; pure tt
perform (pay w h amount now d) = do record_payment_and_extend_access w h amount now d; pure tt

-- One connection after another call; a call that fails leaves what its statements did.
unfoldable pub run : List Op → Conn → Conn
run [] c = c
run (o ∷ os) c = run os (perform o c).1
