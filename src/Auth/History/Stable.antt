-- ===== src/Auth/History/Stable.antt =====
-- A predicate that every write statement keeps is kept by every call and every history.
use month_erdmko_de.Base.{ℕ, ◌≡◌, subst, false, List, [], ◌∷◌, arith, All}
use month_erdmko_de.Base.Int.{ℤ, pos, leb_ℤ}
use month_erdmko_de.Base.Text.{Str}
use month_erdmko_de.Base.Result.{Result, ok, err}
use month_erdmko_de.Base.Rows.{find_row}
use month_erdmko_de.Auth.Error.{Cause}
use month_erdmko_de.Auth.Service.{random_hex}
use month_erdmko_de.Auth.Tables.{
  Tables, has_wallet, NonceRow, SessionRow, PaymentRow, insert_nonce, update_consumed,
  insert_session, select_session, delete_session, delete_stale_nonces, delete_stale_sessions,
  select_profile, read_profile, with_tables, select_owner, upsert_nickname, insert_payment,
  upsert_access,
}
use month_erdmko_de.Auth.Exec.{Conn}
use month_erdmko_de.Auth.Exec.Keeps.{Holds, Keeps, Preserves, keeps_rules}
use month_erdmko_de.Auth.Db.{
  issue_nonce, consume_nonce, create_session, get_valid_session_wallet, revoke_session,
  cleanup_expired_auth_records, get_wallet_profile, set_wallet_nickname, extend_access,
  record_payment_and_extend_access,
}
use month_erdmko_de.Auth.History.{
  Op, issue, consume, open_session, find_session, revoke, cleanup, profile, rename, pay, perform,
  run,
}

-- Every write statement keeps `P`, for inserted nonces in `Nonce`, inserted tokens in `Token` and
-- positive durations.
pub record Stable (P : Tables → Type 0) (Nonce Token : Str → Type 0) : Type 0 where
  pub on_insert_nonce : (r : NonceRow) → Nonce r.nonce → Preserves P (insert_nonce r)
  pub on_update_consumed : (n w : Str) (now : ℤ) → Preserves P (update_consumed n w now)
  pub on_insert_session : (r : SessionRow) → Token r.token → Preserves P (insert_session r)
  pub on_delete_session : (k : Str) → Preserves P (delete_session k)
  pub on_delete_stale_nonces : (now : ℤ) → Preserves P (delete_stale_nonces now)
  pub on_delete_stale_sessions : (now : ℤ) → Preserves P (delete_stale_sessions now)
  pub on_upsert_nickname : (w n : Str) (now : ℤ) → Preserves P (upsert_nickname w n now)
  pub on_insert_payment : (r : PaymentRow) → Preserves P (insert_payment r)
  pub on_upsert_access :
      (w : Str) (now d : ℤ) → leb_ℤ d (pos 0) ≡ false → Preserves P (upsert_access w now d)

-- What the call would draw is in `Nonce` or `Token`.
abbrev pub Draws : (Str → Type 0) → (Str → Type 0) → Op → Type 0
Draws Nonce Token (issue drawn w now ttl) = Nonce (random_hex drawn)
Draws Nonce Token (open_session drawn w now ttl) = Token (random_hex drawn)
Draws Nonce Token _ = Unit

with_tables-eq :
    {A : Type 0} (t t' : Tables) (r : Result Cause A) (a : A)
    → with_tables t r ≡ ok (a, t')
    → t ≡ t'
with_tables-eq t t' (ok b) a e = ground arith
with_tables-eq t t' (err b) a e = cc

module _ (P : Tables → Type 0) where
  on_select_session : (k : Str) (now : ℤ) → Preserves P (select_session k now)
  unfolding select_session
  on_select_session k now t a t' e h = subst P (cc) h

  on_select_owner : (n : Str) → Preserves P (select_owner n)
  unfolding select_owner
  on_select_owner n t a t' e h = subst P (cc) h

  on_select_profile : (w : Str) → Preserves P (select_profile w)
  unfolding select_profile
  on_select_profile w t a t' e h =
      subst P (with_tables-eq t t' (read_profile (find_row (has_wallet w) t.profiles)) a e) h

module _ (P : Tables → Type 0) (Nonce Token : Str → Type 0) (s : Stable P Nonce Token) where
  issue_nonce-Keeps :
      (drawn : List ℕ) (w : Str) (now ttl : ℤ)
      → Nonce (random_hex drawn)
      → Keeps P (issue_nonce drawn w now ttl)
  unfolding issue_nonce
  issue_nonce-Keeps drawn w now ttl h = search (keeps_rules, s.on_insert_nonce) depth 8

  pub consume_nonce-Keeps : (n w : Str) (now : ℤ) → Keeps P (consume_nonce n w now)
  unfolding consume_nonce
  consume_nonce-Keeps n w now = search (keeps_rules, s.on_update_consumed) depth 8

  pub create_session-Keeps :
      (drawn : List ℕ) (w : Str) (now ttl : ℤ)
      → Token (random_hex drawn)
      → Keeps P (create_session drawn w now ttl)
  unfolding create_session
  create_session-Keeps drawn w now ttl h = search (keeps_rules, s.on_insert_session) depth 8

  pub get_valid_session_wallet-Keeps :
      (k : Str) (now : ℤ) → Keeps P (get_valid_session_wallet k now)
  unfolding get_valid_session_wallet
  get_valid_session_wallet-Keeps k now = search (keeps_rules, on_select_session P) depth 8

  pub revoke_session-Keeps : (k : Str) → Keeps P (revoke_session k)
  unfolding revoke_session
  revoke_session-Keeps k = search (keeps_rules, s.on_delete_session) depth 8

  cleanup-Keeps : (now : ℤ) → Keeps P (cleanup_expired_auth_records now)
  unfolding cleanup_expired_auth_records
  cleanup-Keeps now =
      search (keeps_rules, s.on_delete_stale_nonces, s.on_delete_stale_sessions) depth 8

  pub get_wallet_profile-Keeps : (w : Str) (now : ℤ) → Keeps P (get_wallet_profile w now)
  unfolding get_wallet_profile
  get_wallet_profile-Keeps w now = search (keeps_rules, on_select_profile P)

  pub set_wallet_nickname-Keeps : (w n : Str) (now : ℤ) → Keeps P (set_wallet_nickname w n now)
  unfolding set_wallet_nickname
  set_wallet_nickname-Keeps w n now =
      search (keeps_rules, on_select_owner P, s.on_upsert_nickname, get_wallet_profile-Keeps) depth
        12

  pub extend_access-Keeps :
      (w : Str) (now d : ℤ) → leb_ℤ d (pos 0) ≡ false → Keeps P (extend_access w now d)
  unfolding extend_access
  extend_access-Keeps w now d p =
      search (keeps_rules, s.on_upsert_access, get_wallet_profile-Keeps) depth 8

  pub record_payment-Keeps :
      (w hash amount : Str) (now d : ℤ)
      → Keeps P (record_payment_and_extend_access w hash amount now d)
  unfolding record_payment_and_extend_access
  record_payment-Keeps w hash amount now d =
      search (keeps_rules, s.on_insert_payment, extend_access-Keeps) depth 14

  -- Every call keeps `P`, whatever fails and whatever the other connections do that keeps `P`.
  pub perform-Keeps : (o : Op) → Draws Nonce Token o → Keeps P (perform o)
  unfolding perform
  perform-Keeps (issue drawn w now ttl) h = search (keeps_rules, issue_nonce-Keeps)
  perform-Keeps (consume n w now) h = search (keeps_rules, consume_nonce-Keeps)
  perform-Keeps (open_session drawn w now ttl) h = search (keeps_rules, create_session-Keeps)
  perform-Keeps (find_session k now) h = search (keeps_rules, get_valid_session_wallet-Keeps)
  perform-Keeps (revoke k) h = search (keeps_rules, revoke_session-Keeps)
  perform-Keeps (cleanup now) h = search (keeps_rules, cleanup-Keeps)
  perform-Keeps (profile w now) h = search (keeps_rules, get_wallet_profile-Keeps)
  perform-Keeps (rename w n now) h = search (keeps_rules, set_wallet_nickname-Keeps)
  perform-Keeps (pay w hash amount now d) h = search (keeps_rules, record_payment-Keeps)

  -- So does every history.
  pub run-Holds :
      (os : List Op) (c : Conn) → All (Draws Nonce Token) os → Holds P c → Holds P (run os c)
  unfolding run
  run-Holds [] c f h = h
  run-Holds (o ∷ os) c f h = run-Holds os (perform o c).1 f.1 ((perform-Keeps o f.0).at c h)

draw : (o : Op) → Draws (λ m. Unit) (λ k. Unit) o
draw (issue drawn w now ttl) = tt
draw (open_session drawn w now ttl) = tt
draw _ = tt

-- Where any draw will do.
pub any_draw : (os : List Op) → All (Draws (λ m. Unit) (λ k. Unit)) os
any_draw [] = tt
any_draw (o ∷ os) = (draw o, any_draw os)
