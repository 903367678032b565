-- ===== src/Auth/History/Revoked.antt =====
-- A revoked session stays revoked (`revoke_session` in server/src/auth/db.rs).
use month_erdmko_de.Base.{◌≡◌, ◌≢◌, refl, false, not, some, List, [], ◌∷◌, arith, All, Bool}
use month_erdmko_de.Base.Int.{ℤ}
use month_erdmko_de.Base.Text.{Str, trim, is_empty}
use month_erdmko_de.Base.Text.Laws.{str_eq_iff}
use month_erdmko_de.Base.Result.{ok}
use month_erdmko_de.Base.Rows.{has_row, retain, has_row-retain}
use month_erdmko_de.Auth.Tables.{
  Tables, SessionRow, has_token, is_stale_session, insert_nonce, update_consumed, insert_session,
  select_session, delete_session, delete_stale_nonces, delete_stale_sessions, upsert_nickname,
  insert_payment, upsert_access,
}
use month_erdmko_de.Auth.Exec.{Conn, chain, arrive}
use month_erdmko_de.Auth.Exec.Keeps.{Holds, Rely, Preserves, arrive-keeps, later-Rely}
use month_erdmko_de.Auth.Db.{revoke_session, get_valid_session_wallet}
use month_erdmko_de.Auth.Db.Sessions.{unknown-no_session}
use month_erdmko_de.Auth.History.{Op, run}
use month_erdmko_de.Auth.History.Stable.{Stable, Draws, run-Holds}

-- No session has the token.
abbrev pub IsRevoked : Str → Tables → Type 0
IsRevoked k t = has_row (has_token k) t.sessions ≡ false

insert_session-IsRevoked :
    (k : Str) (r : SessionRow) → r.token ≢ k → Preserves (IsRevoked k) (insert_session r)
unfolding insert_session
insert_session-IsRevoked k r f t a t' e h = ground (arith, f, str_eq_iff r.token k)

delete_session-IsRevoked : (k j : Str) → Preserves (IsRevoked k) (delete_session j)
unfolding delete_session
delete_session-IsRevoked k j t a t' e h =
    ground (arith, has_row-retain (has_token k) (λ r. not (has_token j r)) t.sessions h)

stale-IsRevoked : (k : Str) (now : ℤ) → Preserves (IsRevoked k) (delete_stale_sessions now)
unfolding delete_stale_sessions
stale-IsRevoked k now t a t' e h =
    ground (arith, has_row-retain (has_token k) (λ r. not (is_stale_session now r)) t.sessions h)

IsRevoked-Stable : (k : Str) → Stable (IsRevoked k) (λ m. Unit) (λ j. j ≢ k)
unfolding insert_nonce update_consumed delete_stale_nonces upsert_nickname insert_payment
    upsert_access
IsRevoked-Stable k = record {
  on_insert_nonce = λ r f t a t' e h. ground arith;
  on_update_consumed = λ m w now t a t' e h. ground arith;
  on_insert_session = insert_session-IsRevoked k;
  on_delete_session = delete_session-IsRevoked k;
  on_delete_stale_nonces = λ now t a t' e h. ground arith;
  on_delete_stale_sessions = stale-IsRevoked k;
  on_upsert_nickname = λ w m now t a t' e h. ground arith;
  on_insert_payment = λ r t a t' e h. ground arith;
  on_upsert_access = λ w now d p t a t' e h. ground arith;
}

retain-deletes :
    (k : Str) (rs : List SessionRow)
    → has_row (has_token k) (retain (λ r. not (has_token k r)) rs) ≡ false
retain-deletes k [] = refl
retain-deletes k (r ∷ rs) = ground (arith, retain-deletes k rs)

revoke_session-IsRevoked :
    (k : Str) (c : Conn) (b : Bool)
    → is_empty (trim k) ≡ false
    → Rely (IsRevoked (trim k)) c.turns
    → (revoke_session k c).0 ≡ ok b
    → Holds (IsRevoked (trim k)) (revoke_session k c).1
unfolding revoke_session chain delete_session
revoke_session-IsRevoked k c b n r e = ground (
  arith,
  later-Rely (IsRevoked (trim k)) c.turns r,
  retain-deletes (trim k) (arrive c.turns c.tables).sessions,
)

lookup-revoked :
    (k : Str) (at : ℤ) (c : Conn)
    → Holds (IsRevoked (trim k)) c
    → (w : Str) → (get_valid_session_wallet k at c).0 ≢ ok (some w)
unfolding get_valid_session_wallet chain select_session
lookup-revoked k at c h w e = ground (
  arith,
  unknown-no_session (trim k) at (arrive c.turns c.tables).sessions
      (arrive-keeps (IsRevoked (trim k)) c.turns c.tables h.rely h.now),
)

-- Once a token has been revoked it never resolves to a wallet again, at any time and after any calls,
-- whatever statements fail, provided that no call in between draws the token again and the other
-- connections do not either.
pub revoke_session-final :
    (k w : Str) (b : Bool) (at : ℤ) (os : List Op) (c : Conn)
    → is_empty (trim k) ≡ false
    → Rely (IsRevoked (trim k)) c.turns
    → All (Draws (λ m. Unit) (λ j. j ≢ trim k)) os
    → (revoke_session k c).0 ≡ ok b
    → (get_valid_session_wallet k at (run os (revoke_session k c).1)).0 ≢ ok (some w)
revoke_session-final k w b at os c n r f e =
    lookup-revoked k at _
      (run-Holds (IsRevoked (trim k)) _ _ (IsRevoked-Stable (trim k)) os _ f
        (revoke_session-IsRevoked k c b n r e))
      w
