-- ===== src/Auth/Db/Sessions.antt =====
-- How long a session lasts (`create_session` and `get_valid_session_wallet` in
-- server/src/auth/db.rs).
use month_erdmko_de.Base.{
  ℕ, ◌<◌, ◌≡◌, refl, false, none, some, List, [], ◌∷◌, arith, if◌then◌else◌, length, All, Option,
}
use month_erdmko_de.Base.Int.{ℤ, pos, leb_ℤ, ltb_ℤ, add_i64}
use month_erdmko_de.Base.Text.{Str, trim, is_empty}
use month_erdmko_de.Base.Text.Laws.{str_eq_refl, trim_id}
use month_erdmko_de.Base.Result.{ok}
use month_erdmko_de.Base.Rows.{has_row, find_row}
use month_erdmko_de.Auth.Service.{normalize_wallet_address, random_hex}
use month_erdmko_de.Auth.Service.Normal.{All-facts}
use month_erdmko_de.Auth.Service.Random.{IsByte, random_hex-digits}
use month_erdmko_de.Auth.Tables.{
  Tables, SessionRow, has_token, is_live_session, insert_session, select_session,
}
use month_erdmko_de.Auth.Exec.{chain, alone}
use month_erdmko_de.Auth.Db.{create_session, get_valid_session_wallet}

-- A drawn token is not empty and has no white space.
pub token-trim : (drawn : List ℕ) → All IsByte drawn → trim (random_hex drawn) ≡ random_hex drawn
token-trim drawn b = trim_id _ (All-facts (random_hex drawn) (random_hex-digits drawn b).1).1

pub token-nonempty : (drawn : List ℕ) → 0 < length drawn → is_empty (random_hex drawn) ≡ false
unfolding random_hex is_empty
token-nonempty [] h = absurd (omega arith)
token-nonempty (b ∷ bs) h = refl

pub unknown-no_session :
    (k : Str) (at : ℤ) (rs : List SessionRow)
    → has_row (has_token k) rs ≡ false
    → find_row (is_live_session k at) rs ≡ none
unknown-no_session k at [] h = refl
unknown-no_session k at (r ∷ rs) h = ground (arith, unknown-no_session k at rs)

abbrev pub session_row : Str → Str → ℤ → ℤ → SessionRow
session_row k v now ttl = record {
  token = k;
  wallet_address = v;
  created_at = now;
  expires_at = add_i64 now ttl;
}

pub create_session-alone :
    (drawn : List ℕ) (w v : Str) (now ttl : ℤ) (t : Tables)
    → normalize_wallet_address w ≡ ok v
    → leb_ℤ ttl (pos 0) ≡ false
    → has_row (has_token (random_hex drawn)) t.sessions ≡ false
    → create_session drawn w now ttl (alone t) ≡ (
      ok (record {
        token = random_hex drawn;
        wallet_address = v;
        created_at = now;
        expires_at = add_i64 now ttl;
      }),
      alone (record t { sessions = session_row (random_hex drawn) v now ttl ∷ t.sessions }),
    )
unfolding create_session chain insert_session
create_session-alone drawn w v now ttl t n p f = ground arith

pub lookup-alone :
    (k : Str) (at : ℤ) (t : Tables) (o : Option Str)
    → trim k ≡ k
    → is_empty k ≡ false
    → select_session k at t ≡ ok (o, t)
    → get_valid_session_wallet k at (alone t) ≡ (ok o, alone t)
unfolding get_valid_session_wallet chain
lookup-alone k at t o e n s = rw (e, n, s)

pub select-new_session :
    (k v : Str) (now ttl at : ℤ) (t : Tables)
    → has_row (has_token k) t.sessions ≡ false
    → let t' : Tables = record t { sessions = session_row k v now ttl ∷ t.sessions } in
      select_session k at t' ≡ ok (if ltb_ℤ at (add_i64 now ttl) then some v else none, t')
unfolding select_session
select-new_session k v now ttl at t f =
    ground (arith, str_eq_refl k, unknown-no_session k at t.sessions f)

-- A new session resolves to the normalized wallet that opened it, exactly while the clock is before
-- its end, `now + ttl` in 64 bits. It is assumed that the connection is alone, the wallet is well
-- formed, the time to live is positive and the drawn bytes give a token that is not in use.
pub create_session-resolves :
    (drawn : List ℕ) (w v : Str) (now ttl at : ℤ) (t : Tables)
    → All IsByte drawn
    → 0 < length drawn
    → normalize_wallet_address w ≡ ok v
    → leb_ℤ ttl (pos 0) ≡ false
    → has_row (has_token (random_hex drawn)) t.sessions ≡ false
    → let c = (create_session drawn w now ttl (alone t)).1 in
      (get_valid_session_wallet (random_hex drawn) at c).0
      ≡ ok (if ltb_ℤ at (add_i64 now ttl) then some v else none)
create_session-resolves drawn w v now ttl at t b l n p f = rw (
  create_session-alone drawn w v now ttl t n p f,
  lookup-alone (random_hex drawn) at _ _ (token-trim drawn b) (token-nonempty drawn l)
      (select-new_session (random_hex drawn) v now ttl at t f),
)
