-- ===== src/Auth/Handlers/Opened.antt =====
-- The calls behind a verified sign-in, and the lookup of the new session (server/src/pages/auth.rs).
use month_erdmko_de.Base.{
  ℕ, ◌<◌, ◌≡◌, refl, sym, ap, ◌∙◌, Bool, true, false, none, some, List, ◌∷◌, if◌then◌else◌, All,
  length,
}
use month_erdmko_de.Base.Int.{ℤ, add_i64, ltb_ℤ}
use month_erdmko_de.Base.Text.{Str}
use month_erdmko_de.Base.Result.{ok, ok-inj}
use month_erdmko_de.Base.Rows.{has_row}
use month_erdmko_de.Auth.Service.{random_hex, normalize_wallet_address}
use month_erdmko_de.Auth.Tables.{Tables, has_token}
use month_erdmko_de.Auth.Exec.{Conn, Exec, pure, ◌>>=◌, alone}
use month_erdmko_de.Auth.Exec.Steps.{bind-ok, bind-returns}
use month_erdmko_de.Auth.Db.{
  AuthSession, WalletProfile, create_session, get_valid_session_wallet, get_wallet_profile,
}
use month_erdmko_de.Auth.Db.Sessions.{
  create_session-alone, lookup-alone, select-new_session, token-trim, token-nonempty, session_row,
}
use month_erdmko_de.Auth.Service.Random.{IsByte}
use month_erdmko_de.Auth.Handlers.{session_ttl_secs, find_profile, profile_if}
use month_erdmko_de.Auth.Handlers.Reads.{create_session-opened, get_wallet_profile-reads}

-- The tables with a new session.
abbrev pub with_session : List ℕ → Str → ℤ → Tables → Tables
with_session drawn v now t = record t {
  sessions = session_row (random_hex drawn) v now session_ttl_secs ∷ t.sessions;
}

-- The new token resolves to its wallet as long as it lives, and nothing changes.
lookup-new_session :
    (drawn : List ℕ) (v : Str) (now at : ℤ) (t : Tables)
    → All IsByte drawn
    → 0 < length drawn
    → has_row (has_token (random_hex drawn)) t.sessions ≡ false
    → let live = ltb_ℤ at (add_i64 now session_ttl_secs) in
      get_valid_session_wallet (random_hex drawn) at (alone (with_session drawn v now t))
      ≡ (ok (if live then some v else none), alone (with_session drawn v now t))
lookup-new_session drawn v now at t b l f =
    lookup-alone (random_hex drawn) at (with_session drawn v now t) _ (token-trim drawn b)
      (token-nonempty drawn l) (select-new_session (random_hex drawn) v now session_ttl_secs at t f)

-- What the calls behind the sign-in have done on a connection that is alone.
abbrev pub IsOpened : List ℕ → Str → ℤ → AuthSession × WalletProfile → Str → Tables → Conn → Type 0
IsOpened drawn a now o v t d =
    (normalize_wallet_address a ≡ ok v)
    × (has_row (has_token (random_hex drawn)) t.sessions ≡ false)
    × (o.0.token ≡ random_hex drawn)
    × ((get_wallet_profile a now (alone (with_session drawn v now t))).0 ≡ ok o.1)
    × (d ≡ alone (with_session drawn v now t))

-- The two calls behind the sign-in.
abbrev pub session_and_profile : List ℕ → Str → ℤ → Exec (AuthSession × WalletProfile)
session_and_profile drawn a now = create_session drawn a now session_ttl_secs >>= λ session.
    get_wallet_profile a now >>= λ profile. pure (session, profile)

pub session_and_profile-IsOpened :
    (drawn : List ℕ) (a : Str) (now : ℤ) (t : Tables) (o : AuthSession × WalletProfile)
    → (session_and_profile drawn a now (alone t)).0 ≡ ok o
    → (v : Str) × IsOpened drawn a now o v t (session_and_profile drawn a now (alone t)).1
unfolding pure
session_and_profile-IsOpened drawn a now t o h =
    let (s, k, h, e) = bind-ok _ (create_session drawn a now session_ttl_secs) (alone t) o h in
    let (v, n, b, fresh, token) = create_session-opened drawn a now session_ttl_secs t s k in
    let opened = create_session-alone drawn a v now session_ttl_secs t n b fresh in
    let (q, r, h, f) = bind-ok _ (get_wallet_profile a now) _ o h in
    let same = ok-inj h in
    let read = rw opened at r in
    let stays = get_wallet_profile-reads a v now (with_session drawn v now t) n in
    (
      v,
      (
        n,
        fresh,
        ap (λ x. x.0.token) (sym same) ∙ token,
        read ∙ ap (λ x. ok x.1) same,
        ap (λ x. x.1) e
            ∙ ap (λ x. x.1) f
            ∙ ap (λ x. (get_wallet_profile a now x.1).1) opened
            ∙ ap (λ x. x.1) stays,
      ),
    )

profile_if-either :
    (live : Bool) (v : Str) (at : ℤ) (d : Conn) (q' : WalletProfile)
    → get_wallet_profile v at d ≡ (ok q', d)
    → (profile_if at (if live then some v else none) d).0 ≡ ok (if live then some q' else none)
unfolding profile_if pure
profile_if-either false v at d q' h = refl
profile_if-either true v at d q' h =
    ap (λ x. x.0)
      (bind-returns (λ profile. pure (some profile)) (get_wallet_profile v at) d q'
        (ap (λ x. x.0) h))

-- The closure of the session handler, on the new token.
pub find_profile-session :
    (drawn : List ℕ) (v : Str) (now at : ℤ) (t : Tables) (q' : WalletProfile)
    → All IsByte drawn
    → 0 < length drawn
    → has_row (has_token (random_hex drawn)) t.sessions ≡ false
    → let d = alone (with_session drawn v now t) in
      get_wallet_profile v at d ≡ (ok q', d)
      → (find_profile (random_hex drawn) at d).0
        ≡ ok (if ltb_ℤ at (add_i64 now session_ttl_secs) then some q' else none)
unfolding find_profile
find_profile-session drawn v now at t q' b l fresh read =
    let found = lookup-new_session drawn v now at t b l fresh in
    let token = random_hex drawn in
    let d = alone (with_session drawn v now t) in
    let live = ltb_ℤ at (add_i64 now session_ttl_secs) in
    let step =
      bind-returns (profile_if at) (get_valid_session_wallet token at) d _ (ap (λ x. x.0) found) in
    ap (λ x. x.0) step
    ∙ ap (λ x. (profile_if at (if live then some v else none) x.1).0) found
    ∙ profile_if-either live v at d q' read
