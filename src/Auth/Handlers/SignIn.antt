-- ===== src/Auth/Handlers/SignIn.antt =====
-- A sign-in and the requests with its cookie (`post_auth_verify_handler`, `get_auth_session_handler`
-- and `post_auth_logout_handler` in server/src/pages/auth.rs).
use month_erdmko_de.Base.{
  ℕ, ◌<◌, ◌≡◌, refl, sym, ap, subst, ◌∙◌, Bool, true, false, Option, none, some, List, [], ◌∷◌,
  ◌++◌, arith, if◌then◌else◌, All, length,
}
use month_erdmko_de.Base.Int.{ℤ, add_i64, ltb_ℤ}
use month_erdmko_de.Base.Text.{Str}
use month_erdmko_de.Base.Text.Laws.{NoSpace}
use month_erdmko_de.Base.Result.{ok}
use month_erdmko_de.Base.Rows.{has_row}
use month_erdmko_de.Auth.Service.{random_hex, normalize_wallet_address}
use month_erdmko_de.Auth.Service.Normal.{IsLowerHex, All-facts}
use month_erdmko_de.Auth.Tables.{Tables, has_token}
use month_erdmko_de.Auth.Exec.{alone}
use month_erdmko_de.Auth.Exec.Steps.{bind-ok}
use month_erdmko_de.Auth.Db.{AuthSession, WalletProfile, consume_nonce, get_wallet_profile}
use month_erdmko_de.Auth.Db.Sessions.{token-nonempty}
use month_erdmko_de.Auth.Service.Random.{IsByte, random_hex-digits}
use month_erdmko_de.Auth.History.Spent.{consume_nonce-alone, consume_nonce-profiles}
use month_erdmko_de.Auth.Siwe.Message.{SiweMessage}
use month_erdmko_de.Auth.Siwe.Validate.{DomainConfig}
use month_erdmko_de.Auth.Siwe.Signature.{Crypto}
use month_erdmko_de.Auth.Siwe.Verify.{verify_siwe_signature}
use month_erdmko_de.Auth.Siwe.Consume.{verify_siwe_and_consume_nonce, sign_in-ok}
use month_erdmko_de.Auth.Handlers.Cookie.{format_session_set_cookie}
use month_erdmko_de.Auth.Handlers.{
  session_ttl_secs, HttpResponse, json_ok, session_status, unauthenticated, from_profile, runs,
  on_block, session_opened, session_response, status_response, open_session,
  post_auth_verify_handler, find_profile, session_of, get_auth_session_handler,
}
use month_erdmko_de.Auth.Handlers.Cookie.Among.{
  IsPart, EndsPart, IsOther, cookie_text, extract_session_token-among,
}
use month_erdmko_de.Auth.Handlers.Answers.{answer-ok, answer-of}
use month_erdmko_de.Auth.Handlers.Reads.{
  IsSame, IsProfile, get_wallet_profile-again, get_wallet_profile-IsProfile,
}
use month_erdmko_de.Auth.Service.Normal.{normalize_wallet_address-normal}
use month_erdmko_de.Auth.Handlers.Opened.{
  with_session, IsOpened, session_and_profile, session_and_profile-IsOpened, find_profile-session,
}

-- A token of the server is one part of a header, without white space.
token-IsPart :
    (drawn : List ℕ) → All IsByte drawn → IsPart (random_hex drawn) × NoSpace (random_hex drawn)
token-IsPart drawn b =
    let hex = (random_hex-digits drawn b).1 in
    (hex-IsPart (random_hex drawn) hex, (All-facts (random_hex drawn) hex).1)
  where
    hex-IsPart : (s : Str) → All IsLowerHex s → IsPart s
    hex-IsPart [] h = tt
    hex-IsPart (c ∷ s) h = (ground (arith, h.0), hex-IsPart s h.1)

-- The answer to a request with the cookie of the new session, at a given time.
abbrev pub IsSessionAnswer : Tables → ℤ → ℤ → Str → WalletProfile → HttpResponse → Type 0
IsSessionAnswer t now at v q answered =
    (q' : WalletProfile) × IsProfile t v at q'
    × IsSame v q q'
    × (answered ≡ (
        if ltb_ℤ at (add_i64 now session_ttl_secs)
        then status_response q'
        else json_ok unauthenticated))

session_response-either :
    (live : Bool) (q' : WalletProfile)
    → session_response (if live then some q' else none)
      ≡ (if live then status_response q' else json_ok unauthenticated)
unfolding session_response
session_response-either true q' = refl
session_response-either false q' = refl

-- The session handler's answer to the cookie of the new session.
session_handler-answer :
    (drawn : List ℕ) (v : Str) (now at : ℤ) (t : Tables) (q' : WalletProfile) (ps : List Str)
    (others : Str)
    → All IsByte drawn
    → 0 < length drawn
    → All IsOther ps
    → EndsPart others
    → has_row (has_token (random_hex drawn)) t.sessions ≡ false
    → let d = alone (with_session drawn v now t) in
      get_wallet_profile v at d ≡ (ok q', d)
      → (get_auth_session_handler runs (some (cookie_text ps (random_hex drawn ++ others))) at d).0
        ≡ (if ltb_ℤ at (add_i64 now session_ttl_secs)
            then status_response q'
            else json_ok unauthenticated)
unfolding get_auth_session_handler session_of on_block
session_handler-answer drawn v now at t q' ps others b l o k fresh read =
    let token = random_hex drawn in
    let (part, nospace) = token-IsPart drawn b in
    let sent =
      extract_session_token-among ps token others o part nospace (token-nonempty drawn l) k in
    let d = alone (with_session drawn v now t) in
    let live = ltb_ℤ at (add_i64 now session_ttl_secs) in
    rw sent (
      ap (λ x. x.0)
        (answer-of session_response (find_profile token at) d _
          (find_profile-session drawn v now at t q' b l fresh read))
      ∙ session_response-either live q')

module _ (crypto : Crypto) (rfc3339 : Str → Option ℤ) (config : DomainConfig) where
  open_session-IsOpened :
      (drawn : List ℕ) (m s : Str) (now : ℤ) (t : Tables) (o : AuthSession × WalletProfile)
      → (open_session crypto rfc3339 config drawn m s now (alone t)).0 ≡ ok o
      → (p : SiweMessage) × (v : Str) × (t₁ : Tables) × (verify_siwe_signature crypto rfc3339 config
            m s none none now
          ≡ ok p)
        × (t₁.profiles ≡ t.profiles)
        × IsOpened drawn p.address now o v t₁
            (open_session crypto rfc3339 config drawn m s now (alone t)).1
  unfolding open_session
  open_session-IsOpened drawn m s now t o h =
      let sign_in = verify_siwe_and_consume_nonce crypto rfc3339 config m s none none now in
      let (p, verified, h, e) = bind-ok _ sign_in (alone t) o h in
      let (signed, consumed, left) =
        sign_in-ok crypto rfc3339 config m s none none now (alone t) p verified in
      let t₁ = (consume_nonce p.nonce p.address now (alone t)).1.tables in
      let at = left ∙ consume_nonce-alone p.nonce p.address now t consumed in
      let rest = session_and_profile drawn p.address now in
      let (v, opened) =
        session_and_profile-IsOpened drawn p.address now t₁ o
          (subst (λ d. (rest d).0 ≡ ok o) at h) in
      (
        p,
        v,
        t₁,
        signed,
        consume_nonce-profiles p.nonce p.address now t consumed,
        subst (λ d. IsOpened drawn p.address now o v t₁ d)
            (sym (ap (λ x. x.1) e ∙ ap (λ d. (rest d).1) at)) opened,
      )

  -- A sign-in that answers 200 on a connection that is alone has verified the message and set the
  -- drawn token as the cookie, and answers with the profile that the tables held of the message's
  -- wallet. A request for the session with that cookie among others, at any time, then answers 200
  -- with that wallet's profile at the time of the request before the session's end, seven days
  -- after the sign-in in 64 bits, and 200 with `authenticated: false` from then on. Both profiles
  -- have the same nickname and end of access, and the access is active in each if the wallet has a
  -- row and its access ends after the time of the answer. (The drawn bytes are some bytes.)
  pub post_auth_verify_handler-session :
      (drawn : List ℕ) (m s : Str) (now at : ℤ) (t : Tables) (ps : List Str) (others : Str)
      → All IsByte drawn
      → 0 < length drawn
      → All IsOther ps
      → EndsPart others
      → let opened = post_auth_verify_handler crypto rfc3339 config runs drawn m s now (alone t) in
        opened.0.status ≡ 200
        → let cookie = some (cookie_text ps (random_hex drawn ++ others)) in
          (p : SiweMessage) × (v : Str) × (q : WalletProfile) × (verify_siwe_signature crypto
              rfc3339 config m s none none now
            ≡ ok p)
          × (normalize_wallet_address p.address ≡ ok v)
          × (opened.0 ≡ record {
            status = 200;
            set_cookie = some (format_session_set_cookie (random_hex drawn) session_ttl_secs);
            body = session_status (from_profile q);
          })
          × IsProfile t v now q
          × IsSessionAnswer t now at v q (get_auth_session_handler runs cookie at opened.1).0
  unfolding post_auth_verify_handler on_block session_opened
  post_auth_verify_handler-session drawn m s now at t ps others b l o k h =
      let whole = open_session crypto rfc3339 config drawn m s now in
      let ((session, q), e, body, stays) = answer-ok session_opened whole (alone t) h in
      let (p, v, t₁, signed, rows, (n, fresh, token, read, left)) =
        open_session-IsOpened drawn m s now t (session, q) e in
      let (q', again, same) =
        get_wallet_profile-again p.address v now at (with_session drawn v now t₁) q n read in
      (
        p,
        v,
        q,
        signed,
        n,
        body
            ∙ ap
                (λ (k : Str). record {
                  status = 200;
                  set_cookie = some (format_session_set_cookie k session_ttl_secs);
                  body = session_status (from_profile q);
                })
                token,
        get_wallet_profile-IsProfile p.address v now t (with_session drawn v now t₁) q n rows read,
        (
          q',
          get_wallet_profile-IsProfile v v at t (with_session drawn v now t₁) q'
              (normalize_wallet_address-normal p.address n).1 rows (ap (λ x. x.0) again),
          same,
          ap
                (λ d.
                  (get_auth_session_handler runs
                    (some (cookie_text ps (random_hex drawn ++ others))) at d).0)
                (stays ∙ left)
              ∙ session_handler-answer drawn v now at t₁ q' ps others b l o k fresh again,
        ),
      )
