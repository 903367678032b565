-- ===== src/Auth/Handlers/Logout.antt =====
-- A session that was logged out stays closed (server/src/pages/auth.rs).
use month_erdmko_de.Base.{
  ◌≡◌, ◌≢◌, ◌∙◌, false, refl, ap, sym, subst, Option, none, some, List, All, Bool, String,
}
use month_erdmko_de.Base.Int.{ℤ}
use month_erdmko_de.Base.Text.{Str, trim, is_empty}
use month_erdmko_de.Base.Result.{ok, ok-inj}
use month_erdmko_de.Auth.Exec.{Conn, Exec, pure}
use month_erdmko_de.Auth.Exec.Keeps.{Rely}
use month_erdmko_de.Auth.Exec.Steps.{bind-ok}
use month_erdmko_de.Auth.Db.{WalletProfile, revoke_session, get_valid_session_wallet}
use month_erdmko_de.Auth.History.{Op, run}
use month_erdmko_de.Auth.History.Stable.{Draws}
use month_erdmko_de.Auth.History.Revoked.{IsRevoked, revoke_session-final}
use month_erdmko_de.Auth.Handlers.Cookie.{extract_session_token}
use month_erdmko_de.Auth.Handlers.Answers.{answer-ok, on_block-ok}
use month_erdmko_de.Auth.Handlers.{
  HttpResponse, Block, runs, on_block, session_of, find_profile, profile_if, session_response,
  status_response, get_auth_session_handler, post_auth_logout_handler, revoke_if,
}

profile_if-some :
    (at : ℤ) (w : Option Str) (c : Conn) (q : WalletProfile)
    → (profile_if at w c).0 ≡ ok (some q)
    → (v : Str) × (w ≡ some v)
unfolding profile_if pure
profile_if-some at none c q h = let e = ok-inj h in absurd cc
profile_if-some at (some v) c q h = (v, refl)

-- A profile is found for a token only if the token resolves to a wallet.
find_profile-some :
    (k : Str) (at : ℤ) (c : Conn) (q : WalletProfile)
    → (find_profile k at c).0 ≡ ok (some q)
    → (v : Str) × ((get_valid_session_wallet k at c).0 ≡ ok (some v))
unfolding find_profile
find_profile-some k at c q h =
    let (w, e, h, _) = bind-ok (profile_if at) (get_valid_session_wallet k at) c (some q) h in
    let (v, f) = profile_if-some at w _ q h in (v, rw f at e)

session_response-some :
    (o : Option WalletProfile) (p : WalletProfile)
    → session_response o ≡ status_response p
    → (q : WalletProfile) × (o ≡ some q)
unfolding session_response status_response
session_response-some none p h = let e = ap (λ (r : HttpResponse). r.body) h in absurd cc
session_response-some (some q) p h = (q, refl)

-- A session handler that answers with a profile has resolved its token.
session_of-some :
    (block : Block) (k : Str) (at : ℤ) (c : Conn) (p : WalletProfile)
    → (session_of block at (some k) c).0 ≡ status_response p
    → (v : Str) × ((get_valid_session_wallet k at c).0 ≡ ok (some v))
unfolding session_of status_response
session_of-some block k at c p h =
    let message : String = "Failed to resolve auth session." in
    let whole = on_block block message (find_profile k at) in
    let (o, e, body, _) = answer-ok session_response whole c (ap (λ r. r.status) h) in
    let (q, f) = session_response-some o p (sym body ∙ h) in
    let found : (whole c).0 ≡ ok (some q) = rw f at e in
    let ran = on_block-ok block message (find_profile k at) c (some q) found in
    find_profile-some k at c q
      (subst (λ (m : Exec (Option WalletProfile)). (m c).0 ≡ ok (some q)) ran found)

-- After a logout whose block has revoked the token of its cookie, the session endpoint answers with
-- no profile to any request that carries this token, at any time and after any calls, whatever
-- statements fail, provided that no call in between draws the token again and the other
-- connections do not either.
pub post_auth_logout_handler-final :
    (block : Block) (cookie cookie' : Option Str) (k : Str) (b : Bool) (at : ℤ) (os : List Op)
    (c : Conn) (p : WalletProfile)
    → extract_session_token cookie ≡ some k
    → extract_session_token cookie' ≡ some k
    → is_empty (trim k) ≡ false
    → Rely (IsRevoked (trim k)) c.turns
    → All (Draws (λ m. Unit) (λ j. j ≢ trim k)) os
    → (revoke_session k c).0 ≡ ok b
    → (get_auth_session_handler block cookie' at
        (run os (post_auth_logout_handler runs cookie c).1)).0
      ≢ status_response p
unfolding get_auth_session_handler post_auth_logout_handler revoke_if on_block
post_auth_logout_handler-final block cookie cookie' k b at os c p t t' n r f e h =
    let (v, found) = session_of-some block k at _ p (rw t' at h) in
    revoke_session-final k v b at os c n r f e (
      subst (λ d. (get_valid_session_wallet k at (run os d)).0 ≡ ok (some v))
        (ap (λ o. revoke_if runs o c) t) found)
