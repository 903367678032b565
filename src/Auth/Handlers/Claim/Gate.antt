-- ===== src/Auth/Handlers/Claim/Gate.antt =====
-- Who may take a nickname (`post_auth_nickname_handler` in server/src/pages/auth.rs).
use month_erdmko_de.Base.{◌≡◌, sym, ap, subst, ◌∙◌, Bool, true, false, not, Option, some, arith}
use month_erdmko_de.Base.Int.{ℤ}
use month_erdmko_de.Base.Text.{Str}
use month_erdmko_de.Base.Result.{ok, ok_or}
use month_erdmko_de.Auth.Exec.{Conn, Exec, lift}
use month_erdmko_de.Auth.Exec.Steps.{bind-ok}
use month_erdmko_de.Auth.Db.{
  WalletProfile, get_valid_session_wallet, get_wallet_profile, set_wallet_nickname,
}
use month_erdmko_de.Auth.Payment.{reject_if}
use month_erdmko_de.Auth.Payment.Accepted.{ok_or-ok, reject-ok}
use month_erdmko_de.Auth.Handlers.Cookie.{extract_session_token}
use month_erdmko_de.Auth.Handlers.{Block, status_response}
use month_erdmko_de.Auth.Handlers.Answers.{answer-ok, on_block-ok}
use month_erdmko_de.Auth.Handlers.Claim.Inputs.{missing_cookie}
use month_erdmko_de.Auth.Handlers.Claim.{
  session_wallet, rename_paid, rename_wallet, post_auth_nickname_handler,
}
use month_erdmko_de.Auth.Handlers.Claim.Once.{session_wallet-ok}

-- The calls of a renaming that is let through, with their answers: the session's wallet w, its
-- profile q with active access, and the new profile p.
abbrev pub IsRenaming : Str → Str → ℤ → Conn → WalletProfile → Conn → Type 0
IsRenaming token n now c p d =
    (w : Str) × (q : WalletProfile) × ((get_valid_session_wallet token now c).0 ≡ ok (some w))
    × (let looked = (get_valid_session_wallet token now c).1 in
        let read = get_wallet_profile w now looked in
        (read.0 ≡ ok q)
        × (q.has_active_access ≡ true)
        × ((set_wallet_nickname w n now read.1).0 ≡ ok p)
        × (d ≡ (set_wallet_nickname w n now read.1).1))

active_if : (b : Bool) → not b ≡ false → b ≡ true
active_if b h = ground arith

rename_paid-IsRenaming :
    (token n : Str) (now : ℤ) (c : Conn) (p : WalletProfile)
    → (rename_paid token n now c).0 ≡ ok p
    → IsRenaming token n now c p (rename_paid token n now c).1
unfolding rename_paid lift
rename_paid-IsRenaming token n now c p h =
    let (w, s, h, e) = bind-ok _ (session_wallet token now) c p h in
    let (found, left) = session_wallet-ok token now c w s in
    let (q, r, h, f) = bind-ok _ (get_wallet_profile w now) _ p h in
    let (_, gate, h, g) = bind-ok _ (lift (reject_if (not q.has_active_access) _)) _ p h in
    (
      w,
      q,
      found,
      (
        rw left at r,
        active_if q.has_active_access (reject-ok _ _ gate),
        rw left at h,
        ap (λ x. x.1) e
            ∙ ap (λ x. x.1) f
            ∙ ap (λ x. x.1) g
            ∙ ap (λ d. (set_wallet_nickname w n now (get_wallet_profile w now d).1).1) left,
      ),
    )

-- The nickname endpoint answers 200 only to a request whose cookie holds the token of a live session
-- of a wallet with active access at that time. It has then renamed that wallet, and the answer is
-- the profile after the renaming.
pub post_auth_nickname_handler-gated :
    (block : Block) (cookie : Option Str) (raw_nickname : Str) (now : ℤ) (c : Conn)
    → (post_auth_nickname_handler block cookie raw_nickname now c).0.status ≡ 200
    → (token : Str) × (p : WalletProfile) × (extract_session_token cookie ≡ some token)
      × ((post_auth_nickname_handler block cookie raw_nickname now c).0 ≡ status_response p)
      × IsRenaming token raw_nickname now c p
          (post_auth_nickname_handler block cookie raw_nickname now c).1
unfolding post_auth_nickname_handler rename_wallet lift
post_auth_nickname_handler-gated block cookie n now c h =
    let whole = rename_wallet block cookie n now in
    let (p, e, body, stays) = answer-ok status_response whole c h in
    let (token, t, q, f) =
      bind-ok _ (lift (ok_or (extract_session_token cookie) missing_cookie)) c p e in
    let ran =
      on_block-ok block "Failed to update wallet nickname." (rename_paid token n now) c p q in
    let renamed =
      rename_paid-IsRenaming token n now c p
        (subst (λ (m : Exec WalletProfile). (m c).0 ≡ ok p) ran q) in
    let end = stays ∙ ap (λ r. r.1) f ∙ ap (λ (m : Exec WalletProfile). (m c).1) ran in
    (
      token,
      p,
      ok_or-ok (extract_session_token cookie) missing_cookie t,
      body,
      subst (λ d. IsRenaming token n now c p d) (sym end) renamed,
    )
