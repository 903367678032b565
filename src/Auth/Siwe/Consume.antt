-- ===== src/Auth/Siwe/Consume.antt =====
-- server/src/auth/siwe.rs: `verify_siwe_and_consume_nonce`.
use month_erdmko_de.Base.{ℕ, ◌≡◌, ◌≢◌, refl, ap, subst, ◌∙◌, Bool, true, false, Option, List, All}
use month_erdmko_de.Base.Int.{ℤ}
use month_erdmko_de.Base.Text.{Str, trim}
use month_erdmko_de.Base.Result.{ok, ok-inj}
use month_erdmko_de.Auth.Error.{unauthorized_error}
use month_erdmko_de.Auth.Exec.{Conn, Exec, pure, fail, lift, ◌>>=◌}
use month_erdmko_de.Auth.Exec.Steps.{bind-ok}
use month_erdmko_de.Auth.Exec.Keeps.{Holds, Rely}
use month_erdmko_de.Auth.Db.{consume_nonce}
use month_erdmko_de.Auth.History.{Op, run}
use month_erdmko_de.Auth.History.Stable.{Draws}
use month_erdmko_de.Auth.History.Spent.{NoncesDistinct, IsSpent, consume_nonce-once}
use month_erdmko_de.Auth.Siwe.Message.{SiweMessage}
use month_erdmko_de.Auth.Siwe.Validate.{DomainConfig}
use month_erdmko_de.Auth.Siwe.Signature.{Crypto}
use month_erdmko_de.Auth.Siwe.Verify.{verify_siwe_signature}

-- `if !consumed { return Err(…) }`
unfoldable pub finish_sign_in : SiweMessage → Bool → Exec SiweMessage
finish_sign_in parsed true = pure parsed
finish_sign_in parsed false =
    fail (
      unauthorized_error "INVALID_NONCE"
        "SIWE nonce is invalid, expired, or has already been used.")

finish_sign_in-ok :
    (q : SiweMessage) (b : Bool) (c : Conn) (p : SiweMessage)
    → (finish_sign_in q b c).0 ≡ ok p
    → (b ≡ true) × (q ≡ p) × ((finish_sign_in q b c).1 ≡ c)
unfolding finish_sign_in pure fail
finish_sign_in-ok q true c p h = (refl, ok-inj h, refl)
finish_sign_in-ok q false c p h = cc

module _ (crypto : Crypto) (rfc3339 : Str → Option ℤ) (config : DomainConfig) where
  unfoldable pub verify_siwe_and_consume_nonce :
      Str → Str → Option Str → Option ℕ → ℤ → Exec SiweMessage
  unfolding finish_sign_in
  verify_siwe_and_consume_nonce raw_message raw_signature expected_domain expected_chain_id
        now_unix =
      do
        parsed ← lift (
            verify_siwe_signature crypto rfc3339 config raw_message raw_signature expected_domain
              expected_chain_id now_unix)
        consumed ← consume_nonce parsed.nonce parsed.address now_unix
        finish_sign_in parsed consumed

  -- A sign-in that succeeds has verified the message and consumed its nonce, and did nothing else.
  pub sign_in-ok :
      (m s : Str) (d : Option Str) (i : Option ℕ) (now : ℤ) (c : Conn) (p : SiweMessage)
      → (verify_siwe_and_consume_nonce m s d i now c).0 ≡ ok p
      → (verify_siwe_signature crypto rfc3339 config m s d i now ≡ ok p)
        × ((consume_nonce p.nonce p.address now c).0 ≡ ok true)
        × ((verify_siwe_and_consume_nonce m s d i now c).1
            ≡ (consume_nonce p.nonce p.address now c).1)
  unfolding verify_siwe_and_consume_nonce lift
  sign_in-ok m s d i now c p h =
      let (q, v, h, e) =
        bind-ok _ (lift (verify_siwe_signature crypto rfc3339 config m s d i now)) c p h in
      let (b, n, h, f) = bind-ok _ (consume_nonce q.nonce q.address now) c p h in
      let (t, same, stays) = finish_sign_in-ok q b _ p h in
      let spent : (consume_nonce q.nonce q.address now c).0 ≡ ok true = rw t at n in
      let last = ap (λ r. r.1) e ∙ ap (λ r. r.1) f ∙ stays in
      subst
        (λ (x : SiweMessage).
          (verify_siwe_signature crypto rfc3339 config m s d i now ≡ ok x)
          × ((consume_nonce x.nonce x.address now c).0 ≡ ok true)
          × ((verify_siwe_and_consume_nonce m s d i now c).1
              ≡ (consume_nonce x.nonce x.address now c).1))
        same (v, spent, last)

  -- A nonce signs in once: after a sign-in has succeeded, no sign-in whose message carries the same
  -- nonce succeeds, with whatever message, signature, expected domain, expected chain and time, and
  -- whatever calls of the database module come in between and whatever statements fail. It is
  -- assumed that the table holds no nonce twice, that no call in between draws this nonce again,
  -- and that other connections keep both facts.
  pub verify_siwe_and_consume_nonce-once :
      (m s m' s' : Str) (d d' : Option Str) (i i' : Option ℕ) (now now' : ℤ) (os : List Op)
      (c : Conn) (p q : SiweMessage)
      → Holds NoncesDistinct c
      → Rely (IsSpent (trim p.nonce)) c.turns
      → All (Draws (λ n. n ≢ trim p.nonce) (λ k. Unit)) os
      → (verify_siwe_and_consume_nonce m s d i now c).0 ≡ ok p
      → q.nonce ≡ p.nonce
      → (verify_siwe_and_consume_nonce m' s' d' i' now'
          (run os (verify_siwe_and_consume_nonce m s d i now c).1)).0
        ≢ ok q
  verify_siwe_and_consume_nonce-once m s m' s' d d' i i' now now' os c p q h r f first same again =
      let (_, spent, left) = sign_in-ok m s d i now c p first in
      let (_, anew, _) = sign_in-ok m' s' d' i' now' _ q again in
      consume_nonce-once p.nonce p.address q.address now now' os c h r f spent
        (rw left at (rw same at anew))
