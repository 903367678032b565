-- ===== src/Auth/Handlers/Answers.antt =====
-- What the status of an answer says of the chain behind it (server/src/pages/auth.rs).
use month_erdmko_de.Base.{◌≡◌, ◌≢◌, refl, String, arith}
use month_erdmko_de.Base.Result.{ok, err}
use month_erdmko_de.Auth.Error.{
  AuthError, AuthErrorKind, AuthResult, validation, unauthorized, conflict, internal,
}
use month_erdmko_de.Auth.Exec.{Conn, Exec, fail}
use month_erdmko_de.Auth.Handlers.{
  HttpResponse, status_of, auth_error_to_response, Block, runs, no_connection, not_run, on_block,
  respond, answer,
}

error-not_ok : (e : AuthError) → (auth_error_to_response e).status ≢ 200
unfolding auth_error_to_response status_of
error-not_ok e h = go e.kind h
  where
    go : (k : AuthErrorKind) → status_of k ≢ 200
    go validation h = omega arith
    go unauthorized h = omega arith
    go conflict h = omega arith
    go internal h = omega arith

module _ {A : Type 0} where
  respond-ok :
      (f : A → HttpResponse) (r : AuthResult A) → (respond f r).status ≡ 200 → (a : A) × (r ≡ ok a)
  unfolding respond
  respond-ok f (ok a) h = (a, refl)
  respond-ok f (err e) h = absurd (error-not_ok e h)

  -- An answer with status 200 comes from a chain that has returned.
  pub answer-ok :
      (f : A → HttpResponse) (m : Exec A) (c : Conn)
      → (answer f m c).0.status ≡ 200
      → (a : A) × ((m c).0 ≡ ok a) × ((answer f m c).0 ≡ f a) × ((answer f m c).1 ≡ (m c).1)
  unfolding answer
  answer-ok f m c h = let (a, e) = respond-ok f (m c).0 h in (a, e, rw (e, respond) refl, refl)

  pub answer-of :
      (f : A → HttpResponse) (m : Exec A) (c : Conn) (a : A)
      → (m c).0 ≡ ok a
      → answer f m c ≡ (f a, (m c).1)
  unfolding answer
  answer-of f m c a e = rw (e, respond) refl

  -- A block that has returned has run its closure.
  pub on_block-ok :
      (b : Block) (message : String) (m : Exec A) (c : Conn) (a : A)
      → (on_block b message m c).0 ≡ ok a
      → on_block b message m ≡ m
  unfolding on_block fail
  on_block-ok runs message m c a h = refl
  on_block-ok (no_connection e) message m c a h = cc
  on_block-ok (not_run e) message m c a h = cc
