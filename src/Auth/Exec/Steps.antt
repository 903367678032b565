-- ===== src/Auth/Exec/Steps.antt =====
-- What a chain of statements that returns has done, call by call.
use month_erdmko_de.Base.{◌≡◌, refl, ◌∙◌}
use month_erdmko_de.Base.Result.{ok, err, ok-inj, err-inj}
use month_erdmko_de.Auth.Error.{AuthError, AuthResult}
use month_erdmko_de.Auth.Exec.{Conn, Exec, ◌>>=◌}

-- The call behind the result of another one.
unfoldable pub next_call : {A B : Type 0} → (A → Exec B) → AuthResult A × Conn → AuthResult B × Conn
next_call f (ok a, c) = f a c
next_call f (err e, c) = (err e, c)

module _ {A B : Type 0} (f : A → Exec B) where
  pub bind-next : (m : Exec A) (c : Conn) → (m >>= f) c ≡ next_call f (m c)
  unfolding ◌>>=◌ next_call
  bind-next m c = go (m c)
    where
      go :
          (r : AuthResult A × Conn)
          → Path
              (AuthResult B × Conn)
              (elim r.0 [ ok a ↦ f a r.1 | err e ↦ (err e, r.1) ])
              (next_call f r)
      go (ok a, c) = refl
      go (err e, c) = refl

  next-ok :
      (r : AuthResult A × Conn) (b : B)
      → (next_call f r).0 ≡ ok b
      → (a : A) × (r.0 ≡ ok a) × ((f a r.1).0 ≡ ok b) × (next_call f r ≡ f a r.1)
  unfolding next_call
  next-ok (ok a, c) b h = (a, refl, h, refl)
  next-ok (err e, c) b h = cc

  -- Where a chain has returned, its first call has, and the rest has gone on from there.
  pub bind-ok :
      (m : Exec A) (c : Conn) (b : B)
      → ((m >>= f) c).0 ≡ ok b
      → (a : A) × ((m c).0 ≡ ok a) × ((f a (m c).1).0 ≡ ok b) × ((m >>= f) c ≡ f a (m c).1)
  bind-ok m c b h =
      let e = bind-next m c in let (a, p, q, r) = next-ok (m c) b (rw e at h) in (a, p, q, e ∙ r)

  next-returns : (r : AuthResult A × Conn) (a : A) → r.0 ≡ ok a → next_call f r ≡ f a r.1
  unfolding next_call
  next-returns (ok b, c) a h = rw (ok-inj h) refl
  next-returns (err e, c) a h = cc

  -- A call that returns is left behind.
  pub bind-returns : (m : Exec A) (c : Conn) (a : A) → (m c).0 ≡ ok a → (m >>= f) c ≡ f a (m c).1
  bind-returns m c a h = bind-next m c ∙ next-returns (m c) a h

  next-fails :
      (r : AuthResult A × Conn) (e : AuthError) → r.0 ≡ err e → next_call f r ≡ (err e, r.1)
  unfolding next_call
  next-fails (ok b, c) e h = cc
  next-fails (err d, c) e h = rw (err-inj h) refl

  -- A call that fails ends the chain.
  pub bind-fails :
      (m : Exec A) (c : Conn) (e : AuthError) → (m c).0 ≡ err e → (m >>= f) c ≡ (err e, (m c).1)
  bind-fails m c e h = bind-next m c ∙ next-fails (m c) e h
