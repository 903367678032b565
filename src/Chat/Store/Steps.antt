-- ===== src/Chat/Store/Steps.antt =====
-- What a chain of statements that has returned has done (server/src/chat/db.rs).
use month_erdmko_de.Base.{◌≡◌, refl, ap, Option, none, some, List, String}
use month_erdmko_de.Base.Result.{Result, ok, err, ok-inj}
use month_erdmko_de.Chat.Events.{ChatError}
use month_erdmko_de.Chat.Store.{
  Store, ChatConn, ChatResult, ChatExec, ChatStatement, ◌>>=◌, sql, conclude, run_statement,
  next_fault, rest_faults,
}

module _ {A B : Type 0} where
  chained :
      (f : A → ChatExec B) (r : ChatResult A × ChatConn) (b : B)
      → (let x : ChatResult B × ChatConn = elim r.0 [ ok a ↦ f a r.1 | err e ↦ (err e, r.1) ] in
          x.0)
        ≡ ok b
      → (a : A) × (r.0 ≡ ok a) × ((f a r.1).0 ≡ ok b)
  chained f (ok a, c) b h = (a, refl, h)
  chained f (err e, c) b h = cc

  -- Where a chain has returned, its first call has, and so has the rest.
  pub bind-result :
      (m : ChatExec A) (f : A → ChatExec B) (c : ChatConn) (b : B)
      → ((m >>= f) c).0 ≡ ok b
      → (a : A) × ((m c).0 ≡ ok a) × ((f a (m c).1).0 ≡ ok b)
  unfolding ◌>>=◌
  bind-result m f c b h = chained f (m c) b h

module _ {A : Type 0} where
  concluded :
      (e : String → ChatError) (s : Store) (q : ChatStatement A) (fs : List (Option String))
      (fault : Option String) (a : A)
      → (run_statement e q s fs fault).0 ≡ ok a
      → (t : Store) × (q s ≡ ok (a, t))
  unfolding run_statement conclude
  concluded e s q fs (some why) a h = cc
  concluded e s q fs none a h = go (q s) h
    where
      go :
          (r : Result String (A × Store))
          → (conclude e s fs r).0 ≡ ok a
          → (t : Store) × (r ≡ ok (a, t))
      go (ok (b, t)) h = (t, ap (λ x. ok (x, t)) (ok-inj h))
      go (err why) h = cc

  -- A statement of the connection that has returned is one that the store has answered.
  pub sql-ok :
      (e : String → ChatError) (q : ChatStatement A) (c : ChatConn) (a : A)
      → (sql e q c).0 ≡ ok a
      → (t : Store) × (q c.store ≡ ok (a, t))
  unfolding sql
  sql-ok e q c a h = concluded e c.store q (rest_faults c.faults) (next_fault c.faults) a h
