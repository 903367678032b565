-- ===== src/Auth/Exec/Turns.antt =====
-- A chain uses up turns and adds none, so what the other connections keep they keep behind it.
use month_erdmko_de.Base.{
  ◌≡◌, refl, Bool, true, false, Option, none, some, List, String, if◌then◌else◌,
}
use month_erdmko_de.Base.Result.{ok, err}
use month_erdmko_de.Auth.Error.{AuthError, AuthResult, Cause}
use month_erdmko_de.Auth.Tables.{Tables, Statement, Answer}
use month_erdmko_de.Auth.Exec.{
  Turn, Conn, Exec, pure, fail, lift, ◌>>=◌, arrive, fault_of, later, settle, attempt, sql,
}
use month_erdmko_de.Auth.Exec.Keeps.{Rely, later-Rely}
use month_erdmko_de.Auth.Exec.Steps.{next_call, bind-next}

-- What the other connections keep in front of the chain, they keep behind it.
pub record Leaves {A : Type 0} (P : Tables → Type 0) (m : Exec A) : Type 0 where
  pub at : (c : Conn) → Rely P c.turns → Rely P (m c).1.turns

module _ {A : Type 0} where
  settle-turns :
      (message : String) (t : Tables) (us : List Turn) (r : Answer A)
      → (settle message t us r).1.turns ≡ us
  unfolding settle
  settle-turns message t us (ok (a, t')) = refl
  settle-turns message t us (err e) = refl

  attempt-turns :
      (message : String) (q : Statement A) (t : Tables) (us : List Turn) (o : Option Cause)
      → (attempt message q t us o).1.turns ≡ us
  unfolding attempt
  attempt-turns message q t us none = settle-turns message t us (q t)
  attempt-turns message q t us (some e) = refl

module _ {P : Tables → Type 0} {A : Type 0} where
  pub Leaves-lift : (r : AuthResult A) → Leaves P (lift r)
  unfolding lift
  Leaves-lift r = record { at = λ c held. held }

  pub Leaves-fail : (e : AuthError) → Leaves P (fail {A = A} e)
  unfolding fail
  Leaves-fail e = record { at = λ c held. held }

  pub Leaves-pure : (a : A) → Leaves P (pure a)
  unfolding pure
  Leaves-pure a = record { at = λ c held. held }

  pub Leaves-if :
      (test : Bool) (met unmet : Exec A)
      → Leaves P met
      → Leaves P unmet
      → Leaves P (if test then met else unmet)
  Leaves-if true met unmet h k = h
  Leaves-if false met unmet h k = k

  pub Leaves-sql : (message : String) (q : Statement A) → Leaves P (sql message q)
  unfolding sql
  Leaves-sql message q = record {
    at = λ c held.
        rw (attempt-turns message q (arrive c.turns c.tables) (later c.turns) (fault_of c.turns))
          (later-Rely P c.turns held);
  }

module _ {P : Tables → Type 0} {A B : Type 0} where
  next-Leaves :
      (f : A → Exec B) (r : AuthResult A × Conn)
      → ((a : A) → Leaves P (f a))
      → Rely P r.1.turns
      → Rely P (next_call f r).1.turns
  unfolding next_call
  next-Leaves f (ok a, c) h k = (h a).at c k
  next-Leaves f (err e, c) h k = k

  pub Leaves-bind :
      (m : Exec A) (f : A → Exec B) → Leaves P m → ((a : A) → Leaves P (f a)) → Leaves P (m >>= f)
  Leaves-bind m f h k = record {
    at = λ c held. rw (bind-next f m c) (next-Leaves f (m c) k (h.at c held));
  }

pub ruleset leaves_rules =
    (Leaves-pure, Leaves-fail, Leaves-lift, Leaves-if, Leaves-sql, Leaves-bind)
