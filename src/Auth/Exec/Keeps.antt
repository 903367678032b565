-- ===== src/Auth/Exec/Keeps.antt =====
-- Invariants of chains of statements under interference, one rule for each way to build a chain.
use month_erdmko_de.Base.{
  ◌≡◌, refl, Bool, true, false, Option, none, some, List, [], ◌∷◌, String, All, if◌then◌else◌,
}
use month_erdmko_de.Base.Result.{ok, err}
use month_erdmko_de.Auth.Error.{AuthError, AuthResult, Cause}
use month_erdmko_de.Auth.Tables.{Tables, Statement, Answer}
use month_erdmko_de.Auth.Exec.{
  Turn, Conn, Exec, pure, fail, lift, ◌>>=◌, arrive, fault_of, later, settle, attempt, sql,
}

-- The other connections keep `P`.
abbrev pub Rely : (Tables → Type 0) → List Turn → Type 0
Rely P = All (λ u. (t : Tables) → P t → P (u.others t))

-- `P` holds now, and the other connections keep it.
pub record Holds (P : Tables → Type 0) (c : Conn) : Type 0 where
  pub rely : Rely P c.turns
  pub now : P c.tables

-- The chain keeps `P`, whether it returns or fails, and wherever it fails.
pub record Keeps {A : Type 0} (P : Tables → Type 0) (m : Exec A) : Type 0 where
  pub at : (c : Conn) → Holds P c → Holds P (m c).1

abbrev pub Preserves : {A : Type 0} → (Tables → Type 0) → Statement A → Type 0
Preserves {A} P q = (t : Tables) (a : A) (t' : Tables) → q t ≡ ok (a, t') → P t → P t'

module _ (P : Tables → Type 0) where
  pub arrive-keeps : (us : List Turn) (t : Tables) → Rely P us → P t → P (arrive us t)
  unfolding arrive
  arrive-keeps [] t r h = h
  arrive-keeps (u ∷ us) t r h = r.0 t h

  pub later-Rely : (us : List Turn) → Rely P us → Rely P (later us)
  unfolding later
  later-Rely [] r = tt
  later-Rely (u ∷ us) r = r.1

module _ {P : Tables → Type 0} {A : Type 0} where
  pub Keeps-if :
      (test : Bool) (met unmet : Exec A)
      → (test ≡ false → Keeps P unmet)
      → (test ≡ true → Keeps P met)
      → Keeps P (if test then met else unmet)
  Keeps-if false met unmet keeps_n keeps_m = keeps_n refl
  Keeps-if true met unmet keeps_n keeps_m = keeps_m refl

  pub Keeps-lift : (outcome : AuthResult A) → Keeps P (lift outcome)
  unfolding lift
  Keeps-lift outcome = record { at = λ c held. held }

  pub Keeps-fail : (why : AuthError) → Keeps P (fail {A = A} why)
  unfolding fail
  Keeps-fail why = record { at = λ c held. held }

  pub Keeps-pure : (value : A) → Keeps P (pure value)
  unfolding pure
  Keeps-pure value = record { at = λ c held. held }

  settle-Holds :
      (message : String) (t : Tables) (us : List Turn) (r : Answer A)
      → Rely P us
      → P t
      → ((a : A) (t' : Tables) → r ≡ ok (a, t') → P t')
      → Holds P (settle message t us r).1
  unfolding settle
  settle-Holds message t us (ok (a, t')) r h k = record { rely = r; now = k a t' refl }
  settle-Holds message t us (err e) r h k = record { rely = r; now = h }

  attempt-Holds :
      (message : String) (q : Statement A) (t : Tables) (us : List Turn) (o : Option Cause)
      → Preserves P q
      → Rely P us
      → P t
      → Holds P (attempt message q t us o).1
  unfolding attempt
  attempt-Holds message q t us (some e) k r h = record { rely = r; now = h }
  attempt-Holds message q t us none k r h =
      settle-Holds message t us (q t) r h (λ a t' e. k t a t' e h)

  pub Keeps-sql : (message : String) (q : Statement A) → Preserves P q → Keeps P (sql message q)
  unfolding sql
  Keeps-sql message q k = record {
    at = λ c h.
        attempt-Holds message q (arrive c.turns c.tables) (later c.turns) (fault_of c.turns) k
          (later-Rely P c.turns h.rely) (arrive-keeps P c.turns c.tables h.rely h.now);
  }

module _ {P : Tables → Type 0} {A B : Type 0} where
  pub Keeps-bind :
      (m : Exec A) (f : A → Exec B) → Keeps P m → ((a : A) → Keeps P (f a)) → Keeps P (m >>= f)
  unfolding ◌>>=◌
  Keeps-bind m f km kf = record { at = λ c h. go (m c).0 (m c).1 (km.at c h) }
    where
      go :
          (r : AuthResult A) (c' : Conn)
          → Holds P c'
          → Holds P (
              let next : AuthResult B × Conn = elim r [ ok a ↦ f a c' | err e ↦ (err e, c') ] in
              next.1)
      go (ok a) c' h = (kf a).at c' h
      go (err e) c' h = h

pub ruleset keeps_rules = (Keeps-pure, Keeps-fail, Keeps-lift, Keeps-if, Keeps-sql, Keeps-bind)
