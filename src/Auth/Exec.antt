-- ===== src/Auth/Exec.antt =====
-- One connection to the database: each call is a chain of statements that may fail. Before a
-- statement runs, the other connections have their turn; then it runs at once, or fails and
-- changes nothing.
pub mod Keeps
pub mod Steps
pub mod Turns
use month_erdmko_de.Base.{Option, none, some, List, [], ◌∷◌, String, Bool, true, false}
use month_erdmko_de.Base.Result.{Result, ok, err}
use month_erdmko_de.Auth.Error.{AuthError, AuthResult, Cause, internal_error}
use month_erdmko_de.Auth.Tables.{Tables, Statement, Answer}

-- What happens around one statement: the writes of other connections, and the fault, if any.
pub record Turn : Type 0 where
  pub others : Tables → Tables
  pub fault : Option Cause

-- With no turn left the connection is alone and nothing fails but by a constraint.
pub record Conn : Type 0 where
  pub tables : Tables
  pub turns : List Turn

abbrev pub Exec : Type 0 → Type 0
Exec A = Conn → AuthResult A × Conn

unfoldable pub pure : {A : Type 0} → A → Exec A
pure a c = (ok a, c)

unfoldable pub fail : {A : Type 0} → AuthError → Exec A
fail e c = (err e, c)

unfoldable pub lift : {A : Type 0} → AuthResult A → Exec A
lift r c = (r, c)

infixl 5 ◌>>=◌ ◌>>◌
unfoldable pub ◌>>=◌ : {A B : Type 0} → Exec A → (A → Exec B) → Exec B
◌>>=◌ m f c = let (r, c') = m c in elim r [ ok a ↦ f a c' | err e ↦ (err e, c') ]

abbrev pub ◌>>◌ : {A B : Type 0} → Exec A → Exec B → Exec B
m >> k = m >>= λ _. k

unfoldable pub arrive : List Turn → Tables → Tables
arrive [] t = t
arrive (u ∷ us) t = u.others t

unfoldable pub fault_of : List Turn → Option Cause
fault_of [] = none
fault_of (u ∷ us) = u.fault

unfoldable pub later : List Turn → List Turn
later [] = []
later (u ∷ us) = us

unfoldable pub settle : {A : Type 0} → String → Tables → List Turn → Answer A → AuthResult A × Conn
settle message t us (ok (a, t')) = (ok a, record { tables = t'; turns = us })
settle message t us (err e) = (err (internal_error message e), record { tables = t; turns = us })

unfoldable pub attempt :
    {A : Type 0} → String → Statement A → Tables → List Turn → Option Cause → AuthResult A × Conn
unfolding settle
attempt message q t us (some e) =
    (err (internal_error message e), record { tables = t; turns = us })
attempt message q t us none = settle message t us (q t)

-- `conn.execute(…).map_err(|err| AuthError::internal(message, …))?`, and `query_row` likewise.
unfoldable pub sql : {A : Type 0} → String → Statement A → Exec A
unfolding attempt arrive fault_of later
sql message q c = attempt message q (arrive c.turns c.tables) (later c.turns) (fault_of c.turns)

abbrev pub result : {A : Type 0} → AuthResult A × Conn → AuthResult A
result r = r.0

abbrev pub tables_after : {A : Type 0} → AuthResult A × Conn → Tables
tables_after r = r.1.tables

-- A connection that is alone.
abbrev pub alone : Tables → Conn
alone t = record { tables = t; turns = [] }

-- A proof that steps through a chain names this on its `unfolding` line, and so opens the parts.
unfoldable pub chain : Unit {0}
unfolding pure fail lift ◌>>=◌ sql
chain = tt
