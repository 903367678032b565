-- ===== src/Chat/Store.antt =====
-- The tables of `init_chat_schema` (server/src/chat/db.rs) and `init_attachments_schema`
-- (server/src/attachments/db.rs), and chains of statements on them. SQLite checks the foreign keys and
-- cascades a deletion only on a connection where the pragma `foreign_keys` is on.
pub mod Keeps
pub mod Steps
use month_erdmko_de.Base.{
  ℕ, suc, Bool, true, false, not, ◌&&◌, Option, none, some, List, [], ◌∷◌, String, ltb, ◌==◌,
  if◌then◌else◌,
}
use month_erdmko_de.Base.Text.{Str}
use month_erdmko_de.Base.Result.{Result, ok, err}
use month_erdmko_de.Base.Rows.{retain, has_row}
use month_erdmko_de.Chat.Events.{ChatError, internal}

-- A timestamp is the second that CURRENT_TIMESTAMP names.
pub record RoomRow : Type 0 where
  pub id : ℕ
  pub slug : Str
  pub created_at : ℕ

pub record MessageRow : Type 0 where
  pub id : ℕ
  pub room_id : ℕ
  pub sender_id : Str
  pub sender_name : Str
  pub body : Str
  pub created_at : ℕ

-- `size` is the length of the data that the server stores, so it is not negative.
pub record AttachmentRow : Type 0 where
  pub id : ℕ
  pub message_id : ℕ
  pub filename : Str
  pub size : ℕ
  pub mime_type : Str
  pub blob : List ℕ
  pub created_at : ℕ

-- The tables, and the pragma of the connection that they are reached through.
pub record Store : Type 0 where
  pub rooms : List RoomRow
  pub messages : List MessageRow
  pub attachments : List AttachmentRow
  pub foreign_keys : Bool

-- What SQLite assigns to a new row.
pub record Assigned : Type 0 where
  pub id : ℕ
  pub created_at : ℕ

-- LENGTH of a text: its characters in front of the first NUL.
unfoldable pub sql_length : Str → ℕ
sql_length [] = 0
sql_length (c ∷ s) = let rest = sql_length s in if c == 0 then 0 else suc rest

-- The messages that a test selects are deleted; where foreign keys are on, with their attachments.
unfoldable pub delete_messages : (MessageRow → Bool) → Store → Store
delete_messages p s = record s {
  messages = retain (λ m. not (p m)) s.messages;
  attachments =
      retain (λ a. not (s.foreign_keys && has_row (λ m. p m && m.id == a.message_id) s.messages))
        s.attachments;
}

-- The rooms that a test selects are deleted; where foreign keys are on, with their messages.
unfoldable pub delete_rooms : (RoomRow → Bool) → Store → Store
unfolding delete_messages
delete_rooms p s =
    let rest =
      delete_messages (λ m. s.foreign_keys && has_row (λ r. p r && r.id == m.room_id) s.rooms) s in
    record rest { rooms = retain (λ r. not (p r)) rest.rooms }

-- One connection: the store, and which of the statements to come fail, with the error's text.
pub record ChatConn : Type 0 where
  pub store : Store
  pub faults : List (Option String)

abbrev pub ChatResult : Type 0 → Type 0
ChatResult A = Result ChatError A

abbrev pub ChatExec : Type 0 → Type 0
ChatExec A = ChatConn → ChatResult A × ChatConn

abbrev pub ChatStatement : Type 0 → Type 0
ChatStatement A = Store → Result String (A × Store)

-- A statement that only prepares a query.
abbrev pub no_change : ChatStatement (Unit {0})
no_change s = ok (tt, s)

-- PRAGMA foreign_keys = ON
unfoldable pub ensure_foreign_keys : ChatStatement (Unit {0})
ensure_foreign_keys s = ok (tt, record s { foreign_keys = true })

abbrev pub internal_error : String → String → ChatError
internal_error message details = record {
  kind = internal;
  code = "INTERNAL_ERROR";
  message = message;
  details = some details;
}

unfoldable pub pure : {A : Type 0} → A → ChatExec A
pure a c = (ok a, c)

unfoldable pub fail : {A : Type 0} → ChatError → ChatExec A
fail e c = (err e, c)

unfoldable pub lift : {A : Type 0} → ChatResult A → ChatExec A
lift r c = (r, c)

infixl 5 ◌>>=◌ ◌>>◌
unfoldable pub ◌>>=◌ : {A B : Type 0} → ChatExec A → (A → ChatExec B) → ChatExec B
◌>>=◌ m f c = let (r, d) = m c in elim r [ ok a ↦ f a d | err e ↦ (err e, d) ]

abbrev pub ◌>>◌ : {A B : Type 0} → ChatExec A → ChatExec B → ChatExec B
m >> k = m >>= λ _. k

unfoldable pub next_fault : List (Option String) → Option String
next_fault [] = none
next_fault (o ∷ os) = o

unfoldable pub rest_faults : List (Option String) → List (Option String)
rest_faults [] = []
rest_faults (o ∷ os) = os

unfoldable pub conclude :
    {A : Type 0}
    → (String → ChatError)
    → Store
    → List (Option String)
    → Result String (A × Store)
    → ChatResult A × ChatConn
conclude e s os (ok (a, t)) = (ok a, record { store = t; faults = os })
conclude e s os (err why) = (err (e why), record { store = s; faults = os })

unfoldable pub run_statement :
    {A : Type 0}
    → (String → ChatError)
    → ChatStatement A
    → Store
    → List (Option String)
    → Option String
    → ChatResult A × ChatConn
unfolding conclude
run_statement e q s os none = conclude e s os (q s)
run_statement e q s os (some why) = (err (e why), record { store = s; faults = os })

-- A statement of the connection, with its `map_err`.
unfoldable pub sql : {A : Type 0} → (String → ChatError) → ChatStatement A → ChatExec A
unfolding run_statement next_fault rest_faults
sql e q c = run_statement e q c.store (rest_faults c.faults) (next_fault c.faults)
