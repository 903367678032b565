-- ===== src/Chat/Messages.antt =====
-- server/src/chat/db.rs: rooms and messages. SQLite's ids and timestamps are arguments, and so is how
-- the pool answers.
pub mod Own
use month_erdmko_de.Base.{
  ℕ, ◌*◌, Bool, false, not, ◌&&◌, ◌||◌, Option, none, some, List, [], ◌∷◌, ◌++◌, String, ltb, ◌==◌,
  if◌then◌else◌, length,
}
use month_erdmko_de.Base.Int.{ℤ, pos, negsuc}
use month_erdmko_de.Base.Text.{Str, trim, is_empty, str_eq}
use month_erdmko_de.Base.Result.{ok, err}
use month_erdmko_de.Base.Rows.{find_row, count_rows, has_row}
use month_erdmko_de.Chat.Events.{ChatError, validation}
use month_erdmko_de.Chat.Store.{
  ◌>>=◌, ◌>>◌, Store, RoomRow, MessageRow, Assigned, sql_length, delete_messages, ChatResult,
  ChatExec, ChatStatement, no_change, ensure_foreign_keys, internal_error, pure, fail, lift, sql,
}
use month_erdmko_de.Chat.Eviction.{enforce_messages_storage_limit, enforce_rooms_storage_limit}
use month_erdmko_de.Chat.Attachments.{AttachmentMeta}

abbrev pub max_message_len : ℕ
max_message_len = 200

abbrev pub max_messages_storage_bytes : ℕ
max_messages_storage_bytes = 100 * 1024 * 1024

abbrev pub max_rooms_storage_bytes : ℕ
max_rooms_storage_bytes = 1024 * 1024

abbrev pub validation_error : String → ChatError
validation_error message = record {
  kind = validation;
  code = "VALIDATION_ERROR";
  message = message;
  details = none;
}

pub record ChatMessage : Type 0 where
  pub id : ℕ
  pub room_id : Str
  pub sender_id : Str
  pub sender_name : Str
  pub body : Str
  pub created_at : ℕ
  pub attachments : List AttachmentMeta

-- `chars().count()` is the length: a text is the list of its characters.
unfoldable pub validate_chat_message_body : Str → ChatResult Str
validate_chat_message_body body =
    let trimmed = trim body in
    if length trimmed == 0 || ltb max_message_len (length trimmed)
    then err (validation_error "message length must be between 1 and 200")
    else ok trimmed

-- The trimmed argument, which must not be empty.
unfoldable pub required : String → Str → ChatResult Str
required message raw =
    let trimmed = trim raw in
    if is_empty trimmed then err (validation_error message) else ok trimmed

-- What `web::block(move || pool.get())` comes to.
pub data Pool : Type 0 where
  connected : Pool
  worker_failed unavailable : String → Pool

-- The connection of the pool, with foreign keys on.
unfoldable pub connect : Pool → ChatExec (Unit {0})
unfolding ensure_foreign_keys
connect connected = sql (internal_error "Failed to enable foreign keys.") ensure_foreign_keys
connect (worker_failed e) = fail (internal_error "DB worker failure." e)
connect (unavailable e) = fail (internal_error "Failed to acquire DB connection." e)

abbrev pub has_slug : Str → RoomRow → Bool
has_slug slug r = str_eq r.slug slug

-- INSERT OR IGNORE INTO rooms; the slug is unique.
unfoldable pub insert_room : Assigned → Str → ChatStatement (Unit {0})
insert_room new slug s =
    if has_row (has_slug slug) s.rooms
    then ok (tt, s)
    else ok (
      tt,
      record s {
        rooms = s.rooms ++ (record { id = new.id; slug = slug; created_at = new.created_at } ∷ []);
      },
    )

unfoldable pub create_room_if_not_exists : Pool → Assigned → Str → ChatExec (Unit {0})
create_room_if_not_exists pool new room_slug = do
  room ← lift (required "room id is required" room_slug)
  connect pool
  sql (internal_error "Failed to create room.") (insert_room new room)
  enforce_rooms_storage_limit (internal_error "Failed to enforce room storage limit.")
      max_rooms_storage_bytes

-- SELECT id FROM rooms WHERE slug = ?1; no row is an error.
unfoldable pub select_room : Str → ChatStatement ℕ
select_room slug s = elim (find_row (has_slug slug) s.rooms) [
  | none ↦ err "QueryReturnedNoRows"
  | some r ↦ ok (r.id, s)
]

-- INSERT INTO messages, with the CHECK on the body and the key to the room; answers with the new row's id.
unfoldable pub insert_message_row : MessageRow → ChatStatement ℕ
unfolding sql_length
insert_message_row m s =
    if ltb max_message_len (sql_length m.body)
    then err "CHECK constraint failed"
    else if s.foreign_keys && not (has_row (λ r. r.id == m.room_id) s.rooms)
    then err "FOREIGN KEY constraint failed"
    else ok (m.id, record s { messages = s.messages ++ (m ∷ []) })

-- The row of the SELECT that joins a message with its room.
unfoldable pub message_view : List RoomRow → MessageRow → Option ChatMessage
message_view rooms m = elim (find_row (λ r. r.id == m.room_id) rooms) [
  | none ↦ none
  | some r ↦ some (record {
    id = m.id;
    room_id = r.slug;
    sender_id = m.sender_id;
    sender_name = m.sender_name;
    body = m.body;
    created_at = m.created_at;
    attachments = [];
  })
]

unfoldable pub joined_view : List RoomRow → Option MessageRow → Option ChatMessage
unfolding message_view
joined_view rooms none = none
joined_view rooms (some m) = message_view rooms m

-- SELECT … FROM messages m JOIN rooms r … WHERE m.id = ?1
unfoldable pub select_message : ℕ → ChatStatement ChatMessage
unfolding joined_view
select_message id s = elim (joined_view s.rooms (find_row (λ m. m.id == id) s.messages)) [
  | none ↦ err "QueryReturnedNoRows"
  | some v ↦ ok (v, s)
]

unfoldable pub insert_message : Pool → Assigned → Str → Str → Str → Str → ChatExec ChatMessage
unfolding validate_chat_message_body
insert_message pool new room_slug sender_id sender_name body = do
  room ← lift (required "room id is required" room_slug)
  sender ← lift (required "sender id is required" sender_id)
  name ← lift (required "sender name is required" sender_name)
  text ← lift (validate_chat_message_body body)
  connect pool
  room_db_id ← sql (λ e. validation_error "room id is required") (select_room room)
  id ← sql (internal_error "Failed to persist message.") (
      insert_message_row (record {
        id = new.id;
        room_id = room_db_id;
        sender_id = sender;
        sender_name = name;
        body = text;
        created_at = new.created_at;
      }))
  sql (internal_error "Failed to prepare inserted message query.") no_change
  inserted ← sql (internal_error "Failed to load inserted message.") (select_message id)
  enforce_messages_storage_limit (internal_error "Failed to enforce message storage limit.")
      max_messages_storage_bytes
  pure inserted

-- The DELETE of `delete_message_by_id`: of the message, in the first room with the slug, by its sender.
unfoldable pub is_own : Str → ℕ → Str → Store → MessageRow → Bool
is_own slug id sender s m =
    m.id == id
    && elim (find_row (has_slug slug) s.rooms) [ none ↦ false | some r ↦ m.room_id == r.id ]
    && str_eq m.sender_id sender

unfoldable pub delete_own : Str → ℕ → Str → ChatStatement ℕ
unfolding is_own delete_messages
delete_own slug id sender s =
    ok
      (count_rows (is_own slug id sender s) s.messages, delete_messages (is_own slug id sender s) s)

-- A message id of a client is an i64.
unfoldable pub positive_id : ℤ → ChatResult ℕ
positive_id (pos id) =
    if id == 0 then err (validation_error "message id must be positive") else ok id
positive_id (negsuc n) = err (validation_error "message id must be positive")

unfoldable pub delete_message_by_id : Pool → Str → ℤ → Str → ChatExec Bool
unfolding delete_own
delete_message_by_id pool room_slug message_id sender_id = do
  room ← lift (required "room id is required" room_slug)
  id ← lift (positive_id message_id)
  sender ← lift (required "sender id is required" sender_id)
  connect pool
  affected ← sql (internal_error "Failed to delete message.") (delete_own room id sender)
  pure (ltb 0 affected)
