-- ===== src/Chat/Eviction.antt =====
-- The storage limits: `enforce_messages_storage_limit` and `enforce_rooms_storage_limit`
-- (server/src/chat/db.rs), `enforce_attachments_storage_limit` (server/src/attachments/db.rs). Each
-- loop deletes the first row of an order while the total is above the limit; its fuel is one more
-- than the rows there are, which `storage_limits-bounded` shows to be enough.
pub mod Bounded
pub mod Fitted
use month_erdmko_de.Base.{
  ℕ, zero, suc, ◌+◌, Bool, true, false, not, ◌&&◌, ◌||◌, Option, none, some, List, [], ◌∷◌, String,
  ltb, leb, ◌==◌, if◌then◌else◌, length,
}
use month_erdmko_de.Base.Int.{ℤ, pos, leb_ℤ, wrap_i64}
use month_erdmko_de.Base.Result.{ok}
use month_erdmko_de.Base.Rows.{count_rows, retain}
use month_erdmko_de.Chat.Events.{ChatError}
use month_erdmko_de.Chat.Store.{
  Store, RoomRow, MessageRow, AttachmentRow, sql_length, delete_messages, delete_rooms, ChatExec,
  ChatStatement, pure, ◌>>=◌, ◌>>◌, sql,
}

-- The row that an ORDER BY with LIMIT 1 selects; the earlier one of rows that the order ties.
unfoldable pub least : {A : Type 0} → (A → A → Bool) → List A → Option A
least before [] = none
least before (x ∷ xs) = elim (least before xs) [
  | none ↦ some x
  | some y ↦ if before y x then some y else some x
]

-- SUM of a column; 0 for no rows, as COALESCE has it.
unfoldable pub sum_of : {A : Type 0} → (A → ℕ) → List A → ℕ
sum_of f [] = 0
sum_of f (x ∷ xs) = f x + sum_of f xs

unfoldable pub messages_total : Store → ℕ
unfolding sum_of sql_length
messages_total s = sum_of (λ (m : MessageRow). sql_length m.body) s.messages

unfoldable pub rooms_total : Store → ℕ
unfolding sum_of sql_length
rooms_total s = sum_of (λ (r : RoomRow). sql_length r.slug) s.rooms

unfoldable pub attachments_total : Store → ℕ
unfolding sum_of
attachments_total s = sum_of (λ (a : AttachmentRow). a.size) s.attachments

-- ORDER BY id ASC
abbrev pub older_message : MessageRow → MessageRow → Bool
older_message m n = ltb m.id n.id

-- ORDER BY created_at ASC, id ASC
abbrev pub older_attachment : AttachmentRow → AttachmentRow → Bool
older_attachment a b =
    ltb a.created_at b.created_at || a.created_at == b.created_at && ltb a.id b.id

abbrev pub messages_in : Store → RoomRow → ℕ
messages_in s r = count_rows (λ (m : MessageRow). m.room_id == r.id) s.messages

-- ORDER BY COUNT(m.id) ASC, r.created_at ASC, r.id ASC
abbrev pub emptier_room : Store → RoomRow → RoomRow → Bool
emptier_room s r q =
    ltb (messages_in s r) (messages_in s q)
    || messages_in s r == messages_in s q
      && (ltb r.created_at q.created_at || r.created_at == q.created_at && ltb r.id q.id)

-- The DELETE of a round: the number of rows deleted, and the store behind it.
unfoldable pub delete_oldest_message : Store → ℕ × Store
unfolding least delete_messages
delete_oldest_message s = elim (least older_message s.messages) [
  | none ↦ (0, s)
  | some m ↦ (count_rows (λ n. n.id == m.id) s.messages, delete_messages (λ n. n.id == m.id) s)
]

unfoldable pub delete_emptiest_room : Store → ℕ × Store
unfolding least delete_rooms
delete_emptiest_room s = elim (least (emptier_room s) s.rooms) [
  | none ↦ (0, s)
  | some r ↦ (count_rows (λ q. q.id == r.id) s.rooms, delete_rooms (λ q. q.id == r.id) s)
]

unfoldable pub delete_oldest_attachment : Store → ℕ × Store
unfolding least
delete_oldest_attachment s = elim (least older_attachment s.attachments) [
  | none ↦ (0, s)
  | some a ↦ (
    count_rows (λ b. b.id == a.id) s.attachments,
    record s { attachments = retain (λ b. not (b.id == a.id)) s.attachments },
  )
]

-- `max_bytes as i64`
unfoldable pub as_i64 : ℕ → ℤ
unfolding wrap_i64
as_i64 n = wrap_i64 (pos n)

-- The loop, on fuel: the query for the total, and the deletion of one row if it is above the limit.
unfoldable pub enforce :
    ℕ → (String → ChatError) → (Store → ℕ) → (Store → ℕ × Store) → ℤ → ChatExec (Unit {0})
unfolding leb_ℤ
enforce zero e total delete max_bytes = pure tt
enforce (suc f) e total delete max_bytes = do
  current_total ← sql e (λ s. ok (total s, s))
  if leb_ℤ (pos current_total) max_bytes then pure tt else do
    deleted ← sql e (λ s. ok (delete s))
    if deleted == 0 then pure tt else enforce f e total delete max_bytes

unfoldable pub enforce_messages_storage_limit : (String → ChatError) → ℕ → ChatExec (Unit {0})
unfolding enforce as_i64
enforce_messages_storage_limit e max_bytes c =
    enforce (suc (length c.store.messages)) e messages_total delete_oldest_message
      (as_i64 max_bytes) c

unfoldable pub enforce_rooms_storage_limit : (String → ChatError) → ℕ → ChatExec (Unit {0})
unfolding enforce as_i64
enforce_rooms_storage_limit e max_bytes c =
    enforce (suc (length c.store.rooms)) e rooms_total delete_emptiest_room (as_i64 max_bytes) c

unfoldable pub enforce_attachments_storage_limit : (String → ChatError) → ℕ → ChatExec (Unit {0})
unfolding enforce as_i64
enforce_attachments_storage_limit e max_bytes c =
    enforce (suc (length c.store.attachments)) e attachments_total delete_oldest_attachment
      (as_i64 max_bytes) c
