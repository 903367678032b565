-- ===== src/Chat/Linked.antt =====
-- References between the tables of the chat (server/src/chat/db.rs, server/src/attachments/db.rs).
pub mod Rows
pub mod Statements
pub mod Limits
use month_erdmko_de.Base.{
  ℕ, zero, suc, ◌≡◌, refl, sym, ap, subst, inl, inr, Bool, true, false, not, ◌&&◌, Option, none,
  some, List, [], ◌∷◌, ◌++◌, String, arith, ◌==◌, if◌then◌else◌, length, ltb, leb, All, Bool-cases,
  Option-cases,
}
use month_erdmko_de.Base.Text.{Str}
use month_erdmko_de.Base.Int.{ℤ, pos, leb_ℤ}
use month_erdmko_de.Base.Result.{ok, err}
use month_erdmko_de.Base.Rows.{retain, has_row, find_row}
use month_erdmko_de.Attachments.Uploads.{Bytes}
use month_erdmko_de.Chat.Events.{ChatError}
use month_erdmko_de.Chat.Store.{
  ensure_foreign_keys, fail, lift, ◌>>=◌, ◌>>◌, run_statement, conclude, next_fault, Store, RoomRow,
  MessageRow, AttachmentRow, Assigned, ChatConn, ChatExec, ChatStatement, pure, sql, no_change,
  sql_length, delete_messages, delete_rooms,
}
use month_erdmko_de.Chat.Store.Keeps.{
  StoreKeeps, StatementKeeps, StoreKeeps-bind, StoreKeeps-opened, StoreKeeps-lift, StoreKeeps-sql,
  StoreKeeps-if, StoreKeeps-pure, store_rules,
}
use month_erdmko_de.Chat.Eviction.{
  rooms_total, messages_total, attachments_total, least, delete_oldest_message,
  delete_emptiest_room, delete_oldest_attachment, older_message, older_attachment, emptier_room,
  enforce, enforce_messages_storage_limit, enforce_rooms_storage_limit,
  enforce_attachments_storage_limit, as_i64,
}
use month_erdmko_de.Chat.Attachments.{
  insert_attachment_row, insert_attachment, select_meta, persist_upload,
}
use month_erdmko_de.Chat.Messages.{
  Pool, max_message_len, connect, connected, worker_failed, unavailable, insert_room, select_room,
  insert_message_row, select_message, joined_view, delete_own, is_own, create_room_if_not_exists,
  insert_message, delete_message_by_id, has_slug, required,
}
use month_erdmko_de.Chat.Linked.Rows.{
  IsLinked, IsGuarded, retain-where, found-append, All-map, All-snoc, delete_messages-IsGuarded,
  delete_rooms-IsGuarded,
}
use month_erdmko_de.Chat.Linked.Statements.{
  insert_room-IsGuarded, insert_message_row-IsGuarded, insert_attachment_row-IsGuarded,
  delete_own-IsGuarded, no_change-IsGuarded, select_room-IsGuarded, select_message-IsGuarded,
  select_meta-IsGuarded, pragma-IsLinked,
}
use month_erdmko_de.Chat.Linked.Limits.{
  rooms_limit-Keeps, messages_limit-Keeps, attachments_limit-Keeps,
}

-- A statement that has turned the foreign keys on guards the references from there on.
pragma-opens :
    (e : String → ChatError) (c : ChatConn) (a : Unit {0})
    → (sql e ensure_foreign_keys c).0 ≡ ok a
    → IsLinked c.store
    → IsGuarded (sql e ensure_foreign_keys c).1.store
unfolding ensure_foreign_keys sql run_statement conclude
pragma-opens e c a h linked = elim (Option-cases (next_fault c.faults)) [
  | inl quiet ↦ rw quiet (linked, refl)
  | inr (why, failed) ↦ absurd (ground arith)
]

connect-Keeps : (pool : Pool) → StoreKeeps IsLinked (connect pool)
unfolding connect
connect-Keeps connected = search (store_rules, pragma-IsLinked)
connect-Keeps (worker_failed e) = search store_rules
connect-Keeps (unavailable e) = search store_rules

connect-opens :
    (pool : Pool) (c : ChatConn) (a : Unit {0})
    → (connect pool c).0 ≡ ok a
    → IsLinked c.store
    → IsGuarded (connect pool c).1.store
unfolding connect fail
connect-opens connected c a h linked = pragma-opens _ c a h linked
connect-opens (worker_failed e) c a h linked = absurd (ground arith)
connect-opens (unavailable e) c a h linked = absurd (ground arith)

-- Behind the connection, a chain that keeps the references on a guarded connection keeps them.
connected-Keeps :
    {A : Type 0} (pool : Pool) (m : ChatExec A)
    → StoreKeeps IsGuarded m
    → StoreKeeps IsLinked (connect pool >> m)
connected-Keeps pool m k =
    StoreKeeps-opened (connect pool) (λ u. m) (connect-Keeps pool) (connect-opens pool) (λ s h. h.0)
      (λ u. k)

create_room-Keeps :
    (pool : Pool) (new : Assigned) (slug : Str)
    → StoreKeeps IsLinked (create_room_if_not_exists pool new slug)
unfolding create_room_if_not_exists
create_room-Keeps pool new slug =
    StoreKeeps-bind (lift (required "room id is required" slug)) _ (StoreKeeps-lift _) (λ room.
      connected-Keeps pool _
        (search (store_rules, insert_room-IsGuarded, rooms_limit-Keeps) depth 12))

insert_message-Keeps :
    (pool : Pool) (new : Assigned) (slug sender name body : Str)
    → StoreKeeps IsLinked (insert_message pool new slug sender name body)
unfolding insert_message
insert_message-Keeps pool new slug sender name body =
    StoreKeeps-bind _ _ (StoreKeeps-lift _) (λ room.
      StoreKeeps-bind _ _ (StoreKeeps-lift _) (λ from.
        StoreKeeps-bind _ _ (StoreKeeps-lift _) (λ named.
          StoreKeeps-bind _ _ (StoreKeeps-lift _) (λ text. connected-Keeps pool _ (
            search
              (
                store_rules, select_room-IsGuarded, insert_message_row-IsGuarded,
                no_change-IsGuarded, select_message-IsGuarded, messages_limit-Keeps,
              )
              depth 24)))))

delete_message-Keeps :
    (pool : Pool) (slug : Str) (id : ℤ) (sender : Str)
    → StoreKeeps IsLinked (delete_message_by_id pool slug id sender)
unfolding delete_message_by_id
delete_message-Keeps pool slug id sender = StoreKeeps-bind _ _ (StoreKeeps-lift _) (λ room.
    StoreKeeps-bind _ _ (StoreKeeps-lift _) (λ i.
      StoreKeeps-bind _ _ (StoreKeeps-lift _)
        (λ own. connected-Keeps pool _ (search (store_rules, delete_own-IsGuarded) depth 14))))

persist_upload-Keeps :
    (e : String → ChatError) (failed : Option String) (new : Assigned) (id : ℕ)
    (filename mime : Str) (chunks : List Bytes)
    → StoreKeeps IsLinked (persist_upload e failed new id filename mime chunks)
unfolding persist_upload insert_attachment
persist_upload-Keeps e (some text) new id filename mime chunks = search store_rules
persist_upload-Keeps e none new id filename mime chunks =
    StoreKeeps-opened {Q = IsGuarded} (sql e ensure_foreign_keys) _
      (StoreKeeps-sql e _ pragma-IsLinked) (pragma-opens e) (λ s h. h.0)
      (λ u.
        search
          (
            store_rules, insert_attachment_row-IsGuarded, select_meta-IsGuarded,
            attachments_limit-Keeps,
          )
          depth 14)

-- The writing operations of the chat database. The pool may hand out any connection, with the foreign
-- keys on or off.
pub data StoreOp : Type 0 where
  take_connection : Bool → StoreOp
  create_room : Pool → Assigned → Str → StoreOp
  post_message : Pool → Assigned → Str → Str → Str → Str → StoreOp
  delete_message : Pool → Str → ℤ → Str → StoreOp
  store_upload :
      (String → ChatError) → Option String → Assigned → ℕ → Str → Str → List Bytes → StoreOp

-- The operation, without its result.
unfoldable pub perform : StoreOp → ChatConn → ChatConn
perform (take_connection on) c = record c { store = record c.store { foreign_keys = on } }
perform (create_room pool new slug) c = (create_room_if_not_exists pool new slug c).1
perform (post_message pool new slug sender name body) c =
    (insert_message pool new slug sender name body c).1
perform (delete_message pool slug id sender) c = (delete_message_by_id pool slug id sender c).1
perform (store_upload e failed new id filename mime chunks) c =
    (persist_upload e failed new id filename mime chunks c).1

unfoldable pub run : List StoreOp → ChatConn → ChatConn
run [] c = c
run (o ∷ os) c = run os (perform o c)

-- After any sequence of the writing operations, on connections of the pool that have the foreign keys
-- on or off when they are taken, and whatever statements fail, each message is in a room and each
-- attachment belongs to a message, if that was so before.
pub run-IsLinked : (os : List StoreOp) (c : ChatConn) → IsLinked c.store → IsLinked (run os c).store
unfolding run perform
run-IsLinked [] c h = h
run-IsLinked (take_connection on ∷ os) c h = run-IsLinked os _ h
run-IsLinked (create_room pool new slug ∷ os) c h =
    run-IsLinked os _ ((create_room-Keeps pool new slug).at c h)
run-IsLinked (post_message pool new slug sender name body ∷ os) c h =
    run-IsLinked os _ ((insert_message-Keeps pool new slug sender name body).at c h)
run-IsLinked (delete_message pool slug id sender ∷ os) c h =
    run-IsLinked os _ ((delete_message-Keeps pool slug id sender).at c h)
run-IsLinked (store_upload e failed new id filename mime chunks ∷ os) c h =
    run-IsLinked os _ ((persist_upload-Keeps e failed new id filename mime chunks).at c h)
