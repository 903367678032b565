-- ===== src/Tests/Limits.antt =====
-- The theorems on the chat database at concrete inputs.
use month_erdmko_de.Base.{
  arith, false, none, some, length, All, ◌≤◌, ◌≡◌, refl, Bool, true, false, List, [], ◌∷◌, String,
  drop,
}
use month_erdmko_de.Base.Int.{pos}
use month_erdmko_de.Base.Text.{codes, str_eq, trim}
use month_erdmko_de.Base.Result.{ok}
use month_erdmko_de.Tests.Data.{parts}
use month_erdmko_de.Base.Rows.{sort_by}
use month_erdmko_de.Chat.Events.{ChatError}
use month_erdmko_de.Chat.Store.{
  ◌>>=◌, sql, lift, pure, Store, MessageRow, internal_error, sql_length,
}
use month_erdmko_de.Chat.Eviction.{
  messages_total, rooms_total, attachments_total, enforce_messages_storage_limit,
  enforce_rooms_storage_limit, enforce_attachments_storage_limit,
}
use month_erdmko_de.Chat.Eviction.Bounded.{quiet, storage_limits-bounded}
use month_erdmko_de.Chat.Eviction.Fitted.{fit, storage_limits-fit}
use month_erdmko_de.Chat.Attachments.{get_attachments_for_messages}
use month_erdmko_de.Chat.Messages.{connected, ChatMessage, required, connect}
use month_erdmko_de.Chat.Recent.{get_recent_messages, query_limit, select_history, with_attachments}
use month_erdmko_de.Chat.Recent.Bounded.{history_length, get_recent_messages-bounded}
use month_erdmko_de.Chat.Linked.Rows.{IsLinked}
use month_erdmko_de.Chat.Linked.{
  StoreOp, take_connection, create_room, post_message, delete_message, store_upload, run,
  run-IsLinked,
}

-- A room with two messages, the first with an attachment.
abbrev store : Store
store = record {
  rooms = record { id = 1; slug = codes "may"; created_at = 5 } ∷ [];
  messages =
      record {
        id = 1;
        room_id = 1;
        sender_id = codes "a";
        sender_name = codes "Ann";
        body = codes "hello";
        created_at = 6;
      }
      ∷ record {
        id = 2;
        room_id = 1;
        sender_id = codes "b";
        sender_name = codes "Bob";
        body = codes "hi";
        created_at = 7;
      }
      ∷ [];
  attachments =
      record {
        id = 1;
        message_id = 1;
        filename = codes "x";
        size = 3;
        mime_type = codes "text/plain";
        blob = 1 ∷ 2 ∷ 3 ∷ [];
        created_at = 6;
      }
      ∷ [];
  foreign_keys = false;
}

abbrev failed : String → ChatError
failed = internal_error "Failed to enforce message storage limit."

storage_limits-bounded_example :
    (let r = enforce_messages_storage_limit failed 4 (quiet store) in
      (r.0 ≡ ok tt) × (messages_total r.1.store ≤ 4) × (r.1.faults ≡ []))
    × (let r = enforce_rooms_storage_limit failed 4 (quiet store) in
        (r.0 ≡ ok tt) × (rooms_total r.1.store ≤ 4) × (r.1.faults ≡ []))
    × (let r = enforce_attachments_storage_limit failed 4 (quiet store) in
        (r.0 ≡ ok tt) × (attachments_total r.1.store ≤ 4) × (r.1.faults ≡ []))
storage_limits-bounded_example = storage_limits-bounded failed 4 store

storage_limits-fit_example :
    ((enforce_messages_storage_limit failed 4 (quiet store)).1.store.messages
      ≡ fit (λ m. sql_length m.body) 4 store.messages)
    × ((enforce_attachments_storage_limit failed 4 (quiet store)).1.store.attachments
        ≡ fit (λ a. a.size) 4 store.attachments)
storage_limits-fit_example =
    storage_limits-fit failed 4 store (omega arith) (((refl, refl), tt), (tt, tt)) (tt, tt)

-- The fit drops the first message.
fit-drops : fit (λ (m : MessageRow). sql_length m.body) 4 store.messages ≡ drop 1 store.messages
unfolding fit sql_length
fit-drops = refl

abbrev operations : List StoreOp
operations =
    take_connection true
    ∷ create_room connected (record { id = 2; created_at = 8 }) (codes "june")
    ∷ post_message connected (record { id = 3; created_at = 9 }) (codes "june") (codes "a")
        (codes "Ann") (codes "hey")
    ∷ delete_message connected (codes "may") (pos 1) (codes "a")
    ∷ take_connection false
    ∷ store_upload failed none (record { id = 2; created_at = 10 }) 3 (codes "y")
        (codes "text/plain") ((1 ∷ []) ∷ [])
    ∷ []

run-IsLinked_example : IsLinked (run operations (quiet store)).store
run-IsLinked_example = run-IsLinked operations (quiet store) ((refl, (refl, tt)), (refl, tt))

abbrev of_ann : MessageRow → Bool
of_ann m = str_eq m.sender_id (codes "a")

-- The newest message of the room.
abbrev newest : List ChatMessage
newest =
    record {
      id = 2;
      room_id = codes "may";
      sender_id = codes "b";
      sender_name = codes "Bob";
      body = codes "hi";
      created_at = 7;
      attachments = [];
    }
    ∷ []

newest-read : (get_recent_messages connected (codes " may") (some 1) (quiet store)).0 ≡ ok newest
unfolding get_recent_messages query_limit select_history with_attachments lift pure parts ◌>>=◌
    required connect sql get_attachments_for_messages sort_by
newest-read = refl

get_recent_messages-bounded_example :
    (length newest ≡ history_length (trim (codes " may")) (some 1) store)
    × All (λ (v : ChatMessage). v.room_id ≡ trim (codes " may")) newest
get_recent_messages-bounded_example =
    get_recent_messages-bounded connected (codes " may") (some 1) (quiet store) newest newest-read
