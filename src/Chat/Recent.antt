-- ===== src/Chat/Recent.antt =====
-- server/src/chat/db.rs: the history of a room.
pub mod Counted
pub mod Bounded
use month_erdmko_de.Base.{
  ℕ, Bool, Option, none, some, List, [], ◌∷◌, map, ltb, ◌==◌, if◌then◌else◌, take, max,
}
use mathlib.Core.List.{reverse}
use month_erdmko_de.Base.Text.{Str, str_eq}
use month_erdmko_de.Base.Result.{ok}
use month_erdmko_de.Base.Rows.{retain, sort_by}
use month_erdmko_de.Chat.Store.{
  ◌>>=◌, ◌>>◌, ChatExec, ChatStatement, no_change, internal_error, pure, lift, sql,
}
use month_erdmko_de.Chat.Attachments.{AttachmentMeta, get_attachments_for_messages}
use month_erdmko_de.Chat.Messages.{ChatMessage, Pool, connect, required, message_view}

abbrev pub history_limit : ℕ
history_limit = 50

-- `limit.unwrap_or(HISTORY_LIMIT).max(1).min(HISTORY_LIMIT)`
unfoldable pub query_limit : Option ℕ → ℕ
query_limit none = history_limit
query_limit (some n) = if ltb history_limit (max n 1) then history_limit else max n 1

unfoldable pub keep_views : List (Option ChatMessage) → List ChatMessage
keep_views [] = []
keep_views (none ∷ vs) = keep_views vs
keep_views (some v ∷ vs) = v ∷ keep_views vs

abbrev pub in_room : Str → ChatMessage → Bool
in_room slug v = str_eq v.room_id slug

-- The rows of messages joined with their rooms, WHERE r.slug = ?1 ORDER BY m.id DESC LIMIT ?2.
unfoldable pub select_history : Str → ℕ → ChatStatement (List ChatMessage)
unfolding message_view keep_views
select_history slug limit s = ok (
  take limit (
      reverse (
        sort_by (λ v. v.id)
          (retain (in_room slug) (keep_views (map (message_view s.rooms) s.messages))))),
  s,
)

-- `att_map.remove(&msg.id)`, on the entries of a map, which has no key twice.
unfoldable pub taken_entry : ℕ → List (ℕ × List AttachmentMeta) → List AttachmentMeta
taken_entry id [] = []
taken_entry id ((k, metas) ∷ entries) = if k == id then metas else taken_entry id entries

unfoldable pub with_attachments :
    List (ℕ × List AttachmentMeta) → List ChatMessage → List ChatMessage
unfolding taken_entry
with_attachments entries [] = []
with_attachments entries (v ∷ vs) =
    record v { attachments = taken_entry v.id entries } ∷ with_attachments entries vs

unfoldable pub get_recent_messages : Pool → Str → Option ℕ → ChatExec (List ChatMessage)
unfolding query_limit select_history with_attachments
get_recent_messages pool room_slug limit = do
  room ← lift (required "room id is required" room_slug)
  connect pool
  sql (internal_error "Failed to prepare history query.") no_change
  rows ← sql (internal_error "Failed to load history.") (select_history room (query_limit limit))
  att_map ←
      get_attachments_for_messages (internal_error "Failed to load attachments.")
        (map (λ v. v.id) rows)
  pure (reverse (with_attachments att_map rows))
