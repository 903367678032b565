-- ===== src/Chat/Attachments.antt =====
-- server/src/attachments/db.rs, and the calls of it in server/src/attachments/service.rs.
use month_erdmko_de.Base.{
  ℕ, not, ◌*◌, Bool, ◌&&◌, Option, none, some, List, [], ◌∷◌, ◌++◌, map, String, ◌==◌,
  if◌then◌else◌, length,
}
use month_erdmko_de.Base.Text.{Str, str_eq}
use month_erdmko_de.Base.Result.{ok, err}
use month_erdmko_de.Base.Rows.{find_row, retain, has_row, sort_by}
use month_erdmko_de.Attachments.Uploads.{Bytes}
use month_erdmko_de.Attachments.Chunks.{concat}
use month_erdmko_de.Chat.Events.{ChatError}
use month_erdmko_de.Chat.Store.{
  Store, RoomRow, MessageRow, AttachmentRow, Assigned, ChatExec, ChatStatement, no_change,
  ensure_foreign_keys, pure, fail, ◌>>=◌, ◌>>◌, sql,
}
use month_erdmko_de.Chat.Eviction.{enforce_attachments_storage_limit}

abbrev pub max_attachments_storage_bytes : ℕ
max_attachments_storage_bytes = 1024 * 1024 * 1024

pub record AttachmentMeta : Type 0 where
  pub id : ℕ
  pub message_id : ℕ
  pub filename : Str
  pub size : ℕ
  pub mime_type : Str
  pub created_at : ℕ

-- `row_to_meta`
abbrev pub row_to_meta : AttachmentRow → AttachmentMeta
row_to_meta a = record {
  id = a.id;
  message_id = a.message_id;
  filename = a.filename;
  size = a.size;
  mime_type = a.mime_type;
  created_at = a.created_at;
}

-- INSERT INTO attachments, with the foreign key to the message.
unfoldable pub insert_attachment_row : AttachmentRow → ChatStatement ℕ
insert_attachment_row a s =
    if s.foreign_keys && not (has_row (λ m. m.id == a.message_id) s.messages)
    then err "FOREIGN KEY constraint failed"
    else ok (a.id, record s { attachments = s.attachments ++ (a ∷ []) })

-- The row of an id.
unfoldable pub select_meta : ℕ → ChatStatement AttachmentMeta
select_meta id s = elim (find_row (λ a. a.id == id) s.attachments) [
  | none ↦ err "QueryReturnedNoRows"
  | some a ↦ ok (row_to_meta a, s)
]

-- An attachment with its data.
abbrev pub Attachment : Type 0
Attachment = AttachmentMeta × List ℕ

-- The error of each statement passes through `e`: the functions of this file return it as it is.
module _ (e : String → ChatError) where
  unfoldable pub insert_attachment : Assigned → ℕ → Str → ℕ → Str → List ℕ → ChatExec Attachment
  insert_attachment new message_id filename size mime_type data_bytes = do
    id ← sql e (
        insert_attachment_row (record {
          id = new.id;
          message_id = message_id;
          filename = filename;
          size = size;
          mime_type = mime_type;
          blob = data_bytes;
          created_at = new.created_at;
        }))
    meta ← sql e (select_meta id)
    pure (meta, data_bytes)

  -- SELECT … WHERE message_id = ?1 ORDER BY id ASC
  unfoldable pub get_attachments_for_message : ℕ → ChatExec (List AttachmentMeta)
  get_attachments_for_message message_id =
      sql e no_change
      >> sql e (λ s. ok (
        map row_to_meta (
            sort_by (λ a. a.id)
              (retain (λ (a : AttachmentRow). a.message_id == message_id) s.attachments)),
        s,
      ))

-- The attachment belongs to a message of a room with the slug.
unfoldable pub is_in_room : Str → Store → AttachmentRow → Bool
is_in_room slug s a =
    has_row
      (λ (m : MessageRow).
        m.id == a.message_id
        && has_row (λ (r : RoomRow). r.id == m.room_id && str_eq r.slug slug) s.rooms)
      s.messages

abbrev pub with_data : Option AttachmentRow → Option Attachment
with_data none = none
with_data (some a) = some (row_to_meta a, a.blob)

-- `map.entry(meta.message_id).or_default().push(meta)`
unfoldable pub push_meta :
    AttachmentMeta → List (ℕ × List AttachmentMeta) → List (ℕ × List AttachmentMeta)
push_meta meta [] = (meta.message_id, meta ∷ []) ∷ []
push_meta meta ((id, metas) ∷ entries) =
    let rest = push_meta meta entries in
    if id == meta.message_id then (id, metas ++ (meta ∷ [])) ∷ entries else (id, metas) ∷ rest

unfoldable pub push_all :
    List AttachmentMeta → List (ℕ × List AttachmentMeta) → List (ℕ × List AttachmentMeta)
unfolding push_meta
push_all [] entries = entries
push_all (meta ∷ metas) entries = push_all metas (push_meta meta entries)

unfoldable pub contains_id : List ℕ → ℕ → Bool
contains_id ids id = has_row (λ i. i == id) ids

module _ (e : String → ChatError) where
  unfoldable pub get_attachment_data : ℕ → Str → ChatExec (Option Attachment)
  unfolding is_in_room
  get_attachment_data attachment_id room_slug = sql e (λ s. ok (
    with_data (
        find_row (λ (a : AttachmentRow). a.id == attachment_id && is_in_room room_slug s a)
          s.attachments),
    s,
  ))

  -- The map from a message to its attachments, as the list of its entries.
  unfoldable pub get_attachments_for_messages : List ℕ → ChatExec (List (ℕ × List AttachmentMeta))
  unfolding push_all contains_id
  get_attachments_for_messages [] = pure []
  get_attachments_for_messages (id ∷ ids) =
      sql e no_change
      >> sql e (λ s. ok (
        push_all
            (map row_to_meta (
              sort_by (λ a. a.id)
                (retain (λ (a : AttachmentRow). contains_id (id ∷ ids) a.message_id)
                  s.attachments)))
            [],
        s,
      ))

  -- `persist_upload`: the data are the chunks in a row. A block or a connection that fails is the
  -- text of its error.
  unfoldable pub persist_upload :
      Option String → Assigned → ℕ → Str → Str → List Bytes → ChatExec AttachmentMeta
  unfolding insert_attachment ensure_foreign_keys
  persist_upload (some failed) new message_id filename mime_type chunks = fail (e failed)
  persist_upload none new message_id filename mime_type chunks = do
    sql e ensure_foreign_keys
    let data_bytes = concat chunks
    att ← insert_attachment e new message_id filename (length data_bytes) mime_type data_bytes
    enforce_attachments_storage_limit e max_attachments_storage_bytes
    pure att.0
