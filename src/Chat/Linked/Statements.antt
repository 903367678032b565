-- ===== src/Chat/Linked/Statements.antt =====
-- Each statement keeps the references between the tables (server/src/chat/db.rs,
-- server/src/attachments/db.rs).
use month_erdmko_de.Base.{
  ℕ, ◌≡◌, sym, subst, inl, inr, [], ◌∷◌, ◌++◌, arith, ◌==◌, ltb, Bool-cases, Option-cases,
}
use month_erdmko_de.Base.Text.{Str}
use month_erdmko_de.Base.Rows.{has_row, find_row}
use month_erdmko_de.Chat.Store.{
  MessageRow, AttachmentRow, Assigned, no_change, ensure_foreign_keys, sql_length, delete_messages,
}
use month_erdmko_de.Chat.Store.Keeps.{StatementKeeps}
use month_erdmko_de.Chat.Attachments.{insert_attachment_row, select_meta}
use month_erdmko_de.Chat.Messages.{
  max_message_len, insert_room, select_room, insert_message_row, select_message, joined_view,
  delete_own, is_own, has_slug,
}
use month_erdmko_de.Chat.Linked.Rows.{
  IsLinked, IsGuarded, found-append, All-map, All-snoc, delete_messages-IsGuarded,
}

pub insert_room-IsGuarded :
    (new : Assigned) (slug : Str) → StatementKeeps IsGuarded (insert_room new slug)
unfolding insert_room
insert_room-IsGuarded new slug s a t e h = elim (Bool-cases (has_row (has_slug slug) s.rooms)) [
  | inl there ↦ let same : s ≡ t = ground arith in subst IsGuarded same h
  | inr fresh ↦
      let same : s.rooms ++ (record { id = new.id; slug = slug; created_at = new.created_at } ∷ [])
          ≡ t.rooms =
        ground arith in
      let m : s.messages ≡ t.messages = ground arith in
      let k : s.attachments ≡ t.attachments = ground arith in
      let on : s.foreign_keys ≡ t.foreign_keys = ground arith in
      rw (sym same, sym m, sym k, sym on)
        ((All-map _ _ s.messages (λ m h. found-append _ s.rooms _ h) h.0.0, h.0.1), h.1)
]

pub insert_message_row-IsGuarded :
    (m : MessageRow) → StatementKeeps IsGuarded (insert_message_row m)
unfolding insert_message_row
insert_message_row-IsGuarded r s a t e h =
    elim (Bool-cases (ltb max_message_len (sql_length r.body))) [
      | inl long ↦ absurd (ground arith)
      | inr short ↦ elim (Bool-cases (has_row (λ q. q.id == r.room_id) s.rooms)) [
        | inr none_there ↦ absurd (ground (arith, h.1))
        | inl there ↦
            let i : s.rooms ≡ t.rooms = ground arith in
            let m : s.messages ++ (r ∷ []) ≡ t.messages = ground arith in
            let k : s.attachments ≡ t.attachments = ground arith in
            let on : s.foreign_keys ≡ t.foreign_keys = ground arith in
            rw (sym i, sym m, sym k, sym on)
              (
                (
                  All-snoc _ s.messages r h.0.0 there,
                  All-map _ _ s.attachments (λ b f. found-append _ s.messages (r ∷ []) f) h.0.1,
                ),
                h.1,
              )
      ]
    ]

pub insert_attachment_row-IsGuarded :
    (a : AttachmentRow) → StatementKeeps IsGuarded (insert_attachment_row a)
unfolding insert_attachment_row
insert_attachment_row-IsGuarded r s a t e h =
    elim (Bool-cases (has_row (λ m. m.id == r.message_id) s.messages)) [
      | inr none_there ↦ absurd (ground (arith, h.1))
      | inl there ↦
          let i : s.rooms ≡ t.rooms = ground arith in
          let m : s.messages ≡ t.messages = ground arith in
          let k : s.attachments ++ (r ∷ []) ≡ t.attachments = ground arith in
          let on : s.foreign_keys ≡ t.foreign_keys = ground arith in
          rw (sym i, sym m, sym k, sym on) ((h.0.0, All-snoc _ s.attachments r h.0.1 there), h.1)
    ]

pub delete_own-IsGuarded :
    (slug : Str) (id : ℕ) (sender : Str) → StatementKeeps IsGuarded (delete_own slug id sender)
unfolding delete_own
delete_own-IsGuarded slug id sender s a t e h =
    let same : delete_messages (is_own slug id sender s) s ≡ t = ground arith in
    subst IsGuarded same (delete_messages-IsGuarded (is_own slug id sender s) s h)

pub no_change-IsGuarded : StatementKeeps IsGuarded no_change
no_change-IsGuarded s a t e h = let same : s ≡ t = ground arith in subst IsGuarded same h

pub select_room-IsGuarded : (slug : Str) → StatementKeeps IsGuarded (select_room slug)
unfolding select_room
select_room-IsGuarded slug s a t e h = elim (Option-cases (find_row (has_slug slug) s.rooms)) [
  | inl n ↦ absurd (ground arith)
  | inr (r, n) ↦ let same : s ≡ t = ground arith in subst IsGuarded same h
]

pub select_message-IsGuarded : (id : ℕ) → StatementKeeps IsGuarded (select_message id)
unfolding select_message
select_message-IsGuarded id s a t e h =
    elim (Option-cases (joined_view s.rooms (find_row (λ m. m.id == id) s.messages))) [
      | inl n ↦ absurd (ground arith)
      | inr (r, n) ↦ let same : s ≡ t = ground arith in subst IsGuarded same h
    ]

pub select_meta-IsGuarded : (id : ℕ) → StatementKeeps IsGuarded (select_meta id)
unfolding select_meta
select_meta-IsGuarded id s a t e h =
    elim (Option-cases (find_row (λ m. m.id == id) s.attachments)) [
      | inl n ↦ absurd (ground arith)
      | inr (r, n) ↦ let same : s ≡ t = ground arith in subst IsGuarded same h
    ]

-- The pragma keeps the references, and turns the foreign keys on.
pub pragma-IsLinked : StatementKeeps IsLinked ensure_foreign_keys
unfolding ensure_foreign_keys
pragma-IsLinked s a t e h =
    let i : s.rooms ≡ t.rooms = ground arith in
    let m : s.messages ≡ t.messages = ground arith in
    let k : s.attachments ≡ t.attachments = ground arith in rw (sym i, sym m, sym k) h
