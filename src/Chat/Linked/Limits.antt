-- ===== src/Chat/Linked/Limits.antt =====
-- The storage limits keep the references between the tables (server/src/chat/db.rs,
-- server/src/attachments/db.rs).
use month_erdmko_de.Base.{
  ℕ, zero, suc, ◌≡◌, subst, inl, inr, not, String, arith, ◌==◌, length, Option-cases,
}
use month_erdmko_de.Base.Int.{ℤ, pos, leb_ℤ}
use month_erdmko_de.Base.Result.{ok}
use month_erdmko_de.Chat.Events.{ChatError}
use month_erdmko_de.Chat.Store.{Store, pure, sql}
use month_erdmko_de.Chat.Store.Keeps.{
  StoreKeeps, StatementKeeps, StoreKeeps-bind, StoreKeeps-sql, StoreKeeps-if, StoreKeeps-pure,
  store_rules,
}
use month_erdmko_de.Chat.Eviction.{
  rooms_total, messages_total, attachments_total, least, delete_oldest_message,
  delete_emptiest_room, delete_oldest_attachment, older_message, older_attachment, emptier_room,
  enforce, enforce_messages_storage_limit, enforce_rooms_storage_limit,
  enforce_attachments_storage_limit, as_i64,
}
use month_erdmko_de.Chat.Linked.Rows.{
  IsGuarded, retain-where, delete_messages-IsGuarded, delete_rooms-IsGuarded,
}

total-IsGuarded : (total : Store → ℕ) → StatementKeeps IsGuarded (λ s. ok (total s, s))
total-IsGuarded total s a t e h = let same : s ≡ t = ground arith in subst IsGuarded same h

-- A deletion that keeps the references.
abbrev DeletionKeeps : (Store → ℕ × Store) → Type 0
DeletionKeeps delete = (s : Store) → IsGuarded s → IsGuarded (delete s).1

deletion-IsGuarded :
    (delete : Store → ℕ × Store)
    → DeletionKeeps delete
    → StatementKeeps IsGuarded (λ s. ok (delete s))
deletion-IsGuarded delete k s a t e h =
    let same : (delete s).1 ≡ t = ground arith in subst IsGuarded same (k s h)

enforce-StoreKeeps :
    (f : ℕ) (e : String → ChatError) (total : Store → ℕ) (delete : Store → ℕ × Store) (max : ℤ)
    → DeletionKeeps delete
    → StoreKeeps IsGuarded (enforce f e total delete max)
unfolding enforce
enforce-StoreKeeps zero e total delete max k = search store_rules
enforce-StoreKeeps (suc f) e total delete max k =
    StoreKeeps-bind (sql e (λ s. ok (total s, s))) _
      (StoreKeeps-sql e (λ s. ok (total s, s)) (total-IsGuarded total))
      (λ n. StoreKeeps-if (leb_ℤ (pos n) max) (pure tt) _ (StoreKeeps-pure tt) (
        StoreKeeps-bind (sql e (λ s. ok (delete s))) _
          (StoreKeeps-sql e (λ s. ok (delete s)) (deletion-IsGuarded delete k))
          (λ d.
            StoreKeeps-if (d == 0) (pure tt) (enforce f e total delete max) (StoreKeeps-pure tt)
              (enforce-StoreKeeps f e total delete max k))))

oldest_message-Keeps : DeletionKeeps delete_oldest_message
unfolding delete_oldest_message
oldest_message-Keeps s h = elim (Option-cases (least older_message s.messages)) [
  | inl e ↦ rw (e, delete_oldest_message) h
  | inr (m, e) ↦ rw (e, delete_oldest_message) (delete_messages-IsGuarded (λ n. n.id == m.id) s h)
]

emptiest_room-Keeps : DeletionKeeps delete_emptiest_room
unfolding delete_emptiest_room
emptiest_room-Keeps s h = elim (Option-cases (least (emptier_room s) s.rooms)) [
  | inl e ↦ rw (e, delete_emptiest_room) h
  | inr (r, e) ↦ rw (e, delete_emptiest_room) (delete_rooms-IsGuarded (λ q. q.id == r.id) s h)
]

oldest_attachment-Keeps : DeletionKeeps delete_oldest_attachment
unfolding delete_oldest_attachment
oldest_attachment-Keeps s h = elim (Option-cases (least older_attachment s.attachments)) [
  | inl e ↦ rw (e, delete_oldest_attachment) h
  | inr (a, e) ↦
      rw (e, delete_oldest_attachment)
        ((h.0.0, retain-where _ _ (λ b. not (b.id == a.id)) s.attachments (λ b k z. k) h.0.1), h.1)
]

pub rooms_limit-Keeps :
    (e : String → ChatError) (max : ℕ) → StoreKeeps IsGuarded (enforce_rooms_storage_limit e max)
unfolding enforce_rooms_storage_limit
rooms_limit-Keeps e max = record {
  at = λ c h.
      (enforce-StoreKeeps (suc (length c.store.rooms)) e rooms_total delete_emptiest_room
          (as_i64 max) emptiest_room-Keeps).at
        c h;
}

pub messages_limit-Keeps :
    (e : String → ChatError) (max : ℕ) → StoreKeeps IsGuarded (enforce_messages_storage_limit e max)
unfolding enforce_messages_storage_limit
messages_limit-Keeps e max = record {
  at = λ c h.
      (enforce-StoreKeeps (suc (length c.store.messages)) e messages_total delete_oldest_message
          (as_i64 max) oldest_message-Keeps).at
        c h;
}

pub attachments_limit-Keeps :
    (e : String → ChatError) (max : ℕ)
    → StoreKeeps IsGuarded (enforce_attachments_storage_limit e max)
unfolding enforce_attachments_storage_limit
attachments_limit-Keeps e max = record {
  at = λ c h.
      (enforce-StoreKeeps (suc (length c.store.attachments)) e attachments_total
          delete_oldest_attachment (as_i64 max) oldest_attachment-Keeps).at
        c h;
}
