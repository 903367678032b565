-- ===== src/Chat/Eviction/Bounded.antt =====
-- The loops of the storage limits end with a total within the limit (server/src/chat/db.rs,
-- server/src/attachments/db.rs).
use month_erdmko_de.Base.{
  ℕ, true, zero, suc, ◌≤◌, ◌<◌, ◌≡◌, ◌≢◌, refl, ap, ◌∙◌, inl, inr, Bool, not, none, some, List, [],
  ◌∷◌, String, arith, ◌==◌, if◌then◌else◌, length, Bool-cases, Option-cases,
}
use month_erdmko_de.Base.Int.{ℤ, pos, leb_ℤ}
use month_erdmko_de.Base.Result.{ok}
use month_erdmko_de.Base.Rows.{count_rows, retain, length-retain}
use month_erdmko_de.Chat.Events.{ChatError}
use month_erdmko_de.Chat.Store.{
  Store, RoomRow, MessageRow, AttachmentRow, delete_messages, delete_rooms, ChatConn, pure, ◌>>=◌,
  sql, run_statement, conclude, next_fault, rest_faults,
}
use month_erdmko_de.Chat.Eviction.{
  least, sum_of, messages_total, rooms_total, attachments_total, older_message, older_attachment,
  emptier_room, delete_oldest_message, delete_emptiest_room, delete_oldest_attachment, enforce,
  as_i64, enforce_messages_storage_limit, enforce_rooms_storage_limit,
  enforce_attachments_storage_limit,
}

-- A connection on which no statement fails.
abbrev pub quiet : Store → ChatConn
quiet s = record { store = s; faults = [] }

-- A proof that steps through a chain names this on its `unfolding` line, and so opens the parts.
unfoldable pub quiet_chain : Unit {0}
unfolding pure ◌>>=◌ sql run_statement conclude next_fault rest_faults
quiet_chain = tt

-- One round of the loop, where nothing fails.
pub enforce-round :
    (f : ℕ) (e : String → ChatError) (total : Store → ℕ) (delete : Store → ℕ × Store) (max : ℤ)
    (s : Store)
    → enforce (suc f) e total delete max (quiet s) ≡ (
        if leb_ℤ (pos (total s)) max
        then (ok tt, quiet s)
        else if (delete s).0 == 0
        then (ok tt, quiet (delete s).1)
        else enforce f e total delete max (quiet (delete s).1))
unfolding enforce quiet_chain
enforce-round f e total delete max s = elim (Bool-cases (leb_ℤ (pos (total s)) max)) [
  | inl fits ↦ rw fits refl
  | inr over ↦ elim (Bool-cases ((delete s).0 == 0)) [
    | inl nothing ↦ rw (over, nothing) refl
    | inr deleted ↦ rw (over, deleted) refl
  ]
]

-- A deletion that deletes nothing leaves no total, and any other makes the table shorter.
abbrev pub Shrinks : (Store → ℕ) → (Store → ℕ × Store) → (Store → ℕ) → Type 0
Shrinks total delete rows =
    (s : Store)
    → (((delete s).0 ≡ 0) → total (delete s).1 ≡ 0)
      × (((delete s).0 ≢ 0) → rows (delete s).1 < rows s)

-- Fuel above the number of rows is enough.
pub enforce-bounded :
    (f : ℕ) (e : String → ChatError) (total : Store → ℕ) (delete : Store → ℕ × Store)
    (rows : Store → ℕ) (limit : ℤ) (max : ℕ) (s : Store)
    → ((n : ℕ) → leb_ℤ (pos n) limit ≡ true → n ≤ max)
    → Shrinks total delete rows
    → rows s < f
    → let r = enforce f e total delete limit (quiet s) in
      (r.0 ≡ ok tt) × (total r.1.store ≤ max) × (r.1.faults ≡ [])
enforce-bounded zero e total delete rows limit max s fit h below = absurd (omega (arith, below))
enforce-bounded (suc f) e total delete rows limit max s fit h below =
    elim (Bool-cases (leb_ℤ (pos (total s)) limit)) [
      | inl fits ↦
          rw (enforce-round f e total delete limit s, fits) (refl, fit (total s) fits, refl)
      | inr over ↦ elim (Bool-cases ((delete s).0 == 0)) [
        | inl nothing ↦
            let empty : total (delete s).1 ≡ 0 = (h s).0 (ground arith) in
            rw (enforce-round f e total delete limit s, over, nothing)
              (refl, omega (arith, empty), refl)
        | inr deleted ↦
            let shorter : rows (delete s).1 < rows s = (h s).1 (ground arith) in
            rw (enforce-round f e total delete limit s, over, deleted)
              (enforce-bounded f e total delete rows limit max (delete s).1 fit h
                (omega (arith, shorter, below)))
      ]
    ]

module _ {A : Type 0} where
  pub least-none : (before : A → A → Bool) (xs : List A) → least before xs ≡ none → xs ≡ []
  unfolding least
  least-none before [] h = refl
  least-none before (x ∷ xs) h = elim (Option-cases (least before xs)) [
    | inl e ↦ absurd (ground arith)
    | inr (y, e) ↦ absurd (ground arith)
  ]

  least-counts :
      (before : A → A → Bool) (key : A → ℕ) (xs : List A) (m : A)
      → least before xs ≡ some m
      → 0 < count_rows (λ y. key y == key m) xs
  unfolding least
  least-counts before key [] m h = absurd (cc)
  least-counts before key (x ∷ xs) m h = elim (Option-cases (least before xs)) [
    | inl e ↦ let same : x ≡ m = ground arith in rw same (ground arith)
    | inr (y, e) ↦ elim (Bool-cases (before y x)) [
      | inl b ↦
          let same : y ≡ m = ground arith in
          ground (arith, least-counts before key xs m (e ∙ ap (λ z. some z) same))
      | inr b ↦ let same : x ≡ m = ground arith in rw same (ground arith)
    ]
  ]

  retain-shrinks :
      (p : A → Bool) (xs : List A)
      → 0 < count_rows p xs
      → length (retain (λ y. not (p y)) xs) < length xs
  retain-shrinks p [] h = absurd (omega (arith, h))
  retain-shrinks p (x ∷ xs) h =
      ground (arith, retain-shrinks p xs, length-retain (λ y. not (p y)) xs)

messages-Shrinks : Shrinks messages_total delete_oldest_message (λ s. length s.messages)
unfolding messages_total delete_oldest_message delete_messages
messages-Shrinks s = elim (Option-cases (least older_message s.messages)) [
  | inl e ↦
      let nil = least-none older_message s.messages e in
      (
        λ h. rw (e, delete_oldest_message) (rw nil (unfold sum_of in refl)),
        λ h. absurd (h (rw (e, delete_oldest_message) refl)),
      )
  | inr (r, e) ↦
      let some_row = least-counts older_message (λ (q : MessageRow). q.id) s.messages r e in
      (
        λ h. absurd (omega (arith, some_row, (rw (e, delete_oldest_message) at h))),
        λ h. rw (e, delete_oldest_message) (retain-shrinks (λ q. q.id == r.id) s.messages some_row),
      )
]

rooms-Shrinks : Shrinks rooms_total delete_emptiest_room (λ s. length s.rooms)
unfolding rooms_total delete_emptiest_room delete_rooms delete_messages
rooms-Shrinks s = elim (Option-cases (least (emptier_room s) s.rooms)) [
  | inl e ↦
      let nil = least-none (emptier_room s) s.rooms e in
      (
        λ h. rw (e, delete_emptiest_room) (rw nil (unfold sum_of in refl)),
        λ h. absurd (h (rw (e, delete_emptiest_room) refl)),
      )
  | inr (r, e) ↦
      let some_row = least-counts (emptier_room s) (λ (q : RoomRow). q.id) s.rooms r e in
      (
        λ h. absurd (omega (arith, some_row, (rw (e, delete_emptiest_room) at h))),
        λ h. rw (e, delete_emptiest_room) (retain-shrinks (λ q. q.id == r.id) s.rooms some_row),
      )
]

attachments-Shrinks : Shrinks attachments_total delete_oldest_attachment (λ s. length s.attachments)
unfolding attachments_total delete_oldest_attachment
attachments-Shrinks s = elim (Option-cases (least older_attachment s.attachments)) [
  | inl e ↦
      let nil = least-none older_attachment s.attachments e in
      (
        λ h. rw (e, delete_oldest_attachment) (rw nil (unfold sum_of in refl)),
        λ h. absurd (h (rw (e, delete_oldest_attachment) refl)),
      )
  | inr (r, e) ↦
      let some_row =
        least-counts older_attachment (λ (q : AttachmentRow). q.id) s.attachments r e in
      (
        λ h. absurd (omega (arith, some_row, (rw (e, delete_oldest_attachment) at h))),
        λ h.
            rw (e, delete_oldest_attachment)
              (retain-shrinks (λ q. q.id == r.id) s.attachments some_row),
      )
]

-- A cast to i64 does not make a limit larger.
cast-le : (max n : ℕ) → leb_ℤ (pos n) (as_i64 max) ≡ true → n ≤ max
unfolding as_i64 leb_ℤ
cast-le max n h = ground arith

-- Each of the three storage limits, run with no failing statement, returns, and leaves a total within
-- the limit: the characters of the messages, of the rooms' slugs, and the sizes of the
-- attachments. The fuel of the loops, one more than the rows of the table, is enough.
pub storage_limits-bounded :
    (e : String → ChatError) (max : ℕ) (s : Store)
    → (let r = enforce_messages_storage_limit e max (quiet s) in
        (r.0 ≡ ok tt) × (messages_total r.1.store ≤ max) × (r.1.faults ≡ []))
      × (let r = enforce_rooms_storage_limit e max (quiet s) in
          (r.0 ≡ ok tt) × (rooms_total r.1.store ≤ max) × (r.1.faults ≡ []))
      × (let r = enforce_attachments_storage_limit e max (quiet s) in
          (r.0 ≡ ok tt) × (attachments_total r.1.store ≤ max) × (r.1.faults ≡ []))
unfolding enforce_messages_storage_limit enforce_rooms_storage_limit
    enforce_attachments_storage_limit
storage_limits-bounded e max s = (
  enforce-bounded (suc (length s.messages)) e messages_total delete_oldest_message
      (λ t. length t.messages) (as_i64 max) max s (cast-le max) messages-Shrinks (omega arith),
  enforce-bounded (suc (length s.rooms)) e rooms_total delete_emptiest_room (λ t. length t.rooms)
      (as_i64 max) max s (cast-le max) rooms-Shrinks (omega arith),
  enforce-bounded (suc (length s.attachments)) e attachments_total delete_oldest_attachment
      (λ t. length t.attachments) (as_i64 max) max s (cast-le max) attachments-Shrinks
      (omega arith),
)
