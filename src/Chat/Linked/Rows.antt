-- ===== src/Chat/Linked/Rows.antt =====
-- Deleting rows with those that refer to them (server/src/chat/db.rs, server/src/attachments/db.rs).
use month_erdmko_de.Base.{
  ◌≡◌, inl, inr, Bool, true, false, not, ◌&&◌, List, [], ◌∷◌, ◌++◌, arith, ◌==◌, All, Bool-cases,
}
use month_erdmko_de.Base.Rows.{retain, has_row}
use month_erdmko_de.Chat.Store.{
  Store, RoomRow, MessageRow, AttachmentRow, delete_messages, delete_rooms,
}

-- Each message is in a room, and each attachment belongs to a message.
abbrev pub AreLinked : List RoomRow → List MessageRow → List AttachmentRow → Type 0
AreLinked rooms messages attachments =
    All (λ (m : MessageRow). has_row (λ (r : RoomRow). r.id == m.room_id) rooms ≡ true) messages
    × All
        (λ (a : AttachmentRow). has_row (λ (m : MessageRow). m.id == a.message_id) messages ≡ true)
        attachments

abbrev pub IsLinked : Store → Type 0
IsLinked s = AreLinked s.rooms s.messages s.attachments

-- The same, on a connection that checks the foreign keys.
abbrev pub IsGuarded : Store → Type 0
IsGuarded s = IsLinked s × (s.foreign_keys ≡ true)

module _ {A : Type 0} where
  -- What is found and not deleted is found afterwards.
  found-undeleted :
      (p q : A → Bool) (xs : List A)
      → has_row q xs ≡ true
      → has_row (λ x. p x && q x) xs ≡ false
      → has_row q (retain (λ x. not (p x)) xs) ≡ true
  found-undeleted p q [] h k = cc
  found-undeleted p q (x ∷ xs) h k = ground (arith, found-undeleted p q xs)

  pub retain-where :
      (P Q : A → Type 0) (p : A → Bool) (xs : List A)
      → ((x : A) → P x → p x ≡ true → Q x)
      → All P xs
      → All Q (retain p xs)
  retain-where P Q p [] f h = tt
  retain-where P Q p (x ∷ xs) f h = elim (Bool-cases (p x)) [
    | inl e ↦ rw e (f x h.0 e, retain-where P Q p xs f h.1)
    | inr e ↦ rw e (retain-where P Q p xs f h.1)
  ]

  pub found-append :
      (q : A → Bool) (xs ys : List A) → has_row q xs ≡ true → has_row q (xs ++ ys) ≡ true
  found-append q [] ys h = cc
  found-append q (x ∷ xs) ys h = ground (arith, found-append q xs ys)

  pub All-map : (P Q : A → Type 0) (xs : List A) → ((x : A) → P x → Q x) → All P xs → All Q xs
  All-map P Q [] f h = tt
  All-map P Q (x ∷ xs) f h = (f x h.0, All-map P Q xs f h.1)

  pub All-snoc : (P : A → Type 0) (xs : List A) (x : A) → All P xs → P x → All P (xs ++ (x ∷ []))
  All-snoc P [] x h k = (k, tt)
  All-snoc P (y ∷ ys) x h k = (h.0, All-snoc P ys x h.1 k)

undeleted : (f b : Bool) → f ≡ true → not (f && b) ≡ true → b ≡ false
undeleted f b on h = ground arith

pub delete_messages-IsGuarded :
    (p : MessageRow → Bool) (s : Store) → IsGuarded s → IsGuarded (delete_messages p s)
unfolding delete_messages
delete_messages-IsGuarded p s ((rooms, messages), on) = (
  (
    retain-where _ _ (λ m. not (p m)) s.messages (λ m h k. h) rooms,
    retain-where _ _ _ s.attachments
        (λ a h k.
          found-undeleted p (λ m. m.id == a.message_id) s.messages h
            (undeleted s.foreign_keys _ on k))
        messages,
  ),
  on,
)

pub delete_rooms-IsGuarded :
    (p : RoomRow → Bool) (s : Store) → IsGuarded s → IsGuarded (delete_rooms p s)
unfolding delete_rooms delete_messages
delete_rooms-IsGuarded p s h =
    let gone : MessageRow → Bool =
      λ m. s.foreign_keys && has_row (λ r. p r && r.id == m.room_id) s.rooms in
    let kept = delete_messages-IsGuarded gone s h in
    (
      (
        retain-where _ _ (λ m. not (gone m)) s.messages
            (λ m k e.
              found-undeleted p (λ r. r.id == m.room_id) s.rooms k
                (undeleted s.foreign_keys _ h.1 e))
            h.0.0,
        kept.0.1,
      ),
      h.1,
    )
