-- ===== src/Chat/Eviction/Fitted.antt =====
-- What the loops of the storage limits keep (server/src/chat/db.rs, server/src/attachments/db.rs).
use month_erdmko_de.Base.{
  ℕ, ◌^◌, zero, suc, ◌+◌, ◌<◌, ◌≡◌, refl, ap, ◌∙◌, inl, inr, Bool, true, false, not, some, List, [],
  ◌∷◌, String, arith, leb, ◌==◌, if◌then◌else◌, length, Bool-cases, Option-cases, All,
}
use month_erdmko_de.Base.Int.{pos, leb_ℤ, wrap_i64_id}
use month_erdmko_de.Base.Rows.{count_rows, retain}
use month_erdmko_de.Chat.Events.{ChatError}
use month_erdmko_de.Chat.Store.{Store, MessageRow, AttachmentRow, sql_length, delete_messages}
use month_erdmko_de.Chat.Eviction.{
  least, sum_of, messages_total, attachments_total, older_message, older_attachment,
  delete_oldest_message, delete_oldest_attachment, enforce, enforce_messages_storage_limit,
  enforce_attachments_storage_limit, as_i64,
}
use month_erdmko_de.Chat.Eviction.Bounded.{quiet, enforce-round}

-- The rows that are left when rows are dropped from the front until their sum is within the limit.
unfoldable pub fit : {A : Type 0} → (A → ℕ) → ℕ → List A → List A
unfolding sum_of
fit w max [] = []
fit w max (x ∷ xs) = let rest = fit w max xs in if leb (w x + sum_of w xs) max then x ∷ xs else rest

-- Each row comes before all later ones, and no later one has its key.
abbrev pub InOrder : {A : Type 0} → (A → A → Bool) → (A → ℕ) → List A → Type 0
InOrder before key [] = Unit
InOrder before key (x ∷ xs) =
    All (λ y. (before y x ≡ false) × ((key y == key x) ≡ false)) xs × InOrder before key xs

module _ {A : Type 0} (before : A → A → Bool) (key : A → ℕ) where
  least-in :
      (x y : A) (xs : List A)
      → All (λ z. (before z x ≡ false) × ((key z == key x) ≡ false)) xs
      → least before xs ≡ some y
      → before y x ≡ false
  unfolding least
  least-in x y [] h e = absurd (cc)
  least-in x y (z ∷ zs) h e = elim (Option-cases (least before zs)) [
    | inl n ↦ ground arith
    | inr (u, n) ↦ elim (Bool-cases (before u z)) [
      | inl b ↦ let same : u ≡ y = ground arith in least-in x y zs h.1 (n ∙ ap (λ v. some v) same)
      | inr b ↦ ground arith
    ]
  ]

  -- The first row of a list in order is the one that the order selects.
  least-first : (x : A) (xs : List A) → InOrder before key (x ∷ xs) → least before (x ∷ xs) ≡ some x
  unfolding least
  least-first x xs h = elim (Option-cases (least before xs)) [
    | inl e ↦ rw (e, least) refl
    | inr (y, e) ↦ let later = least-in x y xs h.0 e in rw (e, least, later) refl
  ]

  none-alike :
      (x : A) (xs : List A)
      → All (λ z. (before z x ≡ false) × ((key z == key x) ≡ false)) xs
      → retain (λ y. not (key y == key x)) xs ≡ xs
  none-alike x [] h = refl
  none-alike x (z ∷ zs) h = rw h.0.1 (ap (λ r. z ∷ r) (none-alike x zs h.1))

  retain-first :
      (x : A) (xs : List A)
      → InOrder before key (x ∷ xs)
      → retain (λ y. not (key y == key x)) (x ∷ xs) ≡ xs
  retain-first x xs h = let e : (key x == key x) ≡ true = ground arith in rw e (none-alike x xs h.0)

  count-first : (x : A) (xs : List A) → (count_rows (λ y. key y == key x) (x ∷ xs) == 0) ≡ false
  count-first x xs = let e : (key x == key x) ≡ true = ground arith in rw e (ground arith)

-- A deletion takes the first row of a table that is in order.
abbrev TakesFirst :
    {A : Type 0} → (A → A → Bool) → (A → ℕ) → (Store → List A) → (Store → ℕ × Store) → Type 0
TakesFirst {A} before key rows delete =
    (s : Store) (x : A) (xs : List A)
    → rows s ≡ x ∷ xs
    → InOrder before key (x ∷ xs)
    → (((delete s).0 == 0) ≡ false) × (rows (delete s).1 ≡ xs)

leb_ℤ-pos : (a b : ℕ) → leb_ℤ (pos a) (pos b) ≡ leb a b
unfolding leb_ℤ
leb_ℤ-pos a b = ground arith

enforce-fit :
    {A : Type 0} (before : A → A → Bool) (key : A → ℕ) (w : A → ℕ) (rows : Store → List A) (f : ℕ)
    (e : String → ChatError) (delete : Store → ℕ × Store) (max : ℕ) (s : Store) (xs : List A)
    → TakesFirst before key rows delete
    → rows s ≡ xs
    → InOrder before key xs
    → length xs < f
    → rows (enforce f e (λ t. sum_of w (rows t)) delete (pos max) (quiet s)).1.store ≡ fit w max xs
unfolding fit
enforce-fit before key w rows zero e delete max s xs h q o below = absurd (omega (arith, below))
enforce-fit before key w rows (suc f) e delete max s [] h q o below =
    let empty : sum_of w (rows s) ≡ 0 = rw q (unfold sum_of in refl) in
    let fits : leb 0 max ≡ true = ground arith in
    rw (enforce-round f e (λ t. sum_of w (rows t)) delete (pos max) s, empty, leb_ℤ-pos 0 max, fits)
      q
enforce-fit before key w rows (suc f) e delete max s (x ∷ xs) h q o below =
    let total : sum_of w (rows s) ≡ w x + sum_of w xs = rw q (unfold sum_of in refl) in
    let (some_row, left) = h s x xs q o in
    let round = enforce-round f e (λ t. sum_of w (rows t)) delete (pos max) s in
    let test = leb_ℤ-pos (w x + sum_of w xs) max in
    elim (Bool-cases (leb (w x + sum_of w xs) max)) [
      | inl fits ↦ rw (round, total, test, fits) q
      | inr over ↦
          rw (round, total, test, over, some_row)
            (enforce-fit before key w rows f e delete max (delete s).1 xs h left o.1
              (omega (arith, below)))
    ]

messages-TakesFirst :
    TakesFirst older_message (λ (m : MessageRow). m.id) (λ s. s.messages) delete_oldest_message
unfolding delete_oldest_message delete_messages
messages-TakesFirst s x xs q o =
    let first = least-first older_message (λ (m : MessageRow). m.id) x xs o in
    rw (q, first, delete_oldest_message, delete_messages, q)
      (
        count-first older_message (λ (m : MessageRow). m.id) x xs,
        retain-first older_message (λ (m : MessageRow). m.id) x xs o,
      )

attachments-TakesFirst :
    TakesFirst older_attachment
      (λ (a : AttachmentRow). a.id)
      (λ s. s.attachments)
      delete_oldest_attachment
unfolding delete_oldest_attachment
attachments-TakesFirst s x xs q o =
    let first = least-first older_attachment (λ (a : AttachmentRow). a.id) x xs o in
    rw (q, first, delete_oldest_attachment, q)
      (
        count-first older_attachment (λ (a : AttachmentRow). a.id) x xs,
        retain-first older_attachment (λ (a : AttachmentRow). a.id) x xs o,
      )

as_i64_id : (n : ℕ) → n < 2 ^ 63 → as_i64 n ≡ pos n
unfolding as_i64
as_i64_id n h = wrap_i64_id (pos n) h

-- Where no statement fails, the limits on messages and on attachments drop the oldest rows and no
-- more than it takes: what is left is the table from the first row on from which the sum is within
-- the limit. The limit is assumed to be below 2 ^ 63, so that its cast to i64 keeps it, and the rows
-- are assumed to stand in order: messages by their ids, attachments by their timestamps and then
-- ids, with no id twice.
pub storage_limits-fit :
    (e : String → ChatError) (max : ℕ) (s : Store)
    → max < 2 ^ 63
    → InOrder older_message (λ (m : MessageRow). m.id) s.messages
    → InOrder older_attachment (λ (a : AttachmentRow). a.id) s.attachments
    → ((enforce_messages_storage_limit e max (quiet s)).1.store.messages
        ≡ fit (λ m. sql_length m.body) max s.messages)
      × ((enforce_attachments_storage_limit e max (quiet s)).1.store.attachments
          ≡ fit (λ a. a.size) max s.attachments)
unfolding enforce_messages_storage_limit enforce_attachments_storage_limit messages_total
    attachments_total
storage_limits-fit e max s small o p = rw (as_i64_id max small) (
  enforce-fit older_message (λ (m : MessageRow). m.id) (λ m. sql_length m.body) (λ t. t.messages)
      (suc (length s.messages)) e delete_oldest_message max s s.messages messages-TakesFirst refl o
      (omega arith),
  enforce-fit older_attachment (λ (a : AttachmentRow). a.id) (λ a. a.size) (λ t. t.attachments)
      (suc (length s.attachments)) e delete_oldest_attachment max s s.attachments
      attachments-TakesFirst refl p (omega arith),
)
