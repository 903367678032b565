-- ===== src/Chat/Recent/Counted.antt =====
-- How many messages the query of a history finds (server/src/chat/db.rs).
use mathlib.Core.List.{reverse}
use month_erdmko_de.Base.{
  ℕ, zero, suc, ◌≡◌, refl, sym, ap, subst, ◌∙◌, inl, inr, Bool, true, false, none, some, List, [],
  ◌∷◌, map, arith, ltb, ◌==◌, if◌then◌else◌, length, take, Bool-cases, Option-cases,
}
use month_erdmko_de.Base.Text.{Str, str_eq}
use month_erdmko_de.Base.Result.{ok, ok-inj}
use month_erdmko_de.Base.Rows.{retain, count_rows, find_row, sort_by, insert_by}
use month_erdmko_de.Base.Rows.Laws.{length-reverse}
use month_erdmko_de.Chat.Store.{
  Store, RoomRow, MessageRow, ChatConn, ensure_foreign_keys, no_change, sql, internal_error,
}
use month_erdmko_de.Chat.Store.Keeps.{StoreKeeps, StatementKeeps, StoreKeeps-sql, store_rules}
use month_erdmko_de.Chat.Messages.{
  Pool, connect, connected, worker_failed, unavailable, ChatMessage, message_view,
}
use month_erdmko_de.Chat.Recent.{in_room, keep_views, select_history}

-- The message is in the room with this slug.
abbrev pub stands_in : Str → List RoomRow → MessageRow → Bool
stands_in slug rooms m = elim (find_row (λ r. r.id == m.room_id) rooms) [
  | none ↦ false
  | some r ↦ str_eq r.slug slug
]

abbrev pub smaller : ℕ → ℕ → ℕ
smaller a b = if ltb b a then b else a

length-take : {A : Type 0} (n : ℕ) (xs : List A) → length (take n xs) ≡ smaller n (length xs)
length-take zero xs = ground arith
length-take (suc n) [] = ground arith
length-take (suc n) (x ∷ xs) = ground (arith, length-take n xs)

length-insert_by :
    {A : Type 0} (key : A → ℕ) (x : A) (xs : List A) → length (insert_by key x xs) ≡ suc (length xs)
unfolding insert_by
length-insert_by key x [] = refl
length-insert_by key x (y ∷ ys) = ground (arith, length-insert_by key x ys)

length-sort_by : {A : Type 0} (key : A → ℕ) (xs : List A) → length (sort_by key xs) ≡ length xs
unfolding sort_by
length-sort_by key [] = refl
length-sort_by key (x ∷ xs) =
    length-insert_by key x (sort_by key xs) ∙ ap suc (length-sort_by key xs)

-- The views of the room are as many as its messages.
views-count :
    (slug : Str) (rooms : List RoomRow) (ms : List MessageRow)
    → length (retain (in_room slug) (keep_views (map (message_view rooms) ms)))
      ≡ count_rows (stands_in slug rooms) ms
unfolding keep_views message_view
views-count slug rooms [] = refl
views-count slug rooms (m ∷ ms) =
    elim (Option-cases (find_row (λ (r : RoomRow). r.id == m.room_id) rooms)) [
      | inl e ↦
          let out : stands_in slug rooms m ≡ false = rw (e, stands_in) refl in
          rw (e, message_view, keep_views, out) (views-count slug rooms ms)
      | inr (r, e) ↦ elim (Bool-cases (str_eq r.slug slug)) [
        | inl same ↦
            let within : stands_in slug rooms m ≡ true = rw (e, stands_in) same in
            rw (e, message_view, keep_views, same, within) (ap suc (views-count slug rooms ms))
        | inr other ↦
            let out : stands_in slug rooms m ≡ false = rw (e, stands_in) other in
            rw (e, message_view, keep_views, other, out) (views-count slug rooms ms)
      ]
    ]

-- The query answers with as many rows as it may, of those that there are.
pub select_history-count :
    (slug : Str) (n : ℕ) (s t : Store) (rows : List ChatMessage)
    → select_history slug n s ≡ ok (rows, t)
    → length rows ≡ smaller n (count_rows (stands_in slug s.rooms) s.messages)
unfolding select_history
select_history-count slug n s t rows h =
    let views = retain (in_room slug) (keep_views (map (message_view s.rooms) s.messages)) in
    let sorted = sort_by (λ (v : ChatMessage). v.id) views in
    let e : take n (reverse sorted) ≡ rows = ap (λ x. x.0) (ok-inj h) in
    let all : length (reverse sorted) ≡ count_rows (stands_in slug s.rooms) s.messages =
      length-reverse sorted
      ∙ length-sort_by (λ (v : ChatMessage). v.id) views
      ∙ views-count slug s.rooms s.messages in
    ap length (sym e) ∙ length-take n (reverse sorted) ∙ ap (smaller n) all

-- The tables of rooms and messages are these.
abbrev pub Holds : List RoomRow → List MessageRow → Store → Type 0
Holds rooms messages s = (s.rooms ≡ rooms) × (s.messages ≡ messages)

no_change-Holds :
    (rooms : List RoomRow) (messages : List MessageRow)
    → StatementKeeps (Holds rooms messages) no_change
no_change-Holds rooms messages s a t e h =
    let same : s ≡ t = ground arith in subst (Holds rooms messages) same h

pragma-Holds :
    (rooms : List RoomRow) (messages : List MessageRow)
    → StatementKeeps (Holds rooms messages) ensure_foreign_keys
unfolding ensure_foreign_keys
pragma-Holds rooms messages s a t e h =
    let i : s.rooms ≡ t.rooms = ground arith in
    let m : s.messages ≡ t.messages = ground arith in rw (sym i, sym m) h

connect-Holds :
    (rooms : List RoomRow) (messages : List MessageRow) (pool : Pool)
    → StoreKeeps (Holds rooms messages) (connect pool)
unfolding connect
connect-Holds rooms messages connected = search (store_rules, pragma-Holds)
connect-Holds rooms messages (worker_failed e) = search store_rules
connect-Holds rooms messages (unavailable e) = search store_rules

-- What comes in front of the query of a history leaves the rooms and the messages as they are.
pub prepared-Holds :
    (pool : Pool) (c : ChatConn)
    → Holds c.store.rooms c.store.messages
        (sql
          (internal_error "Failed to prepare history query.")
          no_change
          (connect pool c).1).1.store
prepared-Holds pool c =
    let rooms = c.store.rooms in
    let messages = c.store.messages in
    (StoreKeeps-sql (internal_error "Failed to prepare history query.") no_change
        (no_change-Holds rooms messages)).at
      (connect pool c).1 ((connect-Holds rooms messages pool).at c (refl, refl))
