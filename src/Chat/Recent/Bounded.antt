-- ===== src/Chat/Recent/Bounded.antt =====
-- What a history holds (`get_recent_messages` in server/src/chat/db.rs).
use mathlib.Core.List.{reverse}
use month_erdmko_de.Base.{
  ◌∙◌, ℕ, max, suc, ◌≤◌, ◌≡◌, refl, ap, subst, true, Option, none, some, List, [], ◌∷◌, map, String,
  arith, length, take, All,
}
use month_erdmko_de.Base.Text.{Str, trim}
use month_erdmko_de.Base.Text.Laws.{str_eq_sound}
use month_erdmko_de.Base.Result.{ok, ok-inj}
use month_erdmko_de.Base.Rows.{count_rows, retain, sort_by}
use month_erdmko_de.Chat.Events.{ChatError}
use month_erdmko_de.Chat.Store.{internal_error, no_change, Store, ChatConn, pure, lift, sql}
use month_erdmko_de.Chat.Attachments.{AttachmentMeta}
use month_erdmko_de.Chat.Messages.{connect, Pool, ChatMessage, required, message_view}
use month_erdmko_de.Chat.Recent.Counted.{
  smaller, stands_in, select_history-count, prepared-Holds, Holds,
}
use month_erdmko_de.Chat.Recent.{
  query_limit, in_room, select_history, with_attachments, get_recent_messages, keep_views,
}
use month_erdmko_de.Chat.Store.Steps.{bind-result, sql-ok}
use month_erdmko_de.Base.Rows.Laws.{
  length-take-le, length-reverse, All-reverse, All-take, All-sort_by, All-retain,
}
use month_erdmko_de.Chat.Messages.Own.{required-trim}

with_attachments-InRoom :
    (room : Str) (entries : List (ℕ × List AttachmentMeta)) (vs : List ChatMessage)
    → All (λ (v : ChatMessage). in_room room v ≡ true) vs
    → All (λ (v : ChatMessage). v.room_id ≡ room) (with_attachments entries vs)
      × (length (with_attachments entries vs) ≡ length vs)
unfolding with_attachments
with_attachments-InRoom room entries [] h = (tt, refl)
with_attachments-InRoom room entries (v ∷ vs) h =
    let (rest, n) = with_attachments-InRoom room entries vs h.1 in
    ((str_eq_sound v.room_id room h.0, rest), ap suc n)

-- The rows of the history's query are in the room, and no more than the limit.
select_history-InRoom :
    (room : Str) (n : ℕ) (s t : Store) (rows : List ChatMessage)
    → select_history room n s ≡ ok (rows, t)
    → (length rows ≤ n) × All (λ (v : ChatMessage). in_room room v ≡ true) rows
unfolding select_history
select_history-InRoom room n s t rows h =
    let views = retain (in_room room) (keep_views (map (message_view s.rooms) s.messages)) in
    let sorted = sort_by (λ (v : ChatMessage). v.id) views in
    let e : take n (reverse sorted) ≡ rows = ap (λ x. x.0) (ok-inj h) in
    let InRoom : ChatMessage → Type 0 = λ v. in_room room v ≡ true in
    subst (λ (xs : List ChatMessage). (length xs ≤ n) × All InRoom xs) e
      (
        length-take-le n (reverse sorted),
        All-take InRoom n (reverse sorted) (
            All-reverse InRoom sorted
              (All-sort_by InRoom (λ v. v.id) views (All-retain (in_room room) _))),
      )

loaded-InRoom :
    (e : String → ChatError) (room : Str) (n : ℕ) (c : ChatConn) (rows : List ChatMessage)
    → (sql e (select_history room n) c).0 ≡ ok rows
    → (length rows ≡ smaller n (count_rows (stands_in room c.store.rooms) c.store.messages))
      × All (λ (v : ChatMessage). in_room room v ≡ true) rows
loaded-InRoom e room n c rows h =
    let (t, q) = sql-ok e (select_history room n) c rows h in
    (
      select_history-count room n c.store t rows q,
      (select_history-InRoom room n c.store t rows q).1,
    )

-- What a request asks for: at least one message, and without a number as many as the server gives.
abbrev pub asked_for : Option ℕ → ℕ
asked_for none = 50
asked_for (some n) = max n 1

-- How many messages a history of the room should have.
abbrev pub history_length : Str → Option ℕ → Store → ℕ
history_length slug limit s =
    smaller (smaller 50 (asked_for limit)) (count_rows (stands_in slug s.rooms) s.messages)

query_limit-eq : (limit : Option ℕ) → query_limit limit ≡ smaller 50 (asked_for limit)
unfolding query_limit
query_limit-eq none = ground arith
query_limit-eq (some n) = ground arith

-- The rows that are counted behind the preparation are those that were there before it.
counted-before :
    (room slug : Str) (limit : Option ℕ) (s s' : Store) (n : ℕ)
    → n ≡ smaller (query_limit limit) (count_rows (stands_in room s'.rooms) s'.messages)
    → Holds s.rooms s.messages s'
    → room ≡ slug
    → n ≡ history_length slug limit s
counted-before room slug limit s s' n h k e = rw (query_limit-eq limit, k.0, k.1, e) at h

-- A history has as many messages as it was asked for, a request for none counting as one for a single
-- message, but never more than 50, and if there are fewer in the trimmed room, all of these; all of
-- its messages are in that room.
pub get_recent_messages-bounded :
    (pool : Pool) (slug : Str) (limit : Option ℕ) (c : ChatConn) (vs : List ChatMessage)
    → (get_recent_messages pool slug limit c).0 ≡ ok vs
    → (length vs ≡ history_length (trim slug) limit c.store)
      × All (λ (v : ChatMessage). v.room_id ≡ trim slug) vs
unfolding get_recent_messages select_history lift pure
get_recent_messages-bounded pool slug limit c vs h =
    let (room, r, h) = bind-result (lift (required "room id is required" slug)) _ c vs h in
    let (_, _, h) = bind-result (connect pool) _ _ vs h in
    let (_, _, h) =
      bind-result (sql (internal_error "Failed to prepare history query.") no_change) _ _ vs h in
    let (rows, q, h) = bind-result _ _ _ vs h in
    let (entries, _, h) = bind-result _ _ _ vs h in
    let (n, all) = loaded-InRoom _ room (query_limit limit) _ rows q in
    let (in_slug, m) = with_attachments-InRoom room entries rows all in
    let views = with_attachments entries rows in
    let same = required-trim "room id is required" slug room r in
    let InSlug : ChatMessage → Type 0 = λ v. v.room_id ≡ trim slug in
    let listed : All InSlug views =
      subst (λ (k : Str). All (λ (v : ChatMessage). v.room_id ≡ k) views) same in_slug in
    let prepared =
      sql (internal_error "Failed to prepare history query.") no_change (connect pool c).1 in
    let counted =
      counted-before room (trim slug) limit c.store prepared.1.store (length rows) n
        (prepared-Holds pool c) same in
    subst
      (λ (xs : List ChatMessage).
        (length xs ≡ history_length (trim slug) limit c.store) × All InSlug xs)
      (ok-inj h) (length-reverse views ∙ m ∙ counted, All-reverse InSlug views listed)
