-- ===== src/Chat/Rooms/Capacity.antt =====
-- How many connections the registry holds.
use month_erdmko_de.Base.{
  ℕ, ◌≤◌, ◌≡◌, ap, inl, inr, Bool, not, some, List, [], ◌∷◌, ◌++◌, leb, arith, length,
  length-append, if_both, Option-cases,
}
use month_erdmko_de.Base.Text.{Str}
use month_erdmko_de.Base.Rows.{find_row, retain, length-retain}
use month_erdmko_de.Base.Groups.{
  Groups, has_key, total, members_of, set_members, total-set_members, total-retain, find-members_of,
}
use month_erdmko_de.Chat.Rooms.{
  try_register_connection, drop_if_empty, cleanup_room, connected_recipients,
  all_connected_recipients,
}

module _ {Addr : Type 0} where
  registered :
      (connected : Addr → Bool) (room : Str) (a : Addr) (n : ℕ) (r : Groups Addr)
      → total r ≤ n
      → total (try_register_connection connected room a n r).1 ≤ n
  unfolding try_register_connection
  registered connected room a n r h =
      let ms = members_of room r in
      if_both {A = Bool × Groups Addr} (λ x. total x.1 ≤ n) (leb n (total r)) _ _ (λ full. h)
        (λ free. ground (
          arith,
          total-set_members room (retain connected ms ++ (a ∷ [])) r,
          length-append (retain connected ms) (a ∷ []),
          length-retain connected ms,
        ))

  set_fewer :
      (room : Str) (ms : List Addr) (r : Groups Addr)
      → length ms ≤ length (members_of room r)
      → total (set_members room ms r) ≤ total r
  set_fewer room ms r h = omega (arith, total-set_members room ms r)

  dropped :
      (connected : Addr → Bool) (room : Str) (ms : List Addr) (r : Groups Addr)
      → length ms ≤ length (members_of room r)
      → total (drop_if_empty connected room ms r) ≤ total r
  unfolding drop_if_empty
  dropped connected room [] r h = total-retain (λ e. not (has_key room e)) r
  dropped connected room (a ∷ ms) r h = set_fewer room (a ∷ ms) r h

  fewer_members :
      (connected : Addr → Bool) (room : Str) (r : Groups Addr) (e : Str × List Addr)
      → find_row (has_key room) r ≡ some e
      → length (retain connected e.1) ≤ length (members_of room r)
  fewer_members connected room r e found =
      omega
        (arith, length-retain connected e.1, ap (λ ms. length ms) (find-members_of room r e found))

  cleaned :
      (connected : Addr → Bool) (room : Str) (r : Groups Addr)
      → total (cleanup_room connected room r) ≤ total r
  unfolding cleanup_room
  cleaned connected room r = elim (Option-cases (find_row (has_key room) r)) [
    | inl absent ↦ rw (absent, cleanup_room) (omega arith)
    | inr (e, found) ↦
        rw (found, cleanup_room)
          (dropped connected room (retain connected e.1) r (fewer_members connected room r e found))
  ]

  listed :
      (connected : Addr → Bool) (room : Str) (r : Groups Addr)
      → total (connected_recipients connected room r).1 ≤ total r
  unfolding connected_recipients
  listed connected room r = elim (Option-cases (find_row (has_key room) r)) [
    | inl absent ↦ rw (absent, connected_recipients) (omega arith)
    | inr (e, found) ↦
        rw (found, connected_recipients)
          (set_fewer room (retain connected e.1) r (fewer_members connected room r e found))
  ]

  all_listed :
      (connected : Addr → Bool) (r : Groups Addr)
      → total (all_connected_recipients connected r).1 ≤ total r
  unfolding all_connected_recipients total
  all_listed connected [] = omega arith
  all_listed connected (e ∷ r) = omega (arith, length-retain connected e.1, all_listed connected r)

-- The calls on the registry, each with the connections at that time.
pub data Call (Addr : Type 0) : Type 0 where
  register : (Addr → Bool) → Str → Addr → Call Addr
  cleanup recipients : (Addr → Bool) → Str → Call Addr
  all_recipients : (Addr → Bool) → Call Addr

module _ {Addr : Type 0} where
  unfoldable pub step : ℕ → Call Addr → Groups Addr → Groups Addr
  step n (register connected room a) r = (try_register_connection connected room a n r).1
  step n (cleanup connected room) r = cleanup_room connected room r
  step n (recipients connected room) r = (connected_recipients connected room r).1
  step n (all_recipients connected) r = (all_connected_recipients connected r).1

  unfoldable pub run_calls : ℕ → List (Call Addr) → Groups Addr → Groups Addr
  run_calls n [] r = r
  run_calls n (c ∷ cs) r = run_calls n cs (step n c r)

  -- Whatever calls come, and whoever is connected when: the registry never holds more addresses than the
  -- limit that every registration is given, if it does not at the start.
  pub run_rooms-le :
      (n : ℕ) (cs : List (Call Addr)) (r : Groups Addr) → total r ≤ n → total (run_calls n cs r) ≤ n
  unfolding run_calls step
  run_rooms-le n [] r h = h
  run_rooms-le n (register connected room a ∷ cs) r h =
      run_rooms-le n cs _ (registered connected room a n r h)
  run_rooms-le n (cleanup connected room ∷ cs) r h =
      run_rooms-le n cs _ (omega (arith, cleaned connected room r))
  run_rooms-le n (recipients connected room ∷ cs) r h =
      run_rooms-le n cs _ (omega (arith, listed connected room r))
  run_rooms-le n (all_recipients connected ∷ cs) r h =
      run_rooms-le n cs _ (omega (arith, all_listed connected r))
