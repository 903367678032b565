-- ===== src/Voice/Registry/Bounds.antt =====
-- The bounds on voice rooms.
use month_erdmko_de.Base.{
  ℕ, ◌+◌, ◌≤◌, ◌≡◌, ap, inl, inr, false, not, List, [], ◌∷◌, String, length, leb, arith, All,
  if_both, Option-cases,
}
use month_erdmko_de.Base.Text.{Str}
use month_erdmko_de.Base.Result.{Result}
use month_erdmko_de.Base.Rows.{find_row, length-retain, retain-All}
use month_erdmko_de.Base.Groups.{
  has_key, remove, total, members_of, set_members, total-set_members, total-retain, find-members_of,
}
use month_erdmko_de.Voice.Registry.{
  Peers, Registry, insert_peer, register_voice_participant, drop_if_empty,
  unregister_voice_participant, max_voice_participants_per_room, max_total_voice_participants,
}

abbrev Small : Str × Peers → Type 0
Small e = length e.1 ≤ max_voice_participants_per_room

-- At most eight in a room and sixteen in all.
pub record IsBounded (r : Registry) : Type 0 where
  pub rooms : All (λ (e : Str × Peers). length e.1 ≤ max_voice_participants_per_room) r
  pub all_rooms : total r ≤ max_total_voice_participants

set_members-Small :
    (k : Str) (ps : Peers) (r : Registry)
    → length ps ≤ max_voice_participants_per_room
    → All Small r
    → All Small (set_members k ps r)
unfolding set_members
set_members-Small k ps [] h a = (h, tt)
set_members-Small k ps (e ∷ es) h a = ground (arith, set_members-Small k ps es h a.1)

members_of-Small :
    (k : Str) (r : Registry)
    → All Small r
    → length (members_of k r) ≤ max_voice_participants_per_room
unfolding members_of
members_of-Small k [] a = omega arith
members_of-Small k (e ∷ es) a = ground (arith, members_of-Small k es a.1)

set_members-IsBounded :
    (k : Str) (ps : Peers) (r : Registry)
    → IsBounded r
    → length ps ≤ max_voice_participants_per_room
    → total r + length ps ≤ max_total_voice_participants + length (members_of k r)
    → IsBounded (set_members k ps r)
set_members-IsBounded k ps r b few fits = record {
  rooms = set_members-Small k ps r few b.rooms;
  all_rooms = omega (arith, total-set_members k ps r);
}

abbrev Kept : Result String (Unit {0}) × Registry → Type 0
Kept r = IsBounded r.1

-- One more participant fits below both limits.
one_more :
    (peer name : Str) (ps : Peers) (n : ℕ)
    → leb max_total_voice_participants n ≡ false
    → leb max_voice_participants_per_room (length ps) ≡ false
    → (length (insert_peer peer name ps) ≤ max_voice_participants_per_room)
      × (n + length (insert_peer peer name ps) ≤ max_total_voice_participants + length ps)
one_more peer name ps n free spare = ground (arith, length-retain (λ e. not (has_key peer e)) ps)

register-IsBounded :
    (room peer name : Str) (r : Registry)
    → IsBounded r
    → IsBounded (register_voice_participant room peer name r).1
unfolding register_voice_participant
register-IsBounded room peer name r b =
    let ps = members_of room r in
    if_both Kept (leb max_total_voice_participants (total r)) _ _ (λ full. b)
      (λ free.
        if_both Kept (leb max_voice_participants_per_room (length ps)) _ _
          (λ crowded.
            set_members-IsBounded room ps r b (members_of-Small room r b.rooms)
              (omega (arith, b.all_rooms)))
          (λ spare.
            let (few, fits) = one_more peer name ps (total r) free spare in
            set_members-IsBounded room (insert_peer peer name ps) r b few fits))

drop_if_empty-IsBounded :
    (k : Str) (ps : Peers) (r : Registry)
    → IsBounded r
    → length ps ≤ length (members_of k r)
    → IsBounded (drop_if_empty k ps r)
unfolding drop_if_empty
drop_if_empty-IsBounded k [] r b h = record {
  rooms = retain-All Small (λ e. not (has_key k e)) r b.rooms;
  all_rooms = omega (arith, b.all_rooms, total-retain (λ e. not (has_key k e)) r);
}
drop_if_empty-IsBounded k (p ∷ ps) r b h =
    set_members-IsBounded k (p ∷ ps) r b (omega (arith, members_of-Small k r b.rooms))
      (omega (arith, b.all_rooms))

unregister-IsBounded :
    (room peer : Str) (r : Registry)
    → IsBounded r
    → IsBounded (unregister_voice_participant room peer r)
unfolding unregister_voice_participant
unregister-IsBounded room peer r b = elim (Option-cases (find_row (has_key room) r)) [
  | inl absent ↦ rw (absent, unregister_voice_participant) b
  | inr (e, found) ↦
      let fewer = length-retain (λ d. not (has_key peer d)) e.1 in
      rw (found, unregister_voice_participant)
        (drop_if_empty-IsBounded room (remove peer e.1) r b
          (omega (arith, fewer, ap (λ ps. length ps) (find-members_of room r e found))))
]

pub data Call : Type 0 where
  join : Str → Str → Str → Call
  leave : Str → Str → Call

unfoldable pub step : Call → Registry → Registry
step (join room peer name) r = (register_voice_participant room peer name r).1
step (leave room peer) r = unregister_voice_participant room peer r

unfoldable pub run_calls : List Call → Registry → Registry
run_calls [] r = r
run_calls (c ∷ cs) r = run_calls cs (step c r)

-- Registering and unregistering participants, in any order, never leaves more than eight of them in
-- a room or more than sixteen in all, if that holds at the start.
pub run_voice-IsBounded : (cs : List Call) (r : Registry) → IsBounded r → IsBounded (run_calls cs r)
unfolding run_calls step
run_voice-IsBounded [] r b = b
run_voice-IsBounded (join room peer name ∷ cs) r b =
    run_voice-IsBounded cs _ (register-IsBounded room peer name r b)
run_voice-IsBounded (leave room peer ∷ cs) r b =
    run_voice-IsBounded cs _ (unregister-IsBounded room peer r b)
