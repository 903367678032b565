-- ===== src/Chat/Rooms.antt =====
-- `RoomRegistry` of server/src/chat/service.rs. Which addresses are connected is a test that each call is
-- given; each call holds the lock for its whole run, so calls follow one another.
pub mod Capacity
use month_erdmko_de.Base.{
  ℕ, Bool, true, false, Option, none, some, List, [], ◌∷◌, ◌++◌, map, leb, if◌then◌else◌,
}
use month_erdmko_de.Base.Text.{Str}
use month_erdmko_de.Base.Rows.{find_row, retain}
use month_erdmko_de.Base.Groups.{Groups, has_key, remove, total, members_of, set_members}

abbrev pub max_open_connections : ℕ
max_open_connections = 100

module _ {Addr : Type 0} (connected : Addr → Bool) where
  -- The answer, and the rooms afterwards.
  unfoldable pub try_register_connection : Str → Addr → ℕ → Groups Addr → Bool × Groups Addr
  try_register_connection room_id addr max_connections rooms =
      let room = retain connected (members_of room_id rooms) in
      if leb max_connections (total rooms)
      then (false, rooms)
      else (true, set_members room_id (room ++ (addr ∷ [])) rooms)

  -- The room with the addresses that are left: none at all, if the list is empty.
  unfoldable pub drop_if_empty : Str → List Addr → Groups Addr → Groups Addr
  drop_if_empty room_id [] rooms = remove room_id rooms
  drop_if_empty room_id (a ∷ addresses) rooms = set_members room_id (a ∷ addresses) rooms

  unfoldable pub cleanup_room : Str → Groups Addr → Groups Addr
  cleanup_room room_id rooms = elim (find_row (has_key room_id) rooms) [
    | none ↦ rooms
    | some e ↦ drop_if_empty room_id (retain connected e.1) rooms
  ]

  unfoldable pub connected_recipients : Str → Groups Addr → List Addr × Groups Addr
  connected_recipients room_id rooms = elim (find_row (has_key room_id) rooms) [
    | none ↦ ([], rooms)
    | some e ↦ (retain connected e.1, set_members room_id (retain connected e.1) rooms)
  ]

  unfoldable pub all_connected : Groups Addr → List Addr
  all_connected [] = []
  all_connected (e ∷ rooms) = retain connected e.1 ++ all_connected rooms

  abbrev pub only_connected : Str × List Addr → Str × List Addr
  only_connected e = (e.0, retain connected e.1)

  unfoldable pub all_connected_recipients : Groups Addr → List Addr × Groups Addr
  all_connected_recipients rooms = (all_connected rooms, map only_connected rooms)
