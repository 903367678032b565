-- ===== src/Voice/Registry.antt =====
-- `VOICE_REGISTRY` of server/src/voice/mod.rs and the functions on it. A map is a list of entries; each
-- function holds the lock for its whole run, so calls follow one another.
pub mod Bounds
use month_erdmko_de.Base.{
  ℕ, ◌+◌, Bool, not, Option, none, some, List, [], ◌∷◌, map, String, length, leb, if◌then◌else◌,
}
use month_erdmko_de.Base.Text.{Str, str_eq}
use month_erdmko_de.Base.Result.{Result, ok, err}
use month_erdmko_de.Base.Rows.{find_row}
use month_erdmko_de.Base.Groups.{Groups, has_key, remove, total, members_of, set_members}

abbrev pub max_voice_participants_per_room : ℕ
max_voice_participants_per_room = 8

abbrev pub max_total_voice_participants : ℕ
max_total_voice_participants = 16

-- The participants of one room: the name of each peer.
abbrev pub Peers : Type 0
Peers = List (Str × Str)

abbrev pub Registry : Type 0
Registry = Groups (Str × Str)

-- `HashMap::insert`
abbrev pub insert_peer : Str → Str → Peers → Peers
insert_peer peer name peers = (peer, name) ∷ remove peer peers

unfoldable pub register_voice_participant :
    Str → Str → Str → Registry → Result String (Unit {0}) × Registry
unfolding total members_of set_members
register_voice_participant room_id peer_id sender_name registry =
    let room = members_of room_id registry in
    if leb max_total_voice_participants (total registry)
    then (err "VOICE_SERVER_FULL", registry)
    else if leb max_voice_participants_per_room (length room)
    then (err "VOICE_ROOM_FULL", set_members room_id room registry)
    else (ok tt, set_members room_id (insert_peer peer_id sender_name room) registry)

-- What is left of the room once the peer is gone: nothing, if it was the last.
unfoldable pub drop_if_empty : Str → Peers → Registry → Registry
unfolding set_members
drop_if_empty room_id [] registry = remove room_id registry
drop_if_empty room_id (p ∷ ps) registry = set_members room_id (p ∷ ps) registry

unfoldable pub unregister_voice_participant : Str → Str → Registry → Registry
unfolding drop_if_empty
unregister_voice_participant room_id peer_id registry = elim (find_row (has_key room_id) registry) [
  | none ↦ registry
  | some e ↦ drop_if_empty room_id (remove peer_id e.1) registry
]

-- The entries of the room's map, in the order in which they are listed here.
unfoldable pub get_voice_participants_in_room : Str → Registry → Peers
unfolding members_of
get_voice_participants_in_room room_id registry = members_of room_id registry
