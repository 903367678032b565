-- ===== src/Tests/Rooms.antt =====
-- The theorems on server/src/chat/service.rs and server/src/voice/mod.rs at concrete inputs.
use month_erdmko_de.Base.{
  Option, none, ℕ, ◌≤◌, ◌<◌, ◌≡◌, refl, ◌↔◌, Bool, true, false, some, List, [], ◌∷◌, arith, length,
  ltb,
}
use month_erdmko_de.Base.Text.{codes, trim, starts_with}
use month_erdmko_de.Base.Groups.{total}
use month_erdmko_de.Chat.Limiter.{accepted, is_rate_limited, drop_old}
use month_erdmko_de.Chat.Limiter.Spacing.{IsSpaced, is_rate_limited-IsSpaced}
use month_erdmko_de.Chat.Session.{
  max_nickname_len, validate_nickname, validate_nickname-accepts, is_allowed_origin,
}
use month_erdmko_de.Tests.Data.{parts}
use month_erdmko_de.Chat.Events.{
  Payload, join_msg, join, payload_of, parse_client_event, opt_string,
  parse_client_event-payload_of,
}
use month_erdmko_de.Chat.Rooms.Capacity
use month_erdmko_de.Chat.Rooms.Capacity.{run_rooms-le, register, cleanup}
use month_erdmko_de.Voice.Registry.Bounds
use month_erdmko_de.Voice.Registry.Bounds.{IsBounded, run_voice-IsBounded}

abbrev second : ℕ
second = 1000000000

-- Six messages in one second, and one after eleven.
abbrev times : List ℕ
times = 0 ∷ 100 ∷ 200 ∷ 300 ∷ 400 ∷ 500 ∷ 11000000000 ∷ []

sixth_limited : accepted times [] ≡ 0 ∷ 100 ∷ 200 ∷ 300 ∷ 400 ∷ 11000000000 ∷ []
unfolding accepted is_rate_limited drop_old
sixth_limited = refl

is_rate_limited-IsSpaced_example : IsSpaced (accepted times [])
is_rate_limited-IsSpaced_example = is_rate_limited-IsSpaced times 0 (
  omega arith,
  (omega arith, (omega arith, (omega arith, (omega arith, (omega arith, (omega arith, tt)))))),
)

validate_nickname-accepts_example : (validate_nickname (codes " Ann ") ≡ some (codes "Ann")) ↔ (
    (codes "Ann" ≡ trim (codes " Ann "))
    × (trim (codes "Ann") ≡ codes "Ann")
    × (0 < length (codes "Ann"))
    × (length (codes "Ann") ≤ max_nickname_len))
validate_nickname-accepts_example = validate_nickname-accepts (codes " Ann ") (codes "Ann")

-- The connections below 3 are open.
abbrev open_below_three : ℕ → Bool
open_below_three a = ltb a 3

abbrev room_calls : List (Capacity.Call ℕ)
room_calls =
    register open_below_three (codes "general") 1
    ∷ register open_below_three (codes "rust") 2
    ∷ register open_below_three (codes "rust") 0
    ∷ cleanup open_below_three (codes "general")
    ∷ []

run_rooms-le_example : total (Capacity.run_calls 2 room_calls []) ≤ 2
run_rooms-le_example = run_rooms-le 2 room_calls [] (unfold total in omega arith)

abbrev voice_calls : List Bounds.Call
voice_calls =
    Bounds.join (codes "general") (codes "0xa") (codes "ann")
    ∷ Bounds.join (codes "general") (codes "0xb") (codes "bob")
    ∷ Bounds.leave (codes "general") (codes "0xa")
    ∷ []

run_voice-IsBounded_example : IsBounded (Bounds.run_calls voice_calls [])
run_voice-IsBounded_example =
    run_voice-IsBounded voice_calls []
      (record { rooms = tt; all_rooms = unfold total in omega arith })

origins :
    (is_allowed_origin (codes "HTTPS://erdmko.dev/") ≡ true)
    × (is_allowed_origin (codes "https://erdmko.dev.example") ≡ false)
unfolding is_allowed_origin parts starts_with
origins = (refl, refl)

-- A decoder that reads one message.
abbrev decode_join : List ℕ → Option (Option Payload)
decode_join [] = some none
decode_join (b ∷ bs) = some (some (join_msg [] (codes "ann")))

parse_client_event-payload_of_example :
    decode_join (10 ∷ []) ≡ some (some (payload_of (join none (codes "ann"))))
parse_client_event-payload_of_example =
    parse_client_event-payload_of decode_join (10 ∷ []) (join none (codes "ann"))
      (unfold parse_client_event in unfold opt_string in unfold parts in refl)
