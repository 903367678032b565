-- ===== src/Chat/Limiter.antt =====
-- `ChatSessionState::is_rate_limited` of server/src/chat/service.rs. Instants are nanoseconds; the queue has
-- the oldest first.
pub mod Spacing
use month_erdmko_de.Base.{
  ℕ, ◌-◌, ◌*◌, Bool, true, false, List, [], ◌∷◌, ◌++◌, length, ltb, leb, if◌then◌else◌,
}

abbrev pub rate_limit_max_messages : ℕ
rate_limit_max_messages = 5

abbrev pub rate_limit_window : ℕ
rate_limit_window = 10 * 1000000000

-- The loop that pops the oldest entries.
unfoldable pub drop_old : ℕ → List ℕ → List ℕ
drop_old now [] = []
drop_old now (oldest ∷ later) =
    let rest = drop_old now later in
    if ltb rate_limit_window (now - oldest) then rest else oldest ∷ later

unfoldable pub is_rate_limited : ℕ → List ℕ → Bool × List ℕ
is_rate_limited now message_timestamps =
    let recent = drop_old now message_timestamps in
    if leb rate_limit_max_messages (length recent)
    then (true, recent)
    else (false, recent ++ (now ∷ []))

-- The calls at these times, one after another: the times that are not limited.
unfoldable pub accepted : List ℕ → List ℕ → List ℕ
accepted [] queue = []
accepted (now ∷ times) queue =
    let rest = accepted times (is_rate_limited now queue).1 in
    if (is_rate_limited now queue).0 then rest else now ∷ rest
