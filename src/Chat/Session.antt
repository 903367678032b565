-- ===== src/Chat/Session.antt =====
-- The nickname of a chat session, and the tests on what a client sends (server/src/chat/service.rs).
use month_erdmko_de.Base.{
  ℕ, ◌*◌, ◌≤◌, ◌<◌, ◌≡◌, ◌↔◌, Bool, ◌&&◌, ◌||◌, Option, none, some, [], ◌∷◌, arith, length, ltb,
  leb, ◌==◌, if◌then◌else◌,
}
use month_erdmko_de.Base.Text.{
  Str, codes, trim, strip_prefix, starts_with, str_eq, to_ascii_lowercase, is_empty,
}
use month_erdmko_de.Base.Text.Laws.{trim-trim}
use month_erdmko_de.Base.Result.{or_else}

abbrev pub max_nickname_len : ℕ
max_nickname_len = 32

abbrev pub ws_max_payload_bytes : ℕ
ws_max_payload_bytes = 64 * 1024

-- `chars().count()` is the length: a text is the list of its characters.
unfoldable pub validate_nickname : Str → Option Str
validate_nickname raw =
    let trimmed = trim raw in
    if length trimmed == 0 || ltb max_nickname_len (length trimmed) then none else some trimmed

unfoldable pub is_valid_binary_payload_size : ℕ → Bool
is_valid_binary_payload_size payload_len = leb payload_len ws_max_payload_bytes

-- `trim_end_matches('/')`
unfoldable pub trim_slashes : Str → Str
trim_slashes [] = []
trim_slashes (c ∷ s) =
    let rest = trim_slashes s in if is_empty rest && c == b'/' then [] else c ∷ rest

-- `split('/').next()`
unfoldable pub before_slash : Str → Str
before_slash [] = []
before_slash (c ∷ s) = if c == b'/' then [] else c ∷ before_slash s

abbrev pub unwrap_or : Option Str → Str → Str
unwrap_or none s = s
unwrap_or (some t) s = t

unfoldable pub origin_host : Str → Str
unfolding trim_slashes before_slash strip_prefix
origin_host origin =
    let normalized = to_ascii_lowercase (trim_slashes (trim origin)) in
    before_slash (
      unwrap_or
        (or_else (strip_prefix (codes "http://") normalized)
          (strip_prefix (codes "https://") normalized))
        normalized)

unfoldable pub is_allowed_origin : Str → Bool
unfolding origin_host
is_allowed_origin origin =
    let host = origin_host origin in
    str_eq host (codes "erdmko.dev")
    || str_eq host (codes "erdmko.dev:443")
    || str_eq host (codes "localhost:8080")
    || starts_with (codes "127.0.0.1:") host

-- A chat nickname is accepted if and only if it has 1 to 32 characters once it is trimmed, and then
-- it is the trimmed text; trimming it again changes nothing.
pub validate_nickname-accepts :
    (raw s : Str)
    → (validate_nickname raw ≡ some s)
      ↔ ((s ≡ trim raw) × (trim s ≡ s) × (0 < length s) × (length s ≤ max_nickname_len))
unfolding validate_nickname
validate_nickname-accepts raw s =
    (λ h. ground (arith, trim-trim raw), λ h. ground (arith, trim-trim raw))
