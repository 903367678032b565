-- ===== src/Auth/Handlers/Cookie.antt =====
-- server/src/pages/auth.rs: the session cookie.
pub mod Among
use month_erdmko_de.Base.{
  ℕ, suc, ◌≡◌, ◌≢◌, refl, sym, ap, ◌∙◌, inl, inr, Bool, true, false, not, Option, none, some, List,
  [], ◌∷◌, ◌++◌, String, arith, ◌==◌, if◌then◌else◌, All,
}
use month_erdmko_de.Base.Int.{ℤ, pos, negsuc}
use month_erdmko_de.Base.Lines.{push_char}
use month_erdmko_de.Base.Parse.{to_decimal}
use month_erdmko_de.Base.Text.{Str, codes, trim, strip_prefix, is_empty}

abbrev pub session_cookie_name : Str
session_cookie_name = codes "month_session"

-- `split(c)`: the pieces between the characters c.
unfoldable pub split : ℕ → Str → List Str
unfolding push_char
split c [] = [] ∷ []
split c (d ∷ s) = let rest = split c s in if d == c then [] ∷ rest else push_char d rest

-- The token in the value behind the name, if there is one.
unfoldable pub cookie_value : Option Str → Option Str
cookie_value none = none
cookie_value (some val) = elim (strip_prefix (codes "=") val) [
  | none ↦ none
  | some token ↦ let trimmed = trim token in if not (is_empty trimmed) then some trimmed else none
]

unfoldable pub part_token : Str → Option Str
unfolding cookie_value
part_token part = cookie_value (strip_prefix session_cookie_name (trim part))

-- The loop over the parts of the header.
unfoldable pub first_token : List Str → Option Str
unfolding part_token
first_token [] = none
first_token (part ∷ parts) = elim (part_token part) [
  | some token ↦ some token
  | none ↦ first_token parts
]

-- `extract_session_token`, on the text of the Cookie header, if the request has one that is text.
unfoldable pub extract_session_token : Option Str → Option Str
unfolding split first_token
extract_session_token none = none
extract_session_token (some cookie_header) = first_token (split b';' cookie_header)

-- The printed form of an i64.
unfoldable pub signed_decimal : ℤ → Str
signed_decimal (pos n) = to_decimal n
signed_decimal (negsuc n) = b'-' ∷ to_decimal (suc n)

unfoldable pub format_session_set_cookie : Str → ℤ → Str
unfolding signed_decimal
format_session_set_cookie token max_age_secs =
    session_cookie_name
    ++ (codes "="
        ++ (token
            ++ (codes "; HttpOnly; Secure; SameSite=Lax; Path=/; Max-Age="
                ++ signed_decimal max_age_secs)))
