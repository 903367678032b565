-- ===== src/Base/Lines.antt =====
-- Lines of a text, as `str::lines`, `replace("\r\n", "\n")` and `join("\n")` have them, and
-- `strip_suffix`.
pub mod Laws
use month_erdmko_de.Base.{
  ℕ, Bool, true, false, ◌&&◌, Option, none, some, List, [], ◌∷◌, ◌++◌, ◌==◌, if◌then◌else◌,
}
use month_erdmko_de.Base.Text.{Str, str_eq}

abbrev pub newline : ℕ
newline = 10

abbrev pub carriage_return : ℕ
carriage_return = 13

-- The text goes on with a newline.
unfoldable pub at_newline : Str → Bool
at_newline [] = false
at_newline (c ∷ s) = c == newline

-- `replace("\r\n", "\n")`
unfoldable pub replace_crlf : Str → Str
unfolding at_newline
replace_crlf [] = []
replace_crlf (c ∷ s) =
    let rest = replace_crlf s in if c == carriage_return && at_newline s then rest else c ∷ rest

unfoldable pub push_char : ℕ → List Str → List Str
push_char c [] = (c ∷ []) ∷ []
push_char c (l ∷ ls) = (c ∷ l) ∷ ls

-- `lines()`: a line ends with a newline or with a carriage return and a newline; the newline behind
-- the last line may be missing.
unfoldable pub lines : Str → List Str
unfolding at_newline push_char
lines [] = []
lines (c ∷ s) =
    let rest = lines s in
    if c == newline
    then [] ∷ rest
    else if c == carriage_return && at_newline s
    then rest
    else push_char c rest

-- `join("\n")`
unfoldable pub join : List Str → Str
join [] = []
join (l ∷ []) = l
join (l ∷ m ∷ ls) = l ++ (newline ∷ join (m ∷ ls))

unfoldable pub keep_front : ℕ → Option Str → Option Str
keep_front c none = none
keep_front c (some s) = some (c ∷ s)

-- `s.strip_suffix(p)`
unfoldable pub strip_suffix : Str → Str → Option Str
unfolding keep_front
strip_suffix p [] = if str_eq [] p then some [] else none
strip_suffix p (c ∷ s) =
    let rest = keep_front c (strip_suffix p s) in if str_eq (c ∷ s) p then some [] else rest
