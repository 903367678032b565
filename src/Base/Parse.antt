-- ===== src/Base/Parse.antt =====
-- Integers from text, as the standard library reads them (`from_str_radix`, `parse`), and decimal
-- printing.
pub mod Laws
pub mod Decimal
use month_erdmko_de.Base.{
  ℕ, zero, suc, ◌+◌, ◌-◌, ◌*◌, ◌/◌, ◌%◌, ◌^◌, Option, none, some, [], ◌∷◌, ◌++◌, true, false, ltb,
  leb, ◌==◌, ◌&&◌, if◌then◌else◌,
}
use month_erdmko_de.Base.Int.{ℤ, pos, negsuc}
use month_erdmko_de.Base.Text.{Str}

-- `char::to_digit`, for any radix up to 36.
unfoldable pub digit_value : ℕ → Option ℕ
digit_value c =
    if leb b'0' c && leb c b'9'
    then some (c - b'0')
    else if leb b'a' c && leb c b'z'
    then some (c - b'a' + 10)
    else if leb b'A' c && leb c b'Z'
    then some (c - b'A' + 10)
    else none

unfoldable pub to_digit : ℕ → ℕ → Option ℕ
unfolding digit_value
to_digit r c = elim (digit_value c) [ none ↦ none | some d ↦ if ltb d r then some d else none ]

-- The digits of radix r behind `acc`; `none` at a character that is no digit, and as soon as the
-- value reaches the modulus m.
unfoldable pub parse_digits : ℕ → ℕ → ℕ → Str → Option ℕ
parse_digits r m acc [] = some acc
parse_digits r m acc (c ∷ s) = elim (to_digit r c) [
  | none ↦ none
  | some d ↦ elim (ltb (acc * r + d) m) [ true ↦ parse_digits r m (acc * r + d) s | false ↦ none ]
]

unfoldable pub some_digits : ℕ → ℕ → Str → Option ℕ
unfolding parse_digits
some_digits r m [] = none
some_digits r m (c ∷ s) = parse_digits r m 0 (c ∷ s)

-- `from_str_radix` of an unsigned type with values below m: a sign `+` is allowed.
unfoldable pub from_str_radix : ℕ → ℕ → Str → Option ℕ
unfolding some_digits
from_str_radix r m [] = none
from_str_radix r m (c ∷ s) = if c == b'+' then some_digits r m s else some_digits r m (c ∷ s)

abbrev pub u64_mod : ℕ
u64_mod = 2 ^ 64

abbrev pub u128_mod : ℕ
u128_mod = 2 ^ 128

-- The negative of a magnitude.
abbrev pub negate : ℕ → ℤ
negate zero = pos 0
negate (suc n) = negsuc n

unfoldable pub signed : Option ℕ → Option ℤ
signed none = none
signed (some n) = some (pos n)

unfoldable pub negated : Option ℕ → Option ℤ
negated none = none
negated (some n) = some (negate n)

-- `parse::<i64>`
unfoldable pub parse_i64 : Str → Option ℤ
unfolding some_digits signed negated
parse_i64 [] = none
parse_i64 (c ∷ s) =
    if c == b'-'
    then negated (some_digits 10 (2 ^ 63 + 1) s)
    else if c == b'+'
    then signed (some_digits 10 (2 ^ 63) s)
    else signed (some_digits 10 (2 ^ 63) (c ∷ s))

-- The decimal digits of n in front of `rest`; fuel at least the number of digits is enough.
unfoldable pub decimal_digits : ℕ → ℕ → Str → Str
decimal_digits zero n rest = rest
decimal_digits (suc f) n rest =
    let out = (b'0' + n % 10) ∷ rest in
    let more = decimal_digits f (n / 10) out in if ltb n 10 then out else more

-- `to_string` of an unsigned integer below 10 ^ 40.
unfoldable pub to_decimal : ℕ → Str
unfolding decimal_digits
to_decimal n = decimal_digits 40 n []
