-- ===== src/Base/Parse/Laws.antt =====
-- What `from_str_radix` computes.
use month_erdmko_de.Base.{
  ℕ, ◌+◌, ◌*◌, ◌≤◌, ◌<◌, ◌≡◌, inl, inr, Option, none, some, [], ◌∷◌, arith, ltb, if◌then◌else◌, All,
  Bool-cases,
}
use month_erdmko_de.Base.Text.{Str}
use month_erdmko_de.Base.Parse.{to_digit, parse_digits}

-- The value of digits of radix r behind `acc`; a character that is no digit counts as 0.
abbrev digit_or_zero : Option ℕ → ℕ
digit_or_zero none = 0
digit_or_zero (some d) = d

unfoldable pub value_from : ℕ → ℕ → Str → ℕ
value_from r acc [] = acc
value_from r acc (c ∷ s) = value_from r (acc * r + digit_or_zero (to_digit r c)) s

-- A digit of radix r.
abbrev pub IsDigit : ℕ → ℕ → Type 0
IsDigit r c = (d : ℕ) × (to_digit r c ≡ some d)

value_from-ge : (r acc : ℕ) (s : Str) → 0 < r → acc ≤ value_from r acc s
unfolding value_from
value_from-ge r acc [] h = omega arith
value_from-ge r acc (c ∷ s) h =
    grind (arith, value_from-ge r (acc * r + digit_or_zero (to_digit r c)) s h)

-- The digits are read to their value, or to nothing if that reaches the modulus.
pub parse_digits-value :
    (r m acc : ℕ) (s : Str)
    → 0 < r
    → acc < m
    → All (IsDigit r) s
    → parse_digits r m acc s
      ≡ (if ltb (value_from r acc s) m then some (value_from r acc s) else none)
unfolding value_from parse_digits
parse_digits-value r m acc [] p h d = ground arith
parse_digits-value r m acc (c ∷ s) p h ((d, e), ds) = elim (Bool-cases (ltb (acc * r + d) m)) [
  | inl fits ↦
      rw (e, parse_digits, fits) (parse_digits-value r m (acc * r + d) s p (grind arith) ds)
  | inr over ↦ rw (e, parse_digits, over) (ground (arith, value_from-ge r (acc * r + d) s p))
]
