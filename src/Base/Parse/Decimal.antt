-- ===== src/Base/Parse/Decimal.antt =====
-- A number that is printed in decimal is read back.
use month_erdmko_de.Base.{
  ℕ, zero, suc, ◌+◌, ◌-◌, ◌*◌, ◌/◌, ◌%◌, ◌^◌, ◌≤◌, ◌<◌, ◌≡◌, refl, ◌∙◌, inl, inr, true, false, some,
  [], ◌∷◌, arith, ltb, ◌==◌, All, Bool-cases, length,
}
use month_erdmko_de.Base.Text.{Str}
use month_erdmko_de.Base.Parse.{
  digit_value, to_digit, some_digits, from_str_radix, decimal_digits, to_decimal,
}
use month_erdmko_de.Base.Parse.Laws.{value_from, IsDigit, parse_digits-value}

-- A digit 0-9.
abbrev pub IsDecimal : ℕ → Type 0
IsDecimal c = (b'0' ≤ c) × (c ≤ b'9')

to_digit-decimal : (d : ℕ) → d < 10 → to_digit 10 (b'0' + d) ≡ some d
unfolding to_digit digit_value
to_digit-decimal d h = ground arith

digit-decimal : (c : ℕ) → IsDecimal c → to_digit 10 c ≡ some (c - b'0')
unfolding to_digit digit_value
digit-decimal c h = ground arith

decimal-IsDigit : (s : Str) → All IsDecimal s → All (IsDigit 10) s
decimal-IsDigit [] h = tt
decimal-IsDigit (c ∷ s) (h, hs) = ((c - b'0', digit-decimal c h), decimal-IsDigit s hs)

-- Ten to the power of the fuel.
abbrev power_of_ten : ℕ → ℕ
power_of_ten zero = 1
power_of_ten (suc f) = 10 * power_of_ten f

value-digit :
    (acc d n : ℕ) (s : Str)
    → d < 10
    → acc * 10 + d ≡ n
    → value_from 10 acc ((b'0' + d) ∷ s) ≡ value_from 10 n s
unfolding value_from
value-digit acc d n s h e = rw (to_digit-decimal d h, e) refl

value-decimal_digits :
    (f n : ℕ) (rest : Str)
    → n < power_of_ten f
    → value_from 10 0 (decimal_digits f n rest) ≡ value_from 10 n rest
unfolding decimal_digits
value-decimal_digits zero n rest h = let e : n ≡ 0 = omega arith in rw e refl
value-decimal_digits (suc f) n rest h = elim (Bool-cases (ltb n 10)) [
  | inl small ↦
      let below : n < 10 = ground arith in
      rw small (value-digit 0 (n % 10) n rest (omega arith) (omega arith))
  | inr large ↦ rw large (
      value-decimal_digits f (n / 10) ((b'0' + n % 10) ∷ rest) (omega (arith, h))
      ∙ value-digit (n / 10) (n % 10) n rest (omega arith) (omega arith))
]

decimal_digits-IsDecimal :
    (f n : ℕ) (rest : Str) → All IsDecimal rest → All IsDecimal (decimal_digits f n rest)
unfolding decimal_digits
decimal_digits-IsDecimal zero n rest h = h
decimal_digits-IsDecimal (suc f) n rest h = elim (Bool-cases (ltb n 10)) [
  | inl small ↦ rw small ((omega arith, omega arith), h)
  | inr large ↦ rw large (decimal_digits-IsDecimal f (n / 10) _ ((omega arith, omega arith), h))
]

decimal_digits-length : (f n : ℕ) (rest : Str) → length rest ≤ length (decimal_digits f n rest)
unfolding decimal_digits
decimal_digits-length zero n rest = omega arith
decimal_digits-length (suc f) n rest = elim (Bool-cases (ltb n 10)) [
  | inl small ↦ rw small (omega arith)
  | inr large ↦ rw large (omega (arith, decimal_digits-length f (n / 10) ((b'0' + n % 10) ∷ rest)))
]

pub to_decimal-IsDecimal : (n : ℕ) → All IsDecimal (to_decimal n)
unfolding to_decimal
to_decimal-IsDecimal n = decimal_digits-IsDecimal 40 n [] tt

pub to_decimal-length : (n : ℕ) → 0 < length (to_decimal n)
unfolding to_decimal decimal_digits
to_decimal-length n = elim (Bool-cases (ltb n 10)) [
  | inl small ↦ rw small (omega arith)
  | inr large ↦ rw large (omega (arith, decimal_digits-length 39 (n / 10) ((b'0' + n % 10) ∷ [])))
]

value-to_decimal : (n : ℕ) → n < 10 ^ 40 → value_from 10 0 (to_decimal n) ≡ n
unfolding to_decimal
value-to_decimal n h = rw (value-decimal_digits 40 n [] h) (unfold value_from in refl)

from_str_radix-digits :
    (m : ℕ) (s : Str)
    → All IsDecimal s
    → 0 < length s
    → value_from 10 0 s < m
    → from_str_radix 10 m s ≡ some (value_from 10 0 s)
unfolding from_str_radix some_digits
from_str_radix-digits m [] h long below = absurd (omega (arith, long))
from_str_radix-digits m (c ∷ s) h long below =
    let plus : (c == b'+') ≡ false = ground (arith, h.0) in
    let fits : ltb (value_from 10 0 (c ∷ s)) m ≡ true = ground (arith, below) in
    let p =
      parse_digits-value 10 m 0 (c ∷ s) (omega arith) (omega (arith, below))
        (decimal-IsDigit (c ∷ s) h) in
    rw plus (rw fits at p)

-- A number that is printed in decimal is read back.
pub from_str_radix-to_decimal :
    (m n : ℕ) → n < m → n < 10 ^ 40 → from_str_radix 10 m (to_decimal n) ≡ some n
from_str_radix-to_decimal m n below small =
    let v = value-to_decimal n small in
    let read =
      from_str_radix-digits m (to_decimal n) (to_decimal-IsDecimal n) (to_decimal-length n)
        (rw v below) in
    rw v at read
