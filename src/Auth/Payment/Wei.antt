-- ===== src/Auth/Payment/Wei.antt =====
-- What `parse_hex_wei` reads (server/src/auth/payment.rs).
use month_erdmko_de.Base.{
  ℕ, ◌≡◌, inl, inr, refl, sym, true, false, none, some, [], ◌∷◌, arith, ltb, ◌==◌, if◌then◌else◌,
  All, Bool-cases,
}
use month_erdmko_de.Base.Text.{Str, is_whitespace, is_empty}
use month_erdmko_de.Base.Text.Laws.{NoSpace, trim_id}
use month_erdmko_de.Base.Parse.{digit_value, to_digit, some_digits, from_str_radix, u128_mod}
use month_erdmko_de.Base.Parse.Laws.{value_from, IsDigit, parse_digits-value}
use month_erdmko_de.Base.Result.{ok, err, ok_or}
use month_erdmko_de.Auth.Error.{AuthResult, validation_error}
use month_erdmko_de.Auth.Service.{strip_0x}
use month_erdmko_de.Auth.Payment.{trim_zeros, hex_quantity, parse_hex_wei}

digit-facts : (c : ℕ) → IsDigit 16 c → (is_whitespace c ≡ false) × ((c == b'+') ≡ false)
unfolding is_whitespace to_digit digit_value
digit-facts c (d, e) = ground arith

digits-NoSpace : (h : Str) → All (IsDigit 16) h → NoSpace h
digits-NoSpace [] p = tt
digits-NoSpace (c ∷ h) (p, ps) = ((digit-facts c p).0, digits-NoSpace h ps)

zero-digit : (c : ℕ) → (c == b'0') ≡ true → to_digit 16 c ≡ some 0
unfolding to_digit digit_value
zero-digit c h = ground arith

trim_zeros-value : (h : Str) → value_from 16 0 (trim_zeros h) ≡ value_from 16 0 h
unfolding trim_zeros value_from
trim_zeros-value [] = refl
trim_zeros-value (c ∷ h) = elim (Bool-cases (c == b'0')) [
  | inl z ↦ rw (z, zero-digit c z) (trim_zeros-value h)
  | inr o ↦ rw o refl
]

trim_zeros-digits : (h : Str) → All (IsDigit 16) h → All (IsDigit 16) (trim_zeros h)
unfolding trim_zeros
trim_zeros-digits [] p = tt
trim_zeros-digits (c ∷ h) (p, ps) = elim (Bool-cases (c == b'0')) [
  | inl z ↦ rw z (trim_zeros-digits h ps)
  | inr o ↦ rw o (p, ps)
]

-- A value that fits, or the error of one that does not.
abbrev quantity : ℕ → AuthResult ℕ
quantity n =
    if ltb n u128_mod then ok n else err (validation_error "invalid hex quantity or overflow")

stripped-quantity :
    (c : ℕ) (h : Str)
    → All (IsDigit 16) (c ∷ h)
    → from_str_radix 16 u128_mod (c ∷ h)
      ≡ (if ltb (value_from 16 0 (c ∷ h)) u128_mod then some (value_from 16 0 (c ∷ h)) else none)
unfolding from_str_radix some_digits
stripped-quantity c h p =
    rw ((digit-facts c p.0).1)
      (parse_digits-value 16 u128_mod 0 (c ∷ h) (omega arith) (omega arith) p)

of_stripped :
    (s : Str)
    → All (IsDigit 16) s
    → (if is_empty s
        then ok 0
        else ok_or
            (from_str_radix 16 u128_mod s)
            (validation_error "invalid hex quantity or overflow"))
      ≡ quantity (value_from 16 0 s)
unfolding is_empty value_from
of_stripped [] p = refl
of_stripped (c ∷ h) p = rw (stripped-quantity c h p) (ground arith)

hex_quantity-value :
    (c : ℕ) (h : Str)
    → All (IsDigit 16) (c ∷ h)
    → hex_quantity (c ∷ h) ≡ quantity (value_from 16 0 (c ∷ h))
unfolding hex_quantity is_empty
hex_quantity-value c h p =
    rw (sym (trim_zeros-value (c ∷ h)))
      (of_stripped (trim_zeros (c ∷ h)) (trim_zeros-digits (c ∷ h) p))

prefixed : (c : ℕ) (h : Str) → strip_0x (b'0' ∷ b'x' ∷ c ∷ h) ≡ some (c ∷ h)
unfolding strip_0x
prefixed c h = refl

-- `parse_hex_wei` reads `0x` and at least one hexadecimal digit, of either case and with leading
-- zeros or not, to the number that the digits denote if it is below 2^128, and to the overflow
-- error otherwise.
pub parse_hex_wei-value :
    (c : ℕ) (h : Str)
    → All (IsDigit 16) (c ∷ h)
    → parse_hex_wei (b'0' ∷ b'x' ∷ c ∷ h) ≡ (
        if ltb (value_from 16 0 (c ∷ h)) u128_mod
        then ok (value_from 16 0 (c ∷ h))
        else err (validation_error "invalid hex quantity or overflow"))
unfolding parse_hex_wei
parse_hex_wei-value c h p =
    rw
      (
        trim_id (b'0' ∷ b'x' ∷ c ∷ h)
            (unfold is_whitespace in (refl, (refl, digits-NoSpace (c ∷ h) p))),
        prefixed c h,
      )
      (hex_quantity-value c h p)
