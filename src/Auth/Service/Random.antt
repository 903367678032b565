-- ===== src/Auth/Service/Random.antt =====
-- Random tokens in hexadecimal (server/src/auth/service.rs).
use month_erdmko_de.Base.{ℕ, ◌*◌, ◌/◌, ◌%◌, ◌<◌, ◌≡◌, refl, ap₂, List, [], ◌∷◌, arith, length, All}
use month_erdmko_de.Auth.Service.{hex_digit, random_hex}
use month_erdmko_de.Auth.Service.Normal.{IsLowerHex}

abbrev pub IsByte : ℕ → Type 0
IsByte b = b < 256

hex_digit-injective : (c d : ℕ) → c < 16 → d < 16 → hex_digit c ≡ hex_digit d → c ≡ d
unfolding hex_digit
hex_digit-injective c d h k e = ground arith

hex_digit-lower : (d : ℕ) → d < 16 → IsLowerHex (hex_digit d)
unfolding hex_digit
hex_digit-lower d h = ground arith

byte-digits : (b c : ℕ) → b / 16 ≡ c / 16 → b % 16 ≡ c % 16 → b ≡ c
byte-digits b c h k = omega arith

-- `random_hex` of n bytes is a text of 2 n digits 0-9 or a-f.
pub random_hex-digits :
    (bs : List ℕ)
    → All IsByte bs
    → (length (random_hex bs) ≡ 2 * length bs) × All IsLowerHex (random_hex bs)
unfolding random_hex
random_hex-digits [] h = (refl, tt)
random_hex-digits (b ∷ bs) h =
    let rest = random_hex-digits bs h.1 in
    (
      omega (arith, rest.0),
      (hex_digit-lower (b / 16) (omega arith), (hex_digit-lower (b % 16) (omega arith), rest.1)),
    )

-- Different draws of bytes give different texts.
pub random_hex-injective :
    (xs bs : List ℕ) → All IsByte xs → All IsByte bs → random_hex xs ≡ random_hex bs → xs ≡ bs
unfolding random_hex
random_hex-injective [] [] h k e = refl
random_hex-injective [] (b ∷ bs) h k e = cc
random_hex-injective (a ∷ xs) [] h k e = cc
random_hex-injective (a ∷ xs) (b ∷ bs) h k e =
    let high : a / 16 ≡ b / 16 = hex_digit-injective _ _ (omega arith) (omega arith) (cc) in
    let low : a % 16 ≡ b % 16 = hex_digit-injective _ _ (omega arith) (omega arith) (cc) in
    ap₂ ◌∷◌ (byte-digits a b high low) (random_hex-injective xs bs h.1 k.1 (cc))
