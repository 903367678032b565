-- ===== src/Auth/Service/Nickname.antt =====
-- Accepted nicknames (server/src/auth/service.rs).
use month_erdmko_de.Base.{
  ℕ, ◌≤◌, ◌<◌, ◌≡◌, refl, ◌⊎◌, inl, inr, true, false, [], ◌∷◌, arith, length, all, All, Bool-cases,
}
use month_erdmko_de.Base.Text.{Str, bytes, utf8, trim, is_empty, is_whitespace}
use month_erdmko_de.Base.Text.Laws.{NoSpace, IsAscii, trim_id, bytes-of_ascii, len-of_ascii}
use month_erdmko_de.Base.Result.{ok}
use month_erdmko_de.Auth.Service.{validate_ascii_nickname, is_nickname_byte, max_ascii_nickname_len}
use month_erdmko_de.Auth.Service.Normal.{all-append}

-- a-z, 0-9, `_` or `-`
abbrev pub IsNicknameChar : ℕ → Type 0
IsNicknameChar c = ((b'a' ≤ c) × (c ≤ b'z')) ⊎ ((b'0' ≤ c) × (c ≤ b'9')) ⊎ (c ≡ b'_') ⊎ (c ≡ b'-')

-- 1 to 32 characters a-z, 0-9, `_` or `-`.
abbrev pub IsNickname : Str → Type 0
IsNickname s = (0 < length s) × (length s ≤ max_ascii_nickname_len) × All IsNicknameChar s

char-of_bytes : (c : ℕ) → all is_nickname_byte (utf8 c) ≡ true → IsNicknameChar c
char-of_bytes c h = ground arith

chars-of_bytes : (s : Str) → all is_nickname_byte (bytes s) ≡ true → All IsNicknameChar s
unfolding bytes
chars-of_bytes [] h = tt
chars-of_bytes (c ∷ s) h =
    ground
      (arith, all-append is_nickname_byte (utf8 c) (bytes s), char-of_bytes c, chars-of_bytes s)

IsNicknameChar-facts :
    (c : ℕ) → IsNicknameChar c → (c < 128) × (is_whitespace c ≡ false) × (is_nickname_byte c ≡ true)
unfolding is_whitespace
IsNicknameChar-facts c h = ground arith

All-facts :
    (s : Str) → All IsNicknameChar s → IsAscii s × NoSpace s × (all is_nickname_byte s ≡ true)
All-facts [] h = (tt, tt, refl)
All-facts (c ∷ s) h = ground (arith, IsNicknameChar-facts c h.0, All-facts s h.1)

is_empty-length : (s : Str) → is_empty s ≡ false → 0 < length s
unfolding is_empty
is_empty-length [] h = cc
is_empty-length (c ∷ s) h = omega arith

length-is_empty : (s : Str) → 0 < length s → is_empty s ≡ false
unfolding is_empty
length-is_empty [] h = absurd (omega arith)
length-is_empty (c ∷ s) h = refl

-- An accepted nickname is the trimmed input, and it has 1 to 32 characters a-z, 0-9, `_` or `-`.
pub validate_ascii_nickname-IsNickname :
    (raw : Str) {s : Str} → validate_ascii_nickname raw ≡ ok s → (s ≡ trim raw) × IsNickname s
unfolding validate_ascii_nickname
validate_ascii_nickname-IsNickname raw {s} h =
    elim (Bool-cases (all is_nickname_byte (bytes (trim raw)))) [
      | inr bad ↦ ground arith
      | inl good ↦
          let chars = chars-of_bytes (trim raw) good in
          let facts = All-facts (trim raw) chars in
          ground (arith, is_empty-length (trim raw), len-of_ascii (trim raw) facts.0, chars)
    ]

-- Every such text is accepted as it stands.
pub validate_ascii_nickname-of_nickname :
    (s : Str) → IsNickname s → validate_ascii_nickname s ≡ ok s
unfolding validate_ascii_nickname
validate_ascii_nickname-of_nickname s (low, high, chars) =
    let facts = All-facts s chars in
    rw
      (
        trim_id s facts.1,
        length-is_empty s low,
        len-of_ascii s facts.0,
        bytes-of_ascii s facts.0,
        facts.2,
      )
      (ground arith)
