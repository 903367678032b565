-- ===== src/Auth/Service/Normal.antt =====
-- The normal form of wallet addresses and transaction hashes (server/src/auth/service.rs).
use month_erdmko_de.Base.{
  ℕ, ◌+◌, ◌≤◌, ◌<◌, ◌≡◌, refl, ◌∙◌, ◌⊎◌, inl, inr, Bool, true, false, ◌&&◌, some, [], ◌∷◌, ◌++◌,
  arith, String, length, all, All, Bool-cases, Option-cases,
}
use month_erdmko_de.Base.Text.{
  Str, utf8, bytes, len, trim, is_whitespace, is_ascii_hexdigit, to_lower, to_ascii_lowercase,
}
use month_erdmko_de.Base.Text.Laws.{
  NoSpace, IsAscii, trim_id, bytes-of_ascii, len-of_ascii, length-to_ascii_lowercase,
}
use month_erdmko_de.Base.Result.{ok}
use month_erdmko_de.Auth.Service.{
  strip_0x, lower_digits, normalize_hex, normalize_wallet_address, normalize_tx_hash,
  wallet_address_len, tx_hash_len,
}

-- A digit 0-9 or a-f.
abbrev pub IsLowerHex : ℕ → Type 0
IsLowerHex c = ((b'0' ≤ c) × (c ≤ b'9')) ⊎ ((b'a' ≤ c) × (c ≤ b'f'))

-- `0x` and lower-case hexadecimal digits, n characters in all.
abbrev pub IsCanonical : ℕ → Str → Type 0
IsCanonical n w = (h : Str) × (w ≡ b'0' ∷ b'x' ∷ h) × (length h + 2 ≡ n) × All IsLowerHex h

pub all-append : (p : ℕ → Bool) (xs ys : Str) → all p (xs ++ ys) ≡ (all p xs && all p ys)
all-append p [] ys = refl
all-append p (x ∷ xs) ys = ground (arith, all-append p xs ys)

-- A character all of whose bytes are hexadecimal digits is such a digit itself.
hex_utf8 :
    (c : ℕ) → all is_ascii_hexdigit (utf8 c) ≡ true → (c < 128) × (is_ascii_hexdigit c ≡ true)
unfolding is_ascii_hexdigit
hex_utf8 c h = ground arith

all_hex_bytes :
    (s : Str)
    → all is_ascii_hexdigit (bytes s) ≡ true
    → IsAscii s × All (λ c. is_ascii_hexdigit c ≡ true) s
unfolding bytes
all_hex_bytes [] h = (tt, tt)
all_hex_bytes (c ∷ s) h =
    ground (arith, all-append is_ascii_hexdigit (utf8 c) (bytes s), hex_utf8 c, all_hex_bytes s)

hex-to_lower : (c : ℕ) → is_ascii_hexdigit c ≡ true → IsLowerHex (to_lower c)
unfolding is_ascii_hexdigit to_lower
hex-to_lower c h = ground arith

lower-All :
    (s : Str) → All (λ c. is_ascii_hexdigit c ≡ true) s → All IsLowerHex (to_ascii_lowercase s)
unfolding to_ascii_lowercase
lower-All [] h = tt
lower-All (c ∷ s) h = (hex-to_lower c h.0, lower-All s h.1)

-- Canonical characters: ASCII, no white space, hexadecimal, unchanged by lowering.
IsLowerHex-facts :
    (c : ℕ)
    → IsLowerHex c
    → (c < 128) × (is_whitespace c ≡ false) × (is_ascii_hexdigit c ≡ true) × (to_lower c ≡ c)
unfolding is_ascii_hexdigit to_lower is_whitespace
IsLowerHex-facts c h = ground arith

pub All-facts :
    (s : Str)
    → All IsLowerHex s
    → IsAscii s × NoSpace s × (all is_ascii_hexdigit s ≡ true) × (to_ascii_lowercase s ≡ s)
unfolding to_ascii_lowercase
All-facts [] h = (tt, tt, refl, refl)
All-facts (c ∷ s) h = ground (arith, IsLowerHex-facts c h.0, All-facts s h.1)

strip_0x-cases : (s h : Str) → strip_0x s ≡ some h → (s ≡ b'0' ∷ b'x' ∷ h) ⊎ (s ≡ b'0' ∷ b'X' ∷ h)
unfolding strip_0x
strip_0x-cases [] h e = cc
strip_0x-cases (a ∷ []) h e = ground arith
strip_0x-cases (a ∷ b ∷ s) h e = ground arith

len-strip_0x : (s h : Str) → strip_0x s ≡ some h → IsAscii h → len s ≡ length h + 2
len-strip_0x s h e ascii = elim (strip_0x-cases s h e) [
  | inl p ↦ rw p (len-of_ascii _ (omega arith, (omega arith, ascii)) ∙ omega arith)
  | inr p ↦ rw p (len-of_ascii _ (omega arith, (omega arith, ascii)) ∙ omega arith)
]

lower_digits-IsCanonical :
    (a b : String) (n : ℕ) (s h : Str) {w : Str}
    → strip_0x s ≡ some h
    → len s ≡ n
    → lower_digits a b (some h) ≡ ok w
    → IsCanonical n w
unfolding lower_digits
lower_digits-IsCanonical a b n s h {w} e l r = elim (Bool-cases (all is_ascii_hexdigit (bytes h))) [
  | inr bad ↦ ground arith
  | inl hex ↦
      let facts = all_hex_bytes h hex in
      (
        to_ascii_lowercase h,
        ground arith,
        omega (arith, len-strip_0x s h e facts.0, length-to_ascii_lowercase h),
        lower-All h facts.1,
      )
]

-- What `normalize_hex` returns is canonical.
pub normalize_hex-IsCanonical :
    (n : ℕ) (a b c : String) (raw : Str) {w : Str}
    → normalize_hex n a b c raw ≡ ok w
    → IsCanonical n w
unfolding normalize_hex
normalize_hex-IsCanonical n a b c raw {w} h = elim (Option-cases (strip_0x (trim raw))) [
  | inl e ↦ ground arith
  | inr (d, e) ↦ lower_digits-IsCanonical b c n (trim raw) d e (ground arith) (ground arith)
]

lower_digits-of_hex :
    (a b : String) (h : Str) → All IsLowerHex h → lower_digits a b (some h) ≡ ok (b'0' ∷ b'x' ∷ h)
unfolding lower_digits
lower_digits-of_hex a b h hex =
    let facts = All-facts h hex in rw (bytes-of_ascii h facts.0, facts.2, facts.3)

strip_0x-prefixed : (h : Str) → strip_0x (b'0' ∷ b'x' ∷ h) ≡ some h
unfolding strip_0x
strip_0x-prefixed h = refl

-- A canonical text is normalized to itself.
pub normalize_hex-of_canonical :
    (n : ℕ) (a b c : String) (w : Str) → IsCanonical n w → normalize_hex n a b c w ≡ ok w
unfolding normalize_hex
normalize_hex-of_canonical n a b c w (h, e, l, hex) =
    let facts = All-facts h hex in
    rw
      (
        e,
        trim_id (b'0' ∷ b'x' ∷ h) (unfold is_whitespace in (refl, (refl, facts.1))),
        len-strip_0x (b'0' ∷ b'x' ∷ h) h (strip_0x-prefixed h) facts.0,
        strip_0x-prefixed h,
        lower_digits-of_hex b c h hex,
      )
      (ground arith)

-- A normalized wallet address is `0x` and forty digits 0-9 or a-f, and is its own normal form.
pub normalize_wallet_address-normal :
    (raw : Str) {w : Str}
    → normalize_wallet_address raw ≡ ok w
    → IsCanonical wallet_address_len w × (normalize_wallet_address w ≡ ok w)
unfolding normalize_wallet_address
normalize_wallet_address-normal raw {w} h =
    let canonical = normalize_hex-IsCanonical wallet_address_len _ _ _ raw h in
    (canonical, normalize_hex-of_canonical wallet_address_len _ _ _ w canonical)

-- A normalized transaction hash is `0x` and sixty-four digits 0-9 or a-f, and is its own normal
-- form.
pub normalize_tx_hash-normal :
    (raw : Str) {w : Str}
    → normalize_tx_hash raw ≡ ok w
    → IsCanonical tx_hash_len w × (normalize_tx_hash w ≡ ok w)
unfolding normalize_tx_hash
normalize_tx_hash-normal raw {w} h =
    let canonical = normalize_hex-IsCanonical tx_hash_len _ _ _ raw h in
    (canonical, normalize_hex-of_canonical tx_hash_len _ _ _ w canonical)
