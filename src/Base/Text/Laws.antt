-- ===== src/Base/Text/Laws.antt =====
-- Laws of the text operations that the components share.
use month_erdmko_de.Base.{
  ℕ, suc, ◌<◌, ◌≡◌, refl, ap, ◌↔◌, ◌⊎◌, inl, inr, true, false, [], ◌∷◌, arith, length, All,
  Bool-cases,
}
use month_erdmko_de.Base.Text.{
  Str, bytes, len, is_whitespace, trim_start, keep_char, trim_end, trim, str_eq, to_lower,
  to_ascii_lowercase,
}

pub str_eq_sound : (s t : Str) → str_eq s t ≡ true → s ≡ t
unfolding str_eq
str_eq_sound [] [] h = refl
str_eq_sound [] (d ∷ t) h = cc
str_eq_sound (c ∷ s) [] h = cc
str_eq_sound (c ∷ s) (d ∷ t) h = ground (arith, str_eq_sound s t)

pub str_eq_refl : (s : Str) → str_eq s s ≡ true
unfolding str_eq
str_eq_refl [] = refl
str_eq_refl (c ∷ s) = ground (arith, str_eq_refl s)

pub str_eq_iff : (s t : Str) → (str_eq s t ≡ true) ↔ (s ≡ t)
str_eq_iff s t = (str_eq_sound s t, λ e. rw e (str_eq_refl t))

-- No character is white space.
abbrev pub NoSpace : Str → Type 0
NoSpace = All (λ c. is_whitespace c ≡ false)

pub keep_char-of_nonspace : (c : ℕ) (s : Str) → is_whitespace c ≡ false → keep_char c s ≡ c ∷ s
unfolding keep_char
keep_char-of_nonspace c [] h = rw h
keep_char-of_nonspace c (d ∷ s) h = refl

pub trim_start-of_nonspace :
    (c : ℕ) (s : Str) → is_whitespace c ≡ false → trim_start (c ∷ s) ≡ c ∷ s
unfolding trim_start
trim_start-of_nonspace c s h = rw h

pub trim_end_id : (s : Str) → NoSpace s → trim_end s ≡ s
unfolding trim_end
trim_end_id [] h = refl
trim_end_id (c ∷ s) h = rw (trim_end_id s h.1) (keep_char-of_nonspace c s h.0)

pub trim_start_id : (s : Str) → NoSpace s → trim_start s ≡ s
trim_start_id [] h = unfold trim_start in refl
trim_start_id (c ∷ s) h = trim_start-of_nonspace c s h.0

-- A text with no white space is its own trimmed form.
pub trim_id : (s : Str) → NoSpace s → trim s ≡ s
unfolding trim
trim_id s h = rw (trim_start_id s h) (trim_end_id s h)

keep_char-keep_char : (c : ℕ) (s : Str) → trim_end s ≡ s → trim_end (keep_char c s) ≡ keep_char c s
unfolding trim_end keep_char
keep_char-keep_char c [] h = ground arith
keep_char-keep_char c (d ∷ s) h = rw h

trim_end-trim_end : (s : Str) → trim_end (trim_end s) ≡ trim_end s
unfolding trim_end
trim_end-trim_end [] = refl
trim_end-trim_end (c ∷ s) = keep_char-keep_char c (trim_end s) (trim_end-trim_end s)

-- What `trim_start` leaves is empty or starts with a character that is not white space.
trim_start-cases :
    (s : Str)
    → (trim_start s ≡ [])
      ⊎ ((c : ℕ) × (t : Str) × (trim_start s ≡ c ∷ t) × (is_whitespace c ≡ false))
unfolding trim_start
trim_start-cases [] = inl refl
trim_start-cases (c ∷ s) = elim (Bool-cases (is_whitespace c)) [
  | inl e ↦ rw e (trim_start-cases s)
  | inr e ↦ rw e (inr (c, s, refl, e))
]

trim_start-trim_end_of :
    (c : ℕ) (t : Str) → is_whitespace c ≡ false → trim_start (trim_end (c ∷ t)) ≡ trim_end (c ∷ t)
trim_start-trim_end_of c t h =
    unfold trim_end in
    rw (keep_char-of_nonspace c (trim_end t) h) (trim_start-of_nonspace c (trim_end t) h)

-- Trimming twice is trimming once.
pub trim-trim : (s : Str) → trim (trim s) ≡ trim s
unfolding trim
trim-trim s = elim (trim_start-cases s) [
  | inl e ↦ rw e (unfold trim_start trim_end in refl)
  | inr (c, t, e, h) ↦ rw (e, trim_start-trim_end_of c t h) (trim_end-trim_end (c ∷ t))
]

abbrev pub IsAscii : Str → Type 0
IsAscii = All (λ c. c < 128)

-- An ASCII text has as many bytes as characters, and the bytes are the characters.
pub bytes-of_ascii : (s : Str) → IsAscii s → bytes s ≡ s
unfolding bytes
bytes-of_ascii [] h = refl
bytes-of_ascii (c ∷ s) h = ground (arith, bytes-of_ascii s h.1)

pub len-of_ascii : (s : Str) → IsAscii s → len s ≡ length s
unfolding len
len-of_ascii s h = rw (bytes-of_ascii s h)

pub length-to_ascii_lowercase : (s : Str) → length (to_ascii_lowercase s) ≡ length s
unfolding to_ascii_lowercase
length-to_ascii_lowercase [] = refl
length-to_ascii_lowercase (c ∷ s) = ap suc (length-to_ascii_lowercase s)

to_lower-to_lower : (c : ℕ) → to_lower (to_lower c) ≡ to_lower c
unfolding to_lower
to_lower-to_lower c = ground arith

pub to_ascii_lowercase_idem :
    (s : Str) → to_ascii_lowercase (to_ascii_lowercase s) ≡ to_ascii_lowercase s
unfolding to_ascii_lowercase
to_ascii_lowercase_idem [] = refl
to_ascii_lowercase_idem (c ∷ s) = cc (to_lower-to_lower c, to_ascii_lowercase_idem s)

pub str_eq_comm : (s t : Str) → str_eq s t ≡ str_eq t s
unfolding str_eq
str_eq_comm [] [] = refl
str_eq_comm [] (d ∷ t) = refl
str_eq_comm (c ∷ s) [] = refl
str_eq_comm (c ∷ s) (d ∷ t) = ground (arith, str_eq_comm s t)
