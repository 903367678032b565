-- ===== src/Base/Lines/Laws.antt =====
-- Joined lines are read back, and a suffix that was added is stripped.
use month_erdmko_de.Base.{
  ℕ, ◌<◌, ◌≡◌, refl, ap, inl, inr, false, some, List, [], ◌∷◌, ◌++◌, arith, ◌==◌, All, length,
  length-append, Bool-cases,
}
use month_erdmko_de.Base.Text.{Str, str_eq}
use month_erdmko_de.Base.Text.Laws.{str_eq_refl, str_eq_sound}
use month_erdmko_de.Base.Lines.{newline, carriage_return, replace_crlf, lines, join, strip_suffix}

-- No newline and no carriage return.
abbrev pub NoBreak : Str → Type 0
NoBreak = All (λ c. ((c == newline) ≡ false) × ((c == carriage_return) ≡ false))

replace_crlf-line :
    (l s : Str) → NoBreak l → replace_crlf (l ++ (newline ∷ s)) ≡ l ++ (newline ∷ replace_crlf s)
unfolding replace_crlf
replace_crlf-line [] s h = refl
replace_crlf-line (c ∷ l) s (h, hs) = rw h.1 (ap (λ r. c ∷ r) (replace_crlf-line l s hs))

replace_crlf_id : (l : Str) → NoBreak l → replace_crlf l ≡ l
unfolding replace_crlf
replace_crlf_id [] h = refl
replace_crlf_id (c ∷ l) (h, hs) = rw h.1 (ap (λ r. c ∷ r) (replace_crlf_id l hs))

lines-line : (l s : Str) → NoBreak l → lines (l ++ (newline ∷ s)) ≡ l ∷ lines s
unfolding lines
lines-line [] s h = refl
lines-line (c ∷ l) s (h, hs) = rw (h.0, h.1, lines-line l s hs) refl

lines-last : (c : ℕ) (l : Str) → NoBreak (c ∷ l) → lines (c ∷ l) ≡ (c ∷ l) ∷ []
unfolding lines
lines-last c [] (h, hs) = rw (h.0, h.1) refl
lines-last c (d ∷ l) (h, hs) = rw (h.0, h.1, lines-last d l hs) refl

-- Lines with no break in them, the last one not empty.
abbrev pub AreLines : List Str → Type 0
AreLines [] = Unit
AreLines (l ∷ []) = NoBreak l × (0 < length l)
AreLines (l ∷ m ∷ ls) = NoBreak l × AreLines (m ∷ ls)

-- Joined lines are read back.
pub lines-join : (ls : List Str) → AreLines ls → lines (replace_crlf (join ls)) ≡ ls
unfolding join
lines-join [] h = unfold replace_crlf lines in refl
lines-join ([] ∷ []) h = absurd (omega (arith, h.1))
lines-join ((c ∷ l) ∷ []) h = rw (replace_crlf_id (c ∷ l) h.0) (lines-last c l h.0)
lines-join (l ∷ m ∷ ls) (h, hs) =
    rw (replace_crlf-line l (join (m ∷ ls)) h, lines-line l (replace_crlf (join (m ∷ ls))) h)
      (ap (λ r. l ∷ r) (lines-join (m ∷ ls) hs))

str_eq-longer : (s p : Str) → length p < length s → str_eq s p ≡ false
str_eq-longer s p h = elim (Bool-cases (str_eq s p)) [
  | inr e ↦ e
  | inl e ↦ absurd (omega (arith, ap (λ r. length r) (str_eq_sound s p e)))
]

strip_suffix_self : (p : Str) → strip_suffix p p ≡ some []
unfolding strip_suffix
strip_suffix_self [] = rw (str_eq_refl []) refl
strip_suffix_self (c ∷ p) = rw (str_eq_refl (c ∷ p)) refl

-- A suffix that was added is stripped.
pub strip_suffix-append : (p s : Str) → strip_suffix p (s ++ p) ≡ some s
unfolding strip_suffix
strip_suffix-append p [] = strip_suffix_self p
strip_suffix-append p (c ∷ s) =
    rw
      (
        str_eq-longer (c ∷ (s ++ p)) p (omega (arith, length-append {0} s p)),
        strip_suffix-append p s,
      )
      refl
