-- ===== src/Auth/Handlers/Cookie/Among.antt =====
-- The session's token is found among the cookies of a request (server/src/pages/auth.rs).
use month_erdmko_de.Base.{
  ◌≡◌, refl, ◌∙◌, inl, inr, false, none, some, List, [], ◌∷◌, ◌++◌, arith, ◌==◌, All, Bool-cases,
  Option-cases,
}
use month_erdmko_de.Base.Lines.{push_char}
use month_erdmko_de.Base.Text.{Str, codes, trim, trim_start, is_whitespace, strip_prefix, is_empty}
use month_erdmko_de.Base.Text.Laws.{NoSpace, trim_id}
use month_erdmko_de.Auth.Handlers.Cookie.{
  session_cookie_name, split, cookie_value, part_token, first_token, extract_session_token,
}

-- No semicolon.
abbrev pub IsPart : Str → Type 0
IsPart = All (λ c. (c == b';') ≡ false)

-- What stands behind the token: nothing, or a semicolon and whatever the client sends.
abbrev pub EndsPart : Str → Type 0
EndsPart [] = Unit
EndsPart (c ∷ s) = c ≡ b';'

-- The Cookie header of a client: the other cookies in front, each with `; ` behind it.
unfoldable pub cookie_text : List Str → Str → Str
cookie_text [] last = codes "month_session=" ++ last
cookie_text (p ∷ ps) last = p ++ (codes "; " ++ cookie_text ps last)

split-part : (p s : Str) → IsPart p → split b';' (p ++ (b';' ∷ s)) ≡ p ∷ split b';' s
unfolding split push_char
split-part [] s h = refl
split-part (c ∷ p) s (h, hs) = rw (split-part p s hs, h) refl

split-last : (p s : Str) → IsPart p → EndsPart s → (ps : List Str) × (split b';' (p ++ s) ≡ p ∷ ps)
unfolding split push_char
split-last [] [] h e = ([], refl)
split-last [] (c ∷ s) h e = (split b';' s, rw e refl)
split-last (c ∷ p) s (h, hs) e = let (ps, q) = split-last p s hs e in (ps, rw (q, h) refl)

-- Another cookie: the session cookie's name and its `=` do not stand at its beginning.
abbrev pub IsOther : Str → Type 0
IsOther p = IsPart p × (strip_prefix (codes "month_session=") (trim p) ≡ none)

-- A prefix is stripped in two parts.
strip_prefix-parts :
    (p q s val : Str) → strip_prefix p s ≡ some val → strip_prefix q val ≡ strip_prefix (p ++ q) s
unfolding strip_prefix
strip_prefix-parts [] q s val h = let same : s ≡ val = ground arith in rw same refl
strip_prefix-parts (c ∷ p) q [] val h = cc
strip_prefix-parts (c ∷ p) q (d ∷ s) val h = elim (Bool-cases (c == d)) [
  | inl e ↦ rw e (strip_prefix-parts p q s val (rw e at h))
  | inr e ↦ absurd (ground arith)
]

trim-space : (s : Str) → trim (0x20 ∷ s) ≡ trim s
unfolding trim trim_start is_whitespace
trim-space s = refl

part_token-other : (p : Str) → IsOther p → part_token p ≡ none
unfolding part_token
part_token-other p h = elim (Option-cases (strip_prefix session_cookie_name (trim p))) [
  | inl e ↦ rw (e, cookie_value) refl
  | inr (val, e) ↦
      let no_value = strip_prefix-parts session_cookie_name (codes "=") (trim p) val e ∙ h.1 in
      rw (e, cookie_value, no_value) refl
]

part_token-space : (p : Str) → part_token (0x20 ∷ p) ≡ part_token p
unfolding part_token
part_token-space p = rw (trim-space p) refl

named-NoSpace : (t : Str) → NoSpace t → NoSpace (codes "month_session=" ++ t)
unfolding is_whitespace
named-NoSpace t h = (
  refl,
  (
    refl,
    (
      refl,
      (refl, (refl, (refl, (refl, (refl, (refl, (refl, (refl, (refl, (refl, (refl, h))))))))))),
    ),
  ),
)

part_token-named :
    (t : Str) → NoSpace t → is_empty t ≡ false → part_token (codes "month_session=" ++ t) ≡ some t
unfolding part_token cookie_value strip_prefix
part_token-named t h e =
    rw (trim_id (codes "month_session=" ++ t) (named-NoSpace t h), trim_id t h, e) refl

IsPart-append : (p q : Str) → IsPart p → IsPart q → IsPart (p ++ q)
IsPart-append [] q h k = k
IsPart-append (c ∷ p) q (h, hs) k = (h, IsPart-append p q hs k)

named-IsPart : (t : Str) → IsPart t → IsPart (codes "month_session=" ++ t)
named-IsPart t h = (
  refl,
  (
    refl,
    (
      refl,
      (refl, (refl, (refl, (refl, (refl, (refl, (refl, (refl, (refl, (refl, (refl, h))))))))))),
    ),
  ),
)

first_token-found :
    (p : Str) (ps : List Str) (t : Str) → part_token p ≡ some t → first_token (p ∷ ps) ≡ some t
unfolding first_token
first_token-found p ps t h = rw (h, first_token) refl

first_token-skip :
    (p : Str) (ps : List Str) → part_token p ≡ none → first_token (p ∷ ps) ≡ first_token ps
unfolding first_token
first_token-skip p ps h = rw (h, first_token) refl

token-last :
    (t rest : Str)
    → IsPart t
    → NoSpace t
    → is_empty t ≡ false
    → EndsPart rest
    → (first_token (split b';' (cookie_text [] (t ++ rest))) ≡ some t)
      × (first_token (split b';' (0x20 ∷ cookie_text [] (t ++ rest))) ≡ some t)
unfolding cookie_text
token-last t rest h n e k =
    let part = codes "month_session=" ++ t in
    let named = part_token-named t n e in
    let (ps, q) = split-last part rest (named-IsPart t h) k in
    let (qs, r) = split-last (0x20 ∷ part) rest (refl, named-IsPart t h) k in
    (
      rw q (first_token-found part ps t named),
      rw r (first_token-found (0x20 ∷ part) qs t (part_token-space part ∙ named)),
    )

token-among :
    (ps : List Str) (t rest : Str)
    → All IsOther ps
    → IsPart t
    → NoSpace t
    → is_empty t ≡ false
    → EndsPart rest
    → (first_token (split b';' (cookie_text ps (t ++ rest))) ≡ some t)
      × (first_token (split b';' (0x20 ∷ cookie_text ps (t ++ rest))) ≡ some t)
unfolding cookie_text
token-among [] t rest o h n e k = token-last t rest h n e k
token-among (p ∷ ps) t rest (o, os) h n e k =
    let text = 0x20 ∷ cookie_text ps (t ++ rest) in
    let more = token-among ps t rest os h n e k in
    let other = part_token-other p o in
    (
      rw (split-part p text o.0) (first_token-skip p _ other ∙ more.1),
      rw (split-part (0x20 ∷ p) text (refl, o.0))
          (first_token-skip (0x20 ∷ p) _ (part_token-space p ∙ other) ∙ more.1),
    )

-- The session's token is read from a Cookie header that holds it behind any other cookies and in
-- front of anything: the token has no white space and no semicolon and is not empty, and no other
-- cookie in front, trimmed, begins with `month_session=`.
pub extract_session_token-among :
    (ps : List Str) (t rest : Str)
    → All IsOther ps
    → IsPart t
    → NoSpace t
    → is_empty t ≡ false
    → EndsPart rest
    → extract_session_token (some (cookie_text ps (t ++ rest))) ≡ some t
unfolding extract_session_token
extract_session_token-among ps t rest o h n e k = (token-among ps t rest o h n e k).0
