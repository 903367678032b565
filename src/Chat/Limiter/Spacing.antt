-- ===== src/Chat/Limiter/Spacing.antt =====
-- What the rate limit guarantees.
use month_erdmko_de.Base.{
  ℕ, zero, suc, ◌-◌, ◌≤◌, ◌<◌, ◌≡◌, refl, sym, ap, subst, ◌∙◌, ◌⊎◌, inl, inr, true, false, Option,
  none, some, List, [], ◌∷◌, ◌++◌, arith, length, ltb, leb, All, Bool-cases,
}
use month_erdmko_de.Chat.Limiter.{
  rate_limit_max_messages, rate_limit_window, drop_old, is_rate_limited, accepted,
}

-- The element at an index.
abbrev pub get_elem? : List ℕ → ℕ → Option ℕ
get_elem? [] n = none
get_elem? (x ∷ xs) zero = some x
get_elem? (x ∷ xs) (suc n) = get_elem? xs n

-- Of any six times in a row the last is more than the window after the first.
abbrev pub IsSpaced : List ℕ → Type 0
IsSpaced [] = Unit
IsSpaced (x ∷ xs) = ((y : ℕ) → get_elem? xs 4 ≡ some y → rate_limit_window < y - x) × IsSpaced xs

-- The times do not decrease, from `t` on.
abbrev pub IsFrom : ℕ → List ℕ → Type 0
IsFrom t [] = Unit
IsFrom t (x ∷ xs) = (t ≤ x) × IsFrom x xs

-- More than the window before `now`.
abbrev IsOld : ℕ → List ℕ → Type 0
IsOld now = All (λ x. rate_limit_window < now - x)

get_elem?-append_one :
    (xs : List ℕ) (z n y : ℕ)
    → get_elem? (xs ++ (z ∷ [])) n ≡ some y
    → (get_elem? xs n ≡ some y) ⊎ (y ≡ z)
get_elem?-append_one [] z zero y h = ground arith
get_elem?-append_one [] z (suc n) y h = cc
get_elem?-append_one (x ∷ xs) z zero y h = inl h
get_elem?-append_one (x ∷ xs) z (suc n) y h = get_elem?-append_one xs z n y h

get_elem?-lt : (xs : List ℕ) (n y : ℕ) → get_elem? xs n ≡ some y → n < length xs
get_elem?-lt [] n y h = cc
get_elem?-lt (x ∷ xs) zero y h = omega arith
get_elem?-lt (x ∷ xs) (suc n) y h = omega (arith, get_elem?-lt xs n y h)

length-append_one : (xs : List ℕ) (z : ℕ) → length (xs ++ (z ∷ [])) ≡ suc (length xs)
length-append_one [] z = refl
length-append_one (x ∷ xs) z = omega (arith, length-append_one xs z)

short-IsSpaced : (xs : List ℕ) → length xs ≤ 5 → IsSpaced xs
short-IsSpaced [] h = tt
short-IsSpaced (x ∷ xs) h =
    (λ y e. omega (arith, get_elem?-lt xs 4 y e), short-IsSpaced xs (omega arith))

-- One more time, when at most four of those before are not old.
push-IsSpaced :
    (old queue : List ℕ) (now : ℕ)
    → IsSpaced (old ++ queue)
    → IsOld now old
    → length queue < 5
    → IsSpaced ((old ++ queue) ++ (now ∷ []))
push-IsSpaced [] queue now s o h =
    short-IsSpaced (queue ++ (now ∷ [])) (omega (arith, length-append_one queue now))
push-IsSpaced (x ∷ old) queue now s o h = (
  λ y e. elim (get_elem?-append_one (old ++ queue) now 4 y e) [
    | inl before ↦ s.0 y before
    | inr same ↦ omega (arith, o.0)
  ],
  push-IsSpaced old queue now s.1 o.1 h,
)

append_assoc : (xs ys zs : List ℕ) → (xs ++ ys) ++ zs ≡ xs ++ (ys ++ zs)
append_assoc [] ys zs = refl
append_assoc (x ∷ xs) ys zs = ap (λ r. x ∷ r) (append_assoc xs ys zs)

older : (t now : ℕ) (old : List ℕ) → t ≤ now → IsOld t old → IsOld now old
older t now [] h o = tt
older t now (x ∷ old) h o = (omega (arith, o.0), older t now old h o.1)

-- What the loop pops is old.
popped :
    (now : ℕ) (queue : List ℕ)
    → (gone : List ℕ) × (queue ≡ gone ++ drop_old now queue) × IsOld now gone
unfolding drop_old
popped now [] = ([], refl, tt)
popped now (x ∷ queue) =
    let (gone, e, o) = popped now queue in
    elim (Bool-cases (ltb rate_limit_window (now - x))) [
      | inl late ↦ (x ∷ gone, rw late (ap (λ r. x ∷ r) e), (ground arith, o))
      | inr recent ↦ ([], rw recent refl, tt)
    ]

IsOld-append : (now : ℕ) (xs ys : List ℕ) → IsOld now xs → IsOld now ys → IsOld now (xs ++ ys)
IsOld-append now [] ys o p = p
IsOld-append now (x ∷ xs) ys o p = (o.0, IsOld-append now xs ys o.1 p)

append_nil : (xs : List ℕ) → xs ++ [] ≡ xs
append_nil [] = refl
append_nil (x ∷ xs) = ap (λ r. x ∷ r) (append_nil xs)

accepted-limited :
    (now : ℕ) (times queue : List ℕ)
    → leb rate_limit_max_messages (length (drop_old now queue)) ≡ true
    → accepted (now ∷ times) queue ≡ accepted times (drop_old now queue)
unfolding accepted is_rate_limited
accepted-limited now times queue h = rw h refl

accepted-free :
    (now : ℕ) (times queue : List ℕ)
    → leb rate_limit_max_messages (length (drop_old now queue)) ≡ false
    → accepted (now ∷ times) queue ≡ now ∷ accepted times (drop_old now queue ++ (now ∷ []))
unfolding accepted is_rate_limited
accepted-free now times queue h = rw h refl

fewer_than_five : (n : ℕ) → leb rate_limit_max_messages n ≡ false → n < 5
fewer_than_five n h = ground arith

accepted-IsSpaced :
    (times old queue : List ℕ) (t : ℕ)
    → IsFrom t times
    → IsOld t old
    → IsSpaced (old ++ queue)
    → IsSpaced ((old ++ queue) ++ accepted times queue)
accepted-IsSpaced [] old queue t f o s =
    unfold accepted in subst IsSpaced (sym (append_nil (old ++ queue))) s
accepted-IsSpaced (now ∷ times) old queue t f o s =
    let (gone, e, og) = popped now queue in
    let recent = drop_old now queue in
    let same : old ++ queue ≡ (old ++ gone) ++ recent =
      ap (λ r. old ++ r) e ∙ sym (append_assoc old gone recent) in
    let o' = IsOld-append now old gone (older t now old f.0 o) og in
    let s' = subst IsSpaced same s in
    elim (Bool-cases (leb rate_limit_max_messages (length recent))) [
      | inl limited ↦
          rw (accepted-limited now times queue limited, same)
            (accepted-IsSpaced times (old ++ gone) recent now f.1 o' s')
      | inr free ↦
          let pushed = push-IsSpaced (old ++ gone) recent now s' o' (fewer_than_five _ free) in
          let regroup = append_assoc (old ++ gone) recent (now ∷ []) in
          let rest = accepted times (recent ++ (now ∷ [])) in
          rw (accepted-free now times queue free, same)
            (subst IsSpaced
              (ap (λ r. r ++ rest) (sym regroup)
                ∙ append_assoc ((old ++ gone) ++ recent) (now ∷ []) rest)
              (accepted-IsSpaced times (old ++ gone) (recent ++ (now ∷ [])) now f.1 o'
                (subst IsSpaced regroup pushed)))
    ]

-- The messages that a session may send, at times that do not decrease, are spaced: of any six that
-- are accepted in a row, the last comes more than ten seconds after the first.
pub is_rate_limited-IsSpaced :
    (times : List ℕ) (t : ℕ) → IsFrom t times → IsSpaced (accepted times [])
is_rate_limited-IsSpaced times t f = accepted-IsSpaced times [] [] t f tt tt
