-- ===== src/Base/Result.antt =====
-- Rust's `Result` with its `?` as bind, the lookups of an association list, and `Option::or_else`.
use month_erdmko_de.Base.{◌≡◌, refl, ◌⊎◌, inl, inr, Option, none, some, Bool, true, false, arith}

pub data Result {ℓ κ} (E : Type ℓ) (A : Type κ) : Type (ℓ ⊔ κ) where
  ok : A → Result E A
  err : E → Result E A

-- The operator `?` in front of the rest of the function.
module _ {ℓ κ μ} {E : Type ℓ} {A : Type κ} {B : Type μ} where
  infixl 5 ◌>>=◌
  abbrev pub ◌>>=◌ : Result E A → (A → Result E B) → Result E B
  err why >>= rest = err why
  ok value >>= rest = rest value

  -- Where the function returns, the fallible call in front of the rest has returned.
  pub >>=-ok :
      (call : Result E A) (rest : A → Result E B) {out : B}
      → (call >>= rest) ≡ ok out
      → (value : A) × (call ≡ ok value) × (rest value ≡ ok out)
  >>=-ok (err why) rest returned = cc
  >>=-ok (ok value) rest returned = (value, refl, returned)

abbrev pub is_ok {ℓ κ} : {E : Type ℓ} {A : Type κ} → Result E A → Bool
is_ok (ok a) = true
is_ok (err e) = false

abbrev pub or_else {ℓ} : {A : Type ℓ} → Option A → Option A → Option A
or_else none o = o
or_else (some a) o = some a

-- `ok_or`
abbrev pub ok_or {ℓ κ} : {E : Type ℓ} {A : Type κ} → Option A → E → Result E A
ok_or none e = err e
ok_or (some a) e = ok a

pub Result-cases {ℓ κ} :
    {E : Type ℓ} {A : Type κ} (r : Result E A) → ((a : A) × (r ≡ ok a)) ⊎ ((e : E) × (r ≡ err e))
Result-cases (ok a) = inl (a, refl)
Result-cases (err e) = inr (e, refl)

pub ok-inj {ℓ κ} : {E : Type ℓ} {A : Type κ} {a b : A} → Path (Result E A) (ok a) (ok b) → a ≡ b
ok-inj {E = E} {A = A} {a} {b} h = ground arith

pub err-inj {ℓ κ} : {E : Type ℓ} {A : Type κ} {d e : E} → Path (Result E A) (err d) (err e) → d ≡ e
err-inj {E = E} {A = A} {d} {e} h = ground arith
