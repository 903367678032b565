-- ===== src/Base/Rows.antt =====
-- Rows of a table as a list: what WHERE, DELETE and COUNT do with a Boolean test.
pub mod Laws
use month_erdmko_de.Base.Text.{Str, str_eq}
use month_erdmko_de.Base.{
  ℕ, suc, ◌≤◌, ◌≡◌, refl, Bool, true, false, Option, none, some, List, [], ◌∷◌, arith, ltb,
  if◌then◌else◌, length, All,
}

module _ {ℓ} {A : Type ℓ} where
  -- The first row that passes the test.
  abbrev pub find_row : (A → Bool) → List A → Option A
  find_row p [] = none
  find_row p (x ∷ xs) = if p x then some x else find_row p xs

  -- The rows that pass the test, in order.
  abbrev pub retain : (A → Bool) → List A → List A
  retain p [] = []
  retain p (x ∷ xs) = let rest = retain p xs in if p x then x ∷ rest else rest

  abbrev pub count_rows : (A → Bool) → List A → ℕ
  count_rows p [] = 0
  count_rows p (x ∷ xs) = let rest = count_rows p xs in if p x then suc rest else rest

  abbrev pub has_row : (A → Bool) → List A → Bool
  has_row p [] = false
  has_row p (x ∷ xs) = if p x then true else has_row p xs

  -- ORDER BY a number, ascending.
  unfoldable pub insert_by : (A → ℕ) → A → List A → List A
  insert_by key x [] = x ∷ []
  insert_by key x (y ∷ ys) =
      let rest = insert_by key x ys in if ltb (key y) (key x) then y ∷ rest else x ∷ y ∷ ys

  unfoldable pub sort_by : (A → ℕ) → List A → List A
  unfolding insert_by
  sort_by key [] = []
  sort_by key (x ∷ xs) = insert_by key x (sort_by key xs)

  pub length-retain : (p : A → Bool) (xs : List A) → length (retain p xs) ≤ length xs
  length-retain p [] = omega arith
  length-retain p (x ∷ xs) = ground (arith, length-retain p xs)

  pub retain-All {κ} :
      (P : A → Type κ) (p : A → Bool) (xs : List A) → All P xs → All P (retain p xs)
  retain-All P p [] h = tt
  retain-All P p (x ∷ xs) h = ground (arith, retain-All P p xs h.1)

  pub has_row-retain :
      (p q : A → Bool) (xs : List A) → has_row p xs ≡ false → has_row p (retain q xs) ≡ false
  has_row-retain p q [] h = refl
  has_row-retain p q (x ∷ xs) h = ground (arith, has_row-retain p q xs)

-- A key column with no value twice.
abbrev pub Distinct {ℓ} : {A : Type ℓ} → (A → Str) → List A → Type 0
Distinct key [] = Unit
Distinct key (x ∷ xs) = (has_row (λ y. str_eq (key y) (key x)) xs ≡ false) × Distinct key xs

module _ {ℓ} {A : Type ℓ} where
  pub Distinct-retain :
      (key : A → Str) (p : A → Bool) (xs : List A) → Distinct key xs → Distinct key (retain p xs)
  Distinct-retain key p [] d = tt
  Distinct-retain key p (x ∷ xs) d =
      ground
        (arith, Distinct-retain key p xs d.1, has_row-retain (λ y. str_eq (key y) (key x)) p xs d.0)
