-- ===== src/Base/Rows/Laws.antt =====
-- Lengths and predicates on lists that are cut, turned round, sorted and filtered.
use mathlib.Core.List.{reverse, reverse-cons}
use month_erdmko_de.Base.{
  ℕ, zero, suc, ◌≤◌, ◌≡◌, refl, Bool, true, List, [], ◌∷◌, arith, length, take, length-append, All,
  All-append,
}
use month_erdmko_de.Base.Rows.{retain, insert_by, sort_by}

module _ {A : Type 0} where
  pub length-take-le : (n : ℕ) (xs : List A) → length (take n xs) ≤ n
  length-take-le zero xs = omega arith
  length-take-le (suc n) [] = omega arith
  length-take-le (suc n) (x ∷ xs) = omega (arith, length-take-le n xs)

  pub length-reverse : (xs : List A) → length (reverse xs) ≡ length xs
  length-reverse [] = refl
  length-reverse (x ∷ xs) =
      rw (reverse-cons x xs, length-append (reverse xs) (x ∷ [])) (omega (arith, length-reverse xs))

  module _ (P : A → Type 0) where
    pub All-reverse : (xs : List A) → All P xs → All P (reverse xs)
    All-reverse [] h = tt
    All-reverse (x ∷ xs) h =
        rw (reverse-cons x xs) (All-append P (reverse xs) (x ∷ []) (All-reverse xs h.1) (h.0, tt))

    pub All-take : (n : ℕ) (xs : List A) → All P xs → All P (take n xs)
    All-take zero xs h = tt
    All-take (suc n) [] h = tt
    All-take (suc n) (x ∷ xs) h = (h.0, All-take n xs h.1)

    All-insert_by :
        (key : A → ℕ) (x : A) (ys : List A) → P x → All P ys → All P (insert_by key x ys)
    unfolding insert_by
    All-insert_by key x [] p h = (p, tt)
    All-insert_by key x (y ∷ ys) p h = ground (arith, All-insert_by key x ys p h.1)

    pub All-sort_by : (key : A → ℕ) (xs : List A) → All P xs → All P (sort_by key xs)
    unfolding sort_by
    All-sort_by key [] h = tt
    All-sort_by key (x ∷ xs) h = All-insert_by key x (sort_by key xs) h.0 (All-sort_by key xs h.1)

  module _ (p : A → Bool) where
    pub All-retain : (xs : List A) → All (λ x. p x ≡ true) (retain p xs)
    All-retain [] = tt
    All-retain (x ∷ xs) = ground (arith, All-retain xs)
