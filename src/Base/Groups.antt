-- ===== src/Base/Groups.antt =====
-- A map from names to lists, as `HashMap<String, Vec<…>>` and the like, as a list of entries.
use month_erdmko_de.Base.{
  ℕ, ◌+◌, ◌≤◌, ◌≡◌, Bool, not, some, List, [], ◌∷◌, arith, length, if◌then◌else◌,
}
use month_erdmko_de.Base.Text.{Str, str_eq}
use month_erdmko_de.Base.Rows.{find_row, retain}

abbrev pub Groups {ℓ} : Type ℓ → Type ℓ
Groups A = List (Str × List A)

abbrev pub has_key {ℓ} : {A : Type ℓ} → Str → Str × A → Bool
has_key k e = str_eq e.0 k

-- `HashMap::remove`
abbrev pub remove {ℓ} : {A : Type ℓ} → Str → List (Str × A) → List (Str × A)
remove k = retain (λ e. not (has_key k e))

-- `values().map(len).sum()`
unfoldable pub total {ℓ} : {A : Type ℓ} → Groups A → ℕ
total [] = 0
total (e ∷ es) = length e.1 + total es

-- What `entry(k).or_default()` refers to.
unfoldable pub members_of {ℓ} : {A : Type ℓ} → Str → Groups A → List A
members_of k [] = []
members_of k (e ∷ es) = if has_key k e then e.1 else members_of k es

-- The members under k become `ms`; a name that is not there is added.
unfoldable pub set_members {ℓ} : {A : Type ℓ} → Str → List A → Groups A → Groups A
set_members k ms [] = (k, ms) ∷ []
set_members k ms (e ∷ es) =
    let rest = set_members k ms es in if has_key k e then (e.0, ms) ∷ es else e ∷ rest

module _ {ℓ} {A : Type ℓ} where
  -- Setting the members under a name exchanges their part of the total.
  pub total-set_members :
      (k : Str) (ms : List A) (r : Groups A)
      → total (set_members k ms r) + length (members_of k r) ≡ total r + length ms
  unfolding total set_members members_of
  total-set_members k ms [] = omega arith
  total-set_members k ms (e ∷ es) = ground (arith, total-set_members k ms es)

  pub total-retain : (q : Str × List A → Bool) (r : Groups A) → total (retain q r) ≤ total r
  unfolding total
  total-retain q [] = omega arith
  total-retain q (e ∷ es) = ground (arith, total-retain q es)

  pub find-members_of :
      (k : Str) (r : Groups A) (e : Str × List A)
      → find_row (has_key k) r ≡ some e
      → members_of k r ≡ e.1
  unfolding members_of
  find-members_of k [] e h = cc
  find-members_of k (d ∷ r) e h = ground (arith, find-members_of k r e)
