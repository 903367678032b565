-- ===== src/Auth/Handlers/Reads.antt =====
-- Opening a session and reading a profile on a connection that is alone (server/src/auth/db.rs).
use month_erdmko_de.Base.{
  Bool, true, [], ◌∷◌, ◌&&◌, Option-cases, ℕ, ◌≡◌, refl, ap, subst, ◌∙◌, inl, inr, false, Option,
  none, some, List, arith,
}
use month_erdmko_de.Base.Int.{ℤ, pos, leb_ℤ, ltb_ℤ}
use month_erdmko_de.Base.Text.{Str}
use month_erdmko_de.Base.Result.{Result, ok, err, ok-inj, Result-cases}
use month_erdmko_de.Base.Rows.{has_row, find_row}
use month_erdmko_de.Auth.Error.{AuthResult, Cause, internal_error}
use month_erdmko_de.Auth.Service.{random_hex, normalize_wallet_address}
use month_erdmko_de.Auth.Service.Normal.{normalize_wallet_address-normal}
use month_erdmko_de.Auth.Tables.{
  ProfileRow, Tables, has_token, has_wallet, insert_session, select_profile, read_profile,
}
use month_erdmko_de.Auth.Exec.{alone, chain}
use month_erdmko_de.Auth.Db.{
  AuthSession, WalletProfile, create_session, get_wallet_profile, profile_of,
}

pub create_session-opened :
    (drawn : List ℕ) (w : Str) (now ttl : ℤ) (t : Tables) (s : AuthSession)
    → (create_session drawn w now ttl (alone t)).0 ≡ ok s
    → (v : Str) × (normalize_wallet_address w ≡ ok v)
      × (leb_ℤ ttl (pos 0) ≡ false)
      × (has_row (has_token (random_hex drawn)) t.sessions ≡ false)
      × (s.token ≡ random_hex drawn)
unfolding create_session chain insert_session
create_session-opened drawn w now ttl t s h = elim (Result-cases (normalize_wallet_address w)) [
  | inl (v, e) ↦ (v, e, ground arith, ground arith, ground arith)
  | inr (x, e) ↦ ground arith
]

abbrev profile_read : Str → ℤ → Result Cause (Option (Option Str × ℤ)) → AuthResult WalletProfile
profile_read v now (ok row) = ok (profile_of v now row)
profile_read v now (err e) = err (internal_error "Failed to query wallet profile." e)

pub get_wallet_profile-reads :
    (w v : Str) (now : ℤ) (t : Tables)
    → normalize_wallet_address w ≡ ok v
    → get_wallet_profile w now (alone t)
      ≡ (profile_read v now (read_profile (find_row (has_wallet v) t.profiles)), alone t)
unfolding get_wallet_profile chain select_profile
get_wallet_profile-reads w v now t n =
    elim (Result-cases (read_profile (find_row (has_wallet v) t.profiles))) [
      | inl (row, e) ↦ ground arith
      | inr (why, e) ↦ ground arith
    ]

profile_of-fields :
    (v : Str) (now at : ℤ) (row : Option (Option Str × ℤ))
    → ((profile_of v at row).wallet_address ≡ v)
      × ((profile_of v at row).nickname ≡ (profile_of v now row).nickname)
      × ((profile_of v at row).access_until ≡ (profile_of v now row).access_until)
unfolding profile_of
profile_of-fields v now at none = (refl, refl, refl)
profile_of-fields v now at (some (n, a)) = (refl, refl, refl)

-- What the tables hold of the wallet v at this time: the profile that is read from them, with active
-- access if the wallet has a row whose access ends later.
abbrev pub IsProfile : Tables → Str → ℤ → WalletProfile → Type 0
IsProfile t v at q =
    ((get_wallet_profile v at (alone t)).0 ≡ ok q)
    × (q.has_active_access ≡ (has_row (has_wallet v) t.profiles && ltb_ℤ at q.access_until))

find_row-has :
    {A : Type 0} (p : A → Bool) (xs : List A) (x : A) → find_row p xs ≡ some x → has_row p xs ≡ true
find_row-has p [] x h = cc
find_row-has p (y ∷ ys) x h = ground (arith, find_row-has p ys x)

find_row-none :
    {A : Type 0} (p : A → Bool) (xs : List A) → find_row p xs ≡ none → has_row p xs ≡ false
find_row-none p [] h = refl
find_row-none p (y ∷ ys) h = ground (arith, find_row-none p ys)

profile_read-active :
    (v : Str) (at : ℤ) (rows : List ProfileRow) (q : WalletProfile)
    → profile_read v at (read_profile (find_row (has_wallet v) rows)) ≡ ok q
    → q.has_active_access ≡ (has_row (has_wallet v) rows && ltb_ℤ at q.access_until)
unfolding read_profile profile_of
profile_read-active v at rows q h = elim (Option-cases (find_row (has_wallet v) rows)) [
  | inl e ↦ ground (arith, find_row-none (has_wallet v) rows e)
  | inr (r, e) ↦ ground (arith, find_row-has (has_wallet v) rows r e)
]

-- A profile that is read is that of any tables with the same profiles.
pub get_wallet_profile-IsProfile :
    (w v : Str) (at : ℤ) (t t' : Tables) (q : WalletProfile)
    → normalize_wallet_address w ≡ ok v
    → t'.profiles ≡ t.profiles
    → (get_wallet_profile w at (alone t')).0 ≡ ok q
    → IsProfile t v at q
get_wallet_profile-IsProfile w v at t t' q n e h =
    let (_, normal) = normalize_wallet_address-normal w n in
    let read : profile_read v at (read_profile (find_row (has_wallet v) t'.profiles)) ≡ ok q =
      rw (get_wallet_profile-reads w v at t' n) at h in
    let same : profile_read v at (read_profile (find_row (has_wallet v) t.profiles)) ≡ ok q =
      rw e at read in
    (
      ap (λ x. x.0) (get_wallet_profile-reads v v at t normal) ∙ same,
      profile_read-active v at t.profiles q same,
    )

-- The profile q' is that of the wallet v, with the nickname and the access of q.
abbrev pub IsSame : Str → WalletProfile → WalletProfile → Type 0
IsSame v q q' =
    (q'.wallet_address ≡ v) × (q'.nickname ≡ q.nickname) × (q'.access_until ≡ q.access_until)

read-again :
    (v : Str) (now at : ℤ) (r : Result Cause (Option (Option Str × ℤ))) (q : WalletProfile)
    → profile_read v now r ≡ ok q
    → (q' : WalletProfile) × (profile_read v at r ≡ ok q') × IsSame v q q'
read-again v now at (err e) q h = cc
read-again v now at (ok row) q h =
    let e = ok-inj h in
    (
      profile_of v at row,
      refl,
      subst (λ x. IsSame v x (profile_of v at row)) e (profile_of-fields v now at row),
    )

-- A profile that has been read is read again at any time, with the same nickname and access.
pub get_wallet_profile-again :
    (w v : Str) (now at : ℤ) (t : Tables) (q : WalletProfile)
    → normalize_wallet_address w ≡ ok v
    → (get_wallet_profile w now (alone t)).0 ≡ ok q
    → (q' : WalletProfile) × (get_wallet_profile v at (alone t) ≡ (ok q', alone t)) × IsSame v q q'
get_wallet_profile-again w v now at t q n h =
    let r = read_profile (find_row (has_wallet v) t.profiles) in
    let read : profile_read v now r ≡ ok q = rw (get_wallet_profile-reads w v now t n) at h in
    let (q', e, same) = read-again v now at r q read in
    let (_, normal) = normalize_wallet_address-normal w n in
    (q', get_wallet_profile-reads v v at t normal ∙ ap (λ x. (x, alone t)) e, same)
