-- ===== src/Auth/History/Nicknames.antt =====
-- Who may take a nickname (`set_wallet_nickname` in server/src/auth/db.rs), for a connection that is
-- alone.
use month_erdmko_de.Base.{
  ◌≡◌, refl, subst, inl, inr, true, false, none, some, List, [], ◌∷◌, arith, Bool-cases, Option,
}
use month_erdmko_de.Base.Int.{ℤ, pos, ltb_ℤ, InI64}
use month_erdmko_de.Base.Text.{Str, str_eq}
use month_erdmko_de.Base.Text.Laws.{str_eq_sound}
use month_erdmko_de.Base.Result.{ok, err}
use month_erdmko_de.Base.Rows.{has_row, find_row}
use month_erdmko_de.Auth.Error.{conflict_error}
use month_erdmko_de.Auth.Service.{normalize_wallet_address, validate_ascii_nickname}
use month_erdmko_de.Auth.Service.Normal.{normalize_wallet_address-normal}
use month_erdmko_de.Auth.Tables.{
  Tables, ProfileRow, has_wallet, has_nickname, nickname_is, is_owned_by_other, upsert,
  select_owner, upsert_nickname,
}
use month_erdmko_de.Auth.Exec.{chain, alone}
use month_erdmko_de.Auth.Db.{is_taken, get_wallet_profile, set_wallet_nickname}
use month_erdmko_de.Auth.Db.Profiles.{
  upserted, find-upsert_self, find-upsert_ne, get_wallet_profile-alone,
}
use month_erdmko_de.Auth.History.Unique.{
  IsUnique, NicknamesDistinct, same_nickname, renamed, new_profile,
}

abbrev owner_of : Str → List ProfileRow → Option Str
owner_of n rs = elim (find_row (has_nickname n) rs) [ none ↦ none | some r ↦ some r.wallet_address ]

free-not_taken :
    (v n : Str) (rs : List ProfileRow)
    → has_row (is_owned_by_other v n) rs ≡ false
    → is_taken v (owner_of n rs) ≡ false
unfolding is_taken
free-not_taken v n [] h = refl
free-not_taken v n (r ∷ rs) h = ground (arith, free-not_taken v n rs)

nickname-shown :
    (n : Str) (o : Option Str) (rs : List ProfileRow)
    → nickname_is n o ≡ true
    → has_row (λ (s : ProfileRow). same_nickname o s.nickname) rs ≡ false
    → has_row (has_nickname n) rs ≡ false
unfolding same_nickname
nickname-shown n none rs h d = cc
nickname-shown n (some m) rs h d =
    subst (λ k. has_row (has_nickname k) rs ≡ false) (str_eq_sound m n h) d

unnamed-unowned :
    (v n : Str) (rs : List ProfileRow)
    → has_row (has_nickname n) rs ≡ false
    → has_row (is_owned_by_other v n) rs ≡ false
unnamed-unowned v n [] h = refl
unnamed-unowned v n (r ∷ rs) h = ground (arith, unnamed-unowned v n rs)

owned-taken :
    (v n : Str) (rs : List ProfileRow)
    → NicknamesDistinct rs
    → has_row (is_owned_by_other v n) rs ≡ true
    → is_taken v (owner_of n rs) ≡ true
unfolding is_taken
owned-taken v n [] d h = cc
owned-taken v n (r ∷ rs) d h = elim (Bool-cases (has_nickname n r)) [
  | inl named ↦ ground (arith, unnamed-unowned v n rs (nickname-shown n r.nickname rs named d.0))
  | inr other ↦ ground (arith, owned-taken v n rs d.1)
]

abbrev until_of : Option ProfileRow → ℤ
until_of none = pos 0
until_of (some r) = r.access_until

abbrev named_row : Str → Str → ℤ → Option ProfileRow → ProfileRow
named_row v n now = upserted v (renamed n now) (new_profile v (some n) (pos 0) now)

named_row-fields :
    (v n : Str) (now : ℤ) (o : Option ProfileRow)
    → ((named_row v n now o).nickname ≡ some n) × ((named_row v n now o).access_until ≡ until_of o)
named_row-fields v n now none = (refl, refl)
named_row-fields v n now (some r) = (refl, refl)

-- A well-formed nickname that another wallet has is refused as taken, and nothing changes.
pub set_wallet_nickname-taken :
    (w raw v n : Str) (now : ℤ) (t : Tables)
    → IsUnique t
    → normalize_wallet_address w ≡ ok v
    → validate_ascii_nickname raw ≡ ok n
    → has_row (is_owned_by_other v n) t.profiles ≡ true
    → set_wallet_nickname w raw now (alone t) ≡ (
      err (conflict_error "NICKNAME_TAKEN" "Nickname is already registered to another wallet."),
      alone t,
    )
unfolding set_wallet_nickname chain select_owner
set_wallet_nickname-taken w raw v n now t u nw nn h =
    ground (arith, owned-taken v n t.profiles u.nicknames h)

abbrev named_profiles : Str → Str → ℤ → List ProfileRow → List ProfileRow
named_profiles v n now = upsert v (renamed n now) (new_profile v (some n) (pos 0) now)

set_wallet_nickname-steps :
    (w raw v n : Str) (now : ℤ) (t : Tables)
    → normalize_wallet_address w ≡ ok v
    → validate_ascii_nickname raw ≡ ok n
    → has_row (is_owned_by_other v n) t.profiles ≡ false
    → set_wallet_nickname w raw now (alone t)
      ≡ get_wallet_profile v now (alone (record t { profiles = named_profiles v n now t.profiles }))
unfolding set_wallet_nickname chain select_owner upsert_nickname
set_wallet_nickname-steps w raw v n now t nw nn h = ground (arith, free-not_taken v n t.profiles h)

-- A well-formed nickname that no other wallet has is given to the wallet, whose access stays as it
-- was, and no other wallet's profile changes. It is assumed that the wallet's access is a 64-bit
-- integer.
pub set_wallet_nickname-free :
    (w raw v n : Str) (now : ℤ) (t : Tables)
    → normalize_wallet_address w ≡ ok v
    → validate_ascii_nickname raw ≡ ok n
    → has_row (is_owned_by_other v n) t.profiles ≡ false
    → InI64 (until_of (find_row (has_wallet v) t.profiles))
    → let until = until_of (find_row (has_wallet v) t.profiles) in
      let r = set_wallet_nickname w raw now (alone t) in
      (r.0
        ≡ ok (record {
          wallet_address = v;
          nickname = some n;
          access_until = until;
          has_active_access = ltb_ℤ now until;
        }))
      × ((u : Str)
          → str_eq v u ≡ false
          → find_row (has_wallet u) r.1.tables.profiles ≡ find_row (has_wallet u) t.profiles)
set_wallet_nickname-free w raw v n now t nw nn h i =
    let old = find_row (has_wallet v) t.profiles in
    let fields = named_row-fields v n now old in
    let t' : Tables = record t { profiles = named_profiles v n now t.profiles } in
    let read =
      get_wallet_profile-alone v now t' (named_row v n now old)
        (normalize_wallet_address-normal w nw).1
        (find-upsert_self v (renamed n now) (new_profile v (some n) (pos 0) now) t.profiles refl
          (λ r. refl))
        (rw fields.1 i) in
    rw (set_wallet_nickname-steps w raw v n now t nw nn h, read, fields.0, fields.1)
      (refl, λ u e. find-upsert_ne v _ _ u t.profiles e refl (λ r. refl))
