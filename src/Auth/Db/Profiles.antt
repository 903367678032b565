-- ===== src/Auth/Db/Profiles.antt =====
-- What `record_payment_and_extend_access` and `set_wallet_nickname` of server/src/auth/db.rs do for a
-- connection that is alone.
use month_erdmko_de.Base.{◌≡◌, refl, ◌∙◌, true, false, none, some, List, [], ◌∷◌, arith, Option}
use month_erdmko_de.Base.Int.{ℤ, pos, ◌+ℤ◌, max_ℤ, leb_ℤ, ltb_ℤ, InI64, in_i64-of, +ℤ_parts}
use month_erdmko_de.Base.Text.{Str, str_eq, trim, is_empty}
use month_erdmko_de.Base.Text.Laws.{str_eq_refl, str_eq_iff}
use month_erdmko_de.Base.Result.{ok, err}
use month_erdmko_de.Base.Rows.{has_row, find_row}
use month_erdmko_de.Auth.Error.{Cause, internal_error}
use month_erdmko_de.Auth.Service.{normalize_wallet_address, normalize_tx_hash}
use month_erdmko_de.Auth.Service.Normal.{normalize_wallet_address-normal}
use month_erdmko_de.Auth.Tables.{
  Tables, ProfileRow, has_wallet, has_tx, upsert, insert_payment, upsert_access, select_profile,
}
use month_erdmko_de.Auth.Exec.{Conn, chain, alone}
use month_erdmko_de.Auth.Db.{
  WalletProfile, get_wallet_profile, extend_access, record_payment_and_extend_access,
}

module _ (w : Str) (change : ProfileRow → ProfileRow) (fresh : ProfileRow) where
  -- The row of the wallet after `upsert`.
  abbrev pub upserted : Option ProfileRow → ProfileRow
  upserted none = fresh
  upserted (some r) = change r

  pub find-upsert_self :
      (rs : List ProfileRow)
      → fresh.wallet_address ≡ w
      → ((r : ProfileRow) → (change r).wallet_address ≡ r.wallet_address)
      → find_row (has_wallet w) (upsert w change fresh rs)
        ≡ some (upserted (find_row (has_wallet w) rs))
  unfolding upsert
  find-upsert_self [] f k = ground (arith, str_eq_iff fresh.wallet_address w)
  find-upsert_self (r ∷ rs) f k = ground (arith, k r, find-upsert_self rs f k)

  pub find-upsert_ne :
      (v : Str) (rs : List ProfileRow)
      → str_eq w v ≡ false
      → fresh.wallet_address ≡ w
      → ((r : ProfileRow) → (change r).wallet_address ≡ r.wallet_address)
      → find_row (has_wallet v) (upsert w change fresh rs) ≡ find_row (has_wallet v) rs
  unfolding upsert
  find-upsert_ne v [] n f k = ground arith
  find-upsert_ne v (r ∷ rs) n f k =
      ground (arith, k r, str_eq_iff r.wallet_address w, find-upsert_ne v rs n f k)

-- The end of the access that a payment at `now` for `d` seconds buys.
abbrev pub paid_until : Option ProfileRow → ℤ → ℤ → ℤ
paid_until none now d = now +ℤ d
paid_until (some r) now d = max_ℤ r.access_until now +ℤ d

abbrev pub nickname_of : Option ProfileRow → Option Str
nickname_of none = none
nickname_of (some r) = r.nickname

paid_until-active :
    (o : Option ProfileRow) (now d : ℤ)
    → leb_ℤ d (pos 0) ≡ false
    → ltb_ℤ now (paid_until o now d) ≡ true
unfolding ltb_ℤ leb_ℤ max_ℤ
paid_until-active none now d p = ground (arith, +ℤ_parts now d)
paid_until-active (some r) now d p = ground (arith, +ℤ_parts (max_ℤ r.access_until now) d)

abbrev paid_row : Str → Option ProfileRow → ℤ → ℤ → ProfileRow
paid_row v old now d =
    upserted v (λ r. record r { access_until = max_ℤ r.access_until now +ℤ d; updated_at = now })
      (record { wallet_address = v; nickname = none; access_until = now +ℤ d; updated_at = now })
      old

abbrev paid_profiles : Str → ℤ → ℤ → List ProfileRow → List ProfileRow
paid_profiles v now d =
    upsert v (λ r. record r { access_until = max_ℤ r.access_until now +ℤ d; updated_at = now })
      (record { wallet_address = v; nickname = none; access_until = now +ℤ d; updated_at = now })

find-paid_profiles :
    (v : Str) (now d : ℤ) (rs : List ProfileRow)
    → find_row (has_wallet v) (paid_profiles v now d rs)
      ≡ some (paid_row v (find_row (has_wallet v) rs) now d)
find-paid_profiles v now d rs = find-upsert_self v _ _ rs refl (λ r. refl)

paid_row-fields :
    (v : Str) (old : Option ProfileRow) (now d : ℤ)
    → ((paid_row v old now d).access_until ≡ paid_until old now d)
      × ((paid_row v old now d).nickname ≡ nickname_of old)
paid_row-fields v none now d = (refl, refl)
paid_row-fields v (some r) now d = (refl, refl)

pub get_wallet_profile-alone :
    (v : Str) (now : ℤ) (t : Tables) (r : ProfileRow)
    → normalize_wallet_address v ≡ ok v
    → find_row (has_wallet v) t.profiles ≡ some r
    → InI64 r.access_until
    → get_wallet_profile v now (alone t) ≡ (
      ok (record {
        wallet_address = v;
        nickname = r.nickname;
        access_until = r.access_until;
        has_active_access = ltb_ℤ now r.access_until;
      }),
      alone t,
    )
unfolding get_wallet_profile chain select_profile
get_wallet_profile-alone v now t r n f i = ground (arith, in_i64-of r.access_until i)

abbrev paid_profile : Str → Option ProfileRow → ℤ → ℤ → WalletProfile
paid_profile v old now d = record {
  wallet_address = v;
  nickname = nickname_of old;
  access_until = paid_until old now d;
  has_active_access = true;
}

extend_access-alone :
    (v : Str) (now d : ℤ) (t : Tables)
    → normalize_wallet_address v ≡ ok v
    → leb_ℤ d (pos 0) ≡ false
    → InI64 (paid_until (find_row (has_wallet v) t.profiles) now d)
    → extend_access v now d (alone t) ≡ (
      ok (paid_profile v (find_row (has_wallet v) t.profiles) now d),
      alone (record t { profiles = paid_profiles v now d t.profiles }),
    )
unfolding extend_access chain upsert_access
extend_access-alone v now d t n pd i =
    let old = find_row (has_wallet v) t.profiles in
    let fields = paid_row-fields v old now d in
    let read =
      get_wallet_profile-alone v now (record t { profiles = paid_profiles v now d t.profiles })
        (paid_row v old now d) n (find-paid_profiles v now d t.profiles) (rw fields.0 i) in
    read ∙ rw (fields.0, fields.1, paid_until-active old now d pd)

record_payment-alone :
    (w h amount v x : Str) (now d : ℤ) (t : Tables)
    → normalize_wallet_address w ≡ ok v
    → normalize_tx_hash h ≡ ok x
    → leb_ℤ d (pos 0) ≡ false
    → is_empty (trim amount) ≡ false
    → has_row (has_tx x) t.payments ≡ false
    → record_payment_and_extend_access w h amount now d (alone t)
      ≡ extend_access v now d (
          alone (record t {
            payments =
                record {
                  tx_hash = x;
                  wallet_address = v;
                  amount_wei = trim amount;
                  claimed_at = now;
                }
                ∷ t.payments;
          }))
unfolding record_payment_and_extend_access chain insert_payment
record_payment-alone w h amount v x now d t nw nh pd na fresh = ground arith

-- An accepted payment, on a connection that is alone: the wallet's access ends `d` seconds after its
-- old end or after `now`, whichever is later, so it is active; the nickname stays, the payment is
-- recorded, and no other wallet, session or nonce changes. It is assumed that the inputs are well
-- formed, the hash is unclaimed, and the new end is a 64-bit integer.
pub record_payment-extends :
    (w h amount v x : Str) (now d : ℤ) (t : Tables)
    → normalize_wallet_address w ≡ ok v
    → normalize_tx_hash h ≡ ok x
    → leb_ℤ d (pos 0) ≡ false
    → is_empty (trim amount) ≡ false
    → has_row (has_tx x) t.payments ≡ false
    → InI64 (paid_until (find_row (has_wallet v) t.profiles) now d)
    → let old = find_row (has_wallet v) t.profiles in
      let r = record_payment_and_extend_access w h amount now d (alone t) in
      (r.0
        ≡ ok (record {
          wallet_address = v;
          nickname = nickname_of old;
          access_until = paid_until old now d;
          has_active_access = true;
        }))
      × (r.1.tables.payments
          ≡ record { tx_hash = x; wallet_address = v; amount_wei = trim amount; claimed_at = now }
            ∷ t.payments)
      × ((u : Str)
          → str_eq v u ≡ false
          → find_row (has_wallet u) r.1.tables.profiles ≡ find_row (has_wallet u) t.profiles)
      × (r.1.tables.sessions ≡ t.sessions)
      × (r.1.tables.nonces ≡ t.nonces)
record_payment-extends w h amount v x now d t nw nh pd na fresh i =
    let t1 : Tables = record t {
      payments =
          record { tx_hash = x; wallet_address = v; amount_wei = trim amount; claimed_at = now }
          ∷ t.payments;
    } in
    rw
      (
        record_payment-alone w h amount v x now d t nw nh pd na fresh,
        extend_access-alone v now d t1 (normalize_wallet_address-normal w nw).1 pd i,
      )
      (refl, refl, λ u n. find-upsert_ne v _ _ u t.profiles n refl (λ r. refl), refl, refl)

-- The two statements of a claim are not one transaction: when the payment has been recorded and the
-- second statement fails, the claim answers with an error, the hash stays claimed and no profile
-- has changed. (`e` is the failure of the second statement; nothing else fails or interferes.)
pub record_payment_loses :
    (w h amount v x : Str) (now d : ℤ) (t : Tables) (e : Cause)
    → normalize_wallet_address w ≡ ok v
    → normalize_tx_hash h ≡ ok x
    → leb_ℤ d (pos 0) ≡ false
    → is_empty (trim amount) ≡ false
    → has_row (has_tx x) t.payments ≡ false
    → let c : Conn = record {
      tables = t;
      turns =
          record { others = λ s. s; fault = none }
          ∷ record { others = λ s. s; fault = some e }
          ∷ [];
    } in
      let r = record_payment_and_extend_access w h amount now d c in
      (r.0 ≡ err (internal_error "Failed to extend wallet access." e))
      × (has_row (has_tx x) r.1.tables.payments ≡ true)
      × (r.1.tables.profiles ≡ t.profiles)
unfolding record_payment_and_extend_access extend_access chain insert_payment
record_payment_loses w h amount v x now d t e nw nh pd na fresh = ground (arith, str_eq_refl x)
