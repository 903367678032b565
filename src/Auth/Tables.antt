-- ===== src/Auth/Tables.antt =====
-- The tables of `init_auth_schema` and the statements of server/src/auth/db.rs on them. A statement
-- answers with a value and the new tables, or fails and changes nothing; PRIMARY KEY and UNIQUE
-- columns make it fail.
use month_erdmko_de.Base.{
  ℕ, Bool, true, false, not, ◌&&◌, ◌||◌, Option, none, some, List, [], ◌∷◌, map, if◌then◌else◌,
}
use month_erdmko_de.Base.Int.{ℤ, pos, ◌+ℤ◌, ltb_ℤ, leb_ℤ, max_ℤ, in_i64}
use month_erdmko_de.Base.Text.{Str, str_eq}
use month_erdmko_de.Base.Result.{Result, ok, err}
use month_erdmko_de.Base.Rows.{find_row, retain, count_rows, has_row}
use month_erdmko_de.Auth.Error.{Cause, constraint_violation, invalid_column}

pub record NonceRow : Type 0 where
  pub nonce : Str
  pub wallet_address : Str
  pub created_at : ℤ
  pub expires_at : ℤ
  pub consumed_at : Option ℤ

pub record SessionRow : Type 0 where
  pub token : Str
  pub wallet_address : Str
  pub created_at : ℤ
  pub expires_at : ℤ

pub record ProfileRow : Type 0 where
  pub wallet_address : Str
  pub nickname : Option Str
  pub access_until : ℤ
  pub updated_at : ℤ

pub record PaymentRow : Type 0 where
  pub tx_hash : Str
  pub wallet_address : Str
  pub amount_wei : Str
  pub claimed_at : ℤ

pub record Tables : Type 0 where
  pub nonces : List NonceRow
  pub sessions : List SessionRow
  pub profiles : List ProfileRow
  pub payments : List PaymentRow

-- The answer to one statement.
abbrev pub Answer : Type 0 → Type 0
Answer A = Result Cause (A × Tables)

abbrev pub Statement : Type 0 → Type 0
Statement A = Tables → Answer A

abbrev pub has_nonce : Str → NonceRow → Bool
has_nonce n r = str_eq r.nonce n

abbrev pub has_token : Str → SessionRow → Bool
has_token k r = str_eq r.token k

abbrev pub has_wallet : Str → ProfileRow → Bool
has_wallet w r = str_eq r.wallet_address w

abbrev pub has_tx : Str → PaymentRow → Bool
has_tx h r = str_eq r.tx_hash h

-- A NULL nickname equals nothing.
unfoldable pub nickname_is : Str → Option Str → Bool
nickname_is n none = false
nickname_is n (some m) = str_eq m n

abbrev pub has_nickname : Str → ProfileRow → Bool
has_nickname n r = nickname_is n r.nickname

unfoldable pub is_null : Option ℤ → Bool
is_null none = true
is_null (some t) = false

-- INSERT INTO auth_nonces; the nonce is the primary key.
unfoldable pub insert_nonce : NonceRow → Statement Unit
insert_nonce r t =
    if has_row (has_nonce r.nonce) t.nonces
    then err constraint_violation
    else ok (tt, record t { nonces = r ∷ t.nonces })

-- The WHERE clause of the UPDATE in `consume_nonce`.
unfoldable pub is_consumable : Str → Str → ℤ → NonceRow → Bool
unfolding is_null
is_consumable nonce wallet now r =
    str_eq r.nonce nonce
    && str_eq r.wallet_address wallet
    && is_null r.consumed_at
    && ltb_ℤ now r.expires_at

unfoldable pub consume_row : Str → Str → ℤ → NonceRow → NonceRow
unfolding is_consumable
consume_row nonce wallet now r =
    if is_consumable nonce wallet now r then record r { consumed_at = some now } else r

-- UPDATE auth_nonces SET consumed_at; answers with the number of rows changed.
unfoldable pub update_consumed : Str → Str → ℤ → Statement ℕ
unfolding consume_row
update_consumed nonce wallet now t = ok (
  count_rows (is_consumable nonce wallet now) t.nonces,
  record t { nonces = map (consume_row nonce wallet now) t.nonces },
)

-- INSERT INTO auth_sessions; the token is the primary key.
unfoldable pub insert_session : SessionRow → Statement Unit
insert_session r t =
    if has_row (has_token r.token) t.sessions
    then err constraint_violation
    else ok (tt, record t { sessions = r ∷ t.sessions })

abbrev pub is_live_session : Str → ℤ → SessionRow → Bool
is_live_session k now r = str_eq r.token k && ltb_ℤ now r.expires_at

-- SELECT wallet_address FROM auth_sessions WHERE token = ?1 AND expires_at > ?2
unfoldable pub select_session : Str → ℤ → Statement (Option Str)
select_session k now t = ok (
  elim (find_row (is_live_session k now) t.sessions) [
    | none ↦ none
    | some r ↦ some r.wallet_address
  ],
  t,
)

-- DELETE FROM auth_sessions WHERE token = ?1
unfoldable pub delete_session : Str → Statement ℕ
delete_session k t = ok (
  count_rows (has_token k) t.sessions,
  record t { sessions = retain (λ r. not (has_token k r)) t.sessions },
)

-- expires_at <= ?1 OR consumed_at IS NOT NULL
abbrev pub is_stale_nonce : ℤ → NonceRow → Bool
is_stale_nonce now r = leb_ℤ r.expires_at now || not (is_null r.consumed_at)

unfoldable pub delete_stale_nonces : ℤ → Statement ℕ
unfolding is_null
delete_stale_nonces now t = ok (
  count_rows (is_stale_nonce now) t.nonces,
  record t { nonces = retain (λ r. not (is_stale_nonce now r)) t.nonces },
)

abbrev pub is_stale_session : ℤ → SessionRow → Bool
is_stale_session now r = leb_ℤ r.expires_at now

unfoldable pub delete_stale_sessions : ℤ → Statement ℕ
delete_stale_sessions now t = ok (
  count_rows (is_stale_session now) t.sessions,
  record t { sessions = retain (λ r. not (is_stale_session now r)) t.sessions },
)

-- A sum that leaves the 64-bit integers is stored as a REAL, which `get::<i64>` refuses.
unfoldable pub read_profile : Option ProfileRow → Result Cause (Option (Option Str × ℤ))
unfolding in_i64
read_profile none = ok none
read_profile (some r) =
    if in_i64 r.access_until then ok (some (r.nickname, r.access_until)) else err invalid_column

abbrev pub with_tables {ℓ} : {A : Type ℓ} → Tables → Result Cause A → Result Cause (A × Tables)
with_tables t (ok a) = ok (a, t)
with_tables t (err e) = err e

-- SELECT nickname, access_until FROM wallet_profiles WHERE wallet_address = ?1
unfoldable pub select_profile : Str → Statement (Option (Option Str × ℤ))
unfolding read_profile
select_profile w t = with_tables t (read_profile (find_row (has_wallet w) t.profiles))

-- SELECT wallet_address FROM wallet_profiles WHERE nickname = ?1
unfoldable pub select_owner : Str → Statement (Option Str)
unfolding nickname_is
select_owner n t = ok (
  elim (find_row (has_nickname n) t.profiles) [ none ↦ none | some r ↦ some r.wallet_address ],
  t,
)

-- INSERT … ON CONFLICT(wallet_address) DO UPDATE: changes the row of the wallet, or adds one.
unfoldable pub upsert :
    Str → (ProfileRow → ProfileRow) → ProfileRow → List ProfileRow → List ProfileRow
upsert w change fresh [] = fresh ∷ []
upsert w change fresh (r ∷ rs) =
    let rest = upsert w change fresh rs in if has_wallet w r then change r ∷ rs else r ∷ rest

-- Another wallet has the nickname, which is UNIQUE.
abbrev pub is_owned_by_other : Str → Str → ProfileRow → Bool
is_owned_by_other w n r = has_nickname n r && not (has_wallet w r)

unfoldable pub upsert_nickname : Str → Str → ℤ → Statement Unit
unfolding upsert nickname_is
upsert_nickname w n now t =
    if has_row (is_owned_by_other w n) t.profiles
    then err constraint_violation
    else ok (
      tt,
      record t {
        profiles =
            upsert w (λ r. record r { nickname = some n; updated_at = now })
              (record {
                wallet_address = w;
                nickname = some n;
                access_until = pos 0;
                updated_at = now;
              })
              t.profiles;
      },
    )

-- INSERT OR IGNORE INTO claimed_payments; the hash is the primary key. Answers with the number of
-- rows added.
unfoldable pub insert_payment : PaymentRow → Statement ℕ
insert_payment r t =
    if has_row (has_tx r.tx_hash) t.payments
    then ok (0, t)
    else ok (1, record t { payments = r ∷ t.payments })

-- access_until = MAX(access_until, now) + duration, from `now` for a new wallet.
unfoldable pub upsert_access : Str → ℤ → ℤ → Statement Unit
unfolding upsert
upsert_access w now duration t = ok (
  tt,
  record t {
    profiles =
        upsert w
          (λ r. record r { access_until = max_ℤ r.access_until now +ℤ duration; updated_at = now })
          (record {
            wallet_address = w;
            nickname = none;
            access_until = now +ℤ duration;
            updated_at = now;
          })
          t.profiles;
  },
)
