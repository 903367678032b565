-- ===== src/Auth/History/Unique.antt =====
-- The key columns of the tables of server/src/auth/db.rs.
use month_erdmko_de.Base.{
  ◌≡◌, refl, subst, ◌∙◌, inl, inr, Bool, false, not, none, some, List, [], ◌∷◌, map, arith,
  Bool-cases, Option,
}
use month_erdmko_de.Base.Int.{ℤ, pos, ◌+ℤ◌, max_ℤ}
use month_erdmko_de.Base.Text.{Str, str_eq}
use month_erdmko_de.Base.Text.Laws.{str_eq_sound, str_eq_comm}
use month_erdmko_de.Base.Rows.{has_row, Distinct, Distinct-retain}
use month_erdmko_de.Auth.Tables.{
  Tables, NonceRow, SessionRow, ProfileRow, PaymentRow, has_nonce, has_wallet, has_token,
  nickname_is, has_nickname, is_owned_by_other, consume_row, insert_nonce, update_consumed,
  insert_session, delete_session, delete_stale_nonces, delete_stale_sessions, upsert,
  upsert_nickname, insert_payment, upsert_access, is_stale_nonce, is_stale_session,
}
use month_erdmko_de.Auth.Exec.{Conn}
use month_erdmko_de.Auth.Exec.Keeps.{Holds, Preserves}
use month_erdmko_de.Auth.History.{Op, run}
use month_erdmko_de.Auth.History.Stable.{Stable, run-Holds, any_draw}

-- Two profiles have one nickname.
unfoldable pub same_nickname : Option Str → Option Str → Bool
unfolding nickname_is
same_nickname none m = false
same_nickname (some n) m = nickname_is n m

-- No nickname twice; any number of profiles have none.
abbrev pub NicknamesDistinct : List ProfileRow → Type 0
NicknamesDistinct [] = Unit
NicknamesDistinct (r ∷ rs) =
    (has_row (λ (s : ProfileRow). same_nickname r.nickname s.nickname) rs ≡ false)
    × NicknamesDistinct rs

-- The schema's PRIMARY KEY and UNIQUE columns.
pub record IsUnique (t : Tables) : Type 0 where
  pub nonces : Distinct (λ (r : NonceRow). r.nonce) t.nonces
  pub tokens : Distinct (λ (r : SessionRow). r.token) t.sessions
  pub wallets : Distinct (λ (r : ProfileRow). r.wallet_address) t.profiles
  pub nicknames : NicknamesDistinct t.profiles
  pub hashes : Distinct (λ (r : PaymentRow). r.tx_hash) t.payments

consume_row-nonce : (n w : Str) (now : ℤ) (r : NonceRow) → (consume_row n w now r).nonce ≡ r.nonce
unfolding consume_row
consume_row-nonce n w now r = ground arith

has_nonce-map :
    (k n w : Str) (now : ℤ) (rs : List NonceRow)
    → has_row (has_nonce k) (map (consume_row n w now) rs) ≡ has_row (has_nonce k) rs
has_nonce-map k n w now [] = refl
has_nonce-map k n w now (r ∷ rs) = rw (consume_row-nonce n w now r, has_nonce-map k n w now rs)

map-Distinct :
    (n w : Str) (now : ℤ) (rs : List NonceRow)
    → Distinct (λ (r : NonceRow). r.nonce) rs
    → Distinct (λ (r : NonceRow). r.nonce) (map (consume_row n w now) rs)
map-Distinct n w now [] d = tt
map-Distinct n w now (r ∷ rs) d = (
  rw (consume_row-nonce n w now r, has_nonce-map r.nonce n w now rs) d.0,
  map-Distinct n w now rs d.1,
)

-- A change of a row that keeps its wallet.
abbrev KeepsWallet : (ProfileRow → ProfileRow) → Type 0
KeepsWallet change = (r : ProfileRow) → (change r).wallet_address ≡ r.wallet_address

module _ (w : Str) (change : ProfileRow → ProfileRow) (fresh : ProfileRow) (k : KeepsWallet change)
    (own : fresh.wallet_address ≡ w) where
  -- `upsert` adds no row but one of its wallet.
  has_wallet-upsert :
      (v : Str) (rs : List ProfileRow)
      → str_eq w v ≡ false
      → has_row (has_wallet v) rs ≡ false
      → has_row (has_wallet v) (upsert w change fresh rs) ≡ false
  unfolding upsert
  has_wallet-upsert v [] n h = ground (arith, own)
  has_wallet-upsert v (r ∷ rs) n h = ground (arith, k r, has_wallet-upsert v rs n)

  upsert-wallets :
      (rs : List ProfileRow)
      → Distinct (λ (r : ProfileRow). r.wallet_address) rs
      → Distinct (λ (r : ProfileRow). r.wallet_address) (upsert w change fresh rs)
  unfolding upsert
  upsert-wallets [] d = (refl, tt)
  upsert-wallets (r ∷ rs) d = elim (Bool-cases (has_wallet w r)) [
    | inl same ↦ rw same (rw (k r) d.0, d.1)
    | inr other ↦ rw other (
      has_wallet-upsert r.wallet_address rs (str_eq_comm w r.wallet_address ∙ other) d.0,
      upsert-wallets rs d.1,
    )
  ]

  -- Rows whose nickname differs from what the change and the new row write keep differing.
  same_nickname-upsert :
      (m : Option Str) (rs : List ProfileRow)
      → ((r : ProfileRow)
          → same_nickname m r.nickname ≡ false
          → same_nickname m (change r).nickname ≡ false)
      → same_nickname m fresh.nickname ≡ false
      → has_row (λ (s : ProfileRow). same_nickname m s.nickname) rs ≡ false
      → has_row (λ (s : ProfileRow). same_nickname m s.nickname) (upsert w change fresh rs) ≡ false
  unfolding upsert
  same_nickname-upsert m [] c f h = ground arith
  same_nickname-upsert m (r ∷ rs) c f h = ground (arith, c r, same_nickname-upsert m rs c f)

unowned-no_nickname :
    (w n : Str) (rs : List ProfileRow)
    → has_row (is_owned_by_other w n) rs ≡ false
    → has_row (has_wallet w) rs ≡ false
    → has_row (has_nickname n) rs ≡ false
unowned-no_nickname w n [] h k = refl
unowned-no_nickname w n (r ∷ rs) h k = ground (arith, unowned-no_nickname w n rs)

nickname_is_comm : (n : Str) (m : Option Str) → same_nickname m (some n) ≡ nickname_is n m
unfolding same_nickname
nickname_is_comm n none = refl
nickname_is_comm n (some m) = str_eq_comm n m

same_nickname-none : (m : Option Str) → same_nickname m none ≡ false
unfolding same_nickname
same_nickname-none none = refl
same_nickname-none (some m) = refl

abbrev pub renamed : Str → ℤ → ProfileRow → ProfileRow
renamed n now r = record r { nickname = some n; updated_at = now }

abbrev pub new_profile : Str → Option Str → ℤ → ℤ → ProfileRow
new_profile w n until now = record {
  wallet_address = w;
  nickname = n;
  access_until = until;
  updated_at = now;
}

rename-nicknames :
    (w n : Str) (now : ℤ) (rs : List ProfileRow)
    → has_row (is_owned_by_other w n) rs ≡ false
    → Distinct (λ (r : ProfileRow). r.wallet_address) rs
    → NicknamesDistinct rs
    → NicknamesDistinct (upsert w (renamed n now) (new_profile w (some n) (pos 0) now) rs)
unfolding upsert
rename-nicknames w n now [] free d h = (refl, tt)
rename-nicknames w n now (r ∷ rs) free d h = elim (Bool-cases (has_wallet w r)) [
  | inl same ↦
      let apart =
        subst (λ v. has_row (has_wallet v) rs ≡ false) (str_eq_sound r.wallet_address w same) d.0 in
      rw same (unfold same_nickname in unowned-no_nickname w n rs (ground arith) apart, h.1)
  | inr other ↦
      let differs : same_nickname r.nickname (some n) ≡ false =
        nickname_is_comm n r.nickname ∙ ground arith in
      rw other (
        same_nickname-upsert w (renamed n now) (new_profile w (some n) (pos 0) now) (λ s. refl) refl
            r.nickname rs (λ s e. differs) differs h.0,
        rename-nicknames w n now rs (ground arith) d.1 h.1,
      )
]

abbrev pub extended : ℤ → ℤ → ProfileRow → ProfileRow
extended now d r = record r { access_until = max_ℤ r.access_until now +ℤ d; updated_at = now }

extend-nicknames :
    (w : Str) (now d : ℤ) (rs : List ProfileRow)
    → NicknamesDistinct rs
    → NicknamesDistinct (upsert w (extended now d) (new_profile w none (now +ℤ d) now) rs)
unfolding upsert
extend-nicknames w now d [] h = (refl, tt)
extend-nicknames w now d (r ∷ rs) h = elim (Bool-cases (has_wallet w r)) [
  | inl same ↦ rw same h
  | inr other ↦ rw other (
    same_nickname-upsert w (extended now d) (new_profile w none (now +ℤ d) now) (λ s. refl) refl
        r.nickname rs (λ s e. e) (same_nickname-none r.nickname) h.0,
    extend-nicknames w now d rs h.1,
  )
]

insert_nonce-IsUnique : (r : NonceRow) → Preserves IsUnique (insert_nonce r)
unfolding insert_nonce
insert_nonce-IsUnique r t a t' e h = ground arith

update_consumed-IsUnique : (n w : Str) (now : ℤ) → Preserves IsUnique (update_consumed n w now)
unfolding update_consumed
update_consumed-IsUnique n w now t a t' e h = ground (arith, map-Distinct n w now t.nonces h.nonces)

insert_session-IsUnique : (r : SessionRow) → Preserves IsUnique (insert_session r)
unfolding insert_session
insert_session-IsUnique r t a t' e h = ground arith

delete_session-IsUnique : (k : Str) → Preserves IsUnique (delete_session k)
unfolding delete_session
delete_session-IsUnique k t a t' e h =
    ground (arith, Distinct-retain _ (λ r. not (has_token k r)) t.sessions h.tokens)

delete_stale_nonces-IsUnique : (now : ℤ) → Preserves IsUnique (delete_stale_nonces now)
unfolding delete_stale_nonces
delete_stale_nonces-IsUnique now t a t' e h =
    ground (arith, Distinct-retain _ (λ r. not (is_stale_nonce now r)) t.nonces h.nonces)

delete_stale_sessions-IsUnique : (now : ℤ) → Preserves IsUnique (delete_stale_sessions now)
unfolding delete_stale_sessions
delete_stale_sessions-IsUnique now t a t' e h =
    ground (arith, Distinct-retain _ (λ r. not (is_stale_session now r)) t.sessions h.tokens)

upsert_nickname-IsUnique : (w n : Str) (now : ℤ) → Preserves IsUnique (upsert_nickname w n now)
unfolding upsert_nickname
upsert_nickname-IsUnique w n now t a t' e h = ground (
  arith,
  upsert-wallets w (renamed n now) (new_profile w (some n) (pos 0) now) (λ r. refl) refl t.profiles
      h.wallets,
  λ (free : has_row (is_owned_by_other w n) t.profiles ≡ false).
      rename-nicknames w n now t.profiles free h.wallets h.nicknames,
)

insert_payment-IsUnique : (r : PaymentRow) → Preserves IsUnique (insert_payment r)
unfolding insert_payment
insert_payment-IsUnique r t a t' e h = ground arith

upsert_access-IsUnique : (w : Str) (now d : ℤ) → Preserves IsUnique (upsert_access w now d)
unfolding upsert_access
upsert_access-IsUnique w now d t a t' e h = ground (
  arith,
  upsert-wallets w (extended now d) (new_profile w none (now +ℤ d) now) (λ r. refl) refl t.profiles
      h.wallets,
  extend-nicknames w now d t.profiles h.nicknames,
)

pub IsUnique-Stable : Stable IsUnique (λ m. Unit) (λ k. Unit)
IsUnique-Stable = record {
  on_insert_nonce = λ r f. insert_nonce-IsUnique r;
  on_update_consumed = update_consumed-IsUnique;
  on_insert_session = λ r f. insert_session-IsUnique r;
  on_delete_session = delete_session-IsUnique;
  on_delete_stale_nonces = delete_stale_nonces-IsUnique;
  on_delete_stale_sessions = delete_stale_sessions-IsUnique;
  on_upsert_nickname = upsert_nickname-IsUnique;
  on_insert_payment = insert_payment-IsUnique;
  on_upsert_access = λ w now d p. upsert_access-IsUnique w now d;
}

-- Whatever calls come, in whatever order, and whatever fails, no nonce, session token, wallet,
-- nickname or transaction hash ever stands in two rows of its table, if none does at the start and
-- the other connections keep that.
pub run-IsUnique : (os : List Op) (c : Conn) → Holds IsUnique c → Holds IsUnique (run os c)
run-IsUnique os c h =
    run-Holds IsUnique (λ m. Unit) (λ k. Unit) IsUnique-Stable os c (any_draw os) h
