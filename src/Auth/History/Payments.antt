-- ===== src/Auth/History/Payments.antt =====
-- A payment is claimed once, and access that has been paid for is never shortened
-- (`record_payment_and_extend_access` in server/src/auth/db.rs).
use month_erdmko_de.Base.{
  ◌≡◌, ◌≢◌, refl, inl, inr, Bool, true, false, none, some, List, [], ◌∷◌, arith, Option,
}
use month_erdmko_de.Base.Int.{ℤ, pos, ◌+ℤ◌, max_ℤ, leb_ℤ, +ℤ_parts}
use month_erdmko_de.Base.Text.{Str, trim}
use month_erdmko_de.Base.Text.Laws.{str_eq_refl}
use month_erdmko_de.Base.Result.{ok, Result-cases}
use month_erdmko_de.Base.Rows.{has_row, find_row}
use month_erdmko_de.Auth.Service.{normalize_wallet_address, normalize_tx_hash}
use month_erdmko_de.Auth.Tables.{
  Tables, ProfileRow, PaymentRow, has_wallet, has_tx, insert_nonce, update_consumed, insert_session,
  delete_session, delete_stale_nonces, delete_stale_sessions, upsert, upsert_nickname,
  insert_payment, upsert_access,
}
use month_erdmko_de.Auth.Exec.{Conn, chain, arrive, later}
use month_erdmko_de.Auth.Exec.Keeps.{Holds, Rely, Preserves, arrive-keeps, later-Rely}
use month_erdmko_de.Auth.Db.{extend_access, WalletProfile, record_payment_and_extend_access}
use month_erdmko_de.Auth.History.{Op, run}
use month_erdmko_de.Auth.History.Unique.{renamed, extended, new_profile}
use month_erdmko_de.Auth.History.Stable.{Stable, run-Holds, any_draw, extend_access-Keeps}

-- The hash stands in `claimed_payments`.
abbrev pub IsClaimed : Str → Tables → Type 0
IsClaimed h t = has_row (has_tx h) t.payments ≡ true

insert_payment-IsClaimed : (h : Str) (r : PaymentRow) → Preserves (IsClaimed h) (insert_payment r)
unfolding insert_payment
insert_payment-IsClaimed h r t a t' e c = ground arith

IsClaimed-Stable : (h : Str) → Stable (IsClaimed h) (λ m. Unit) (λ k. Unit)
unfolding insert_nonce update_consumed insert_session delete_session delete_stale_nonces
    delete_stale_sessions upsert_nickname upsert_access
IsClaimed-Stable h = record {
  on_insert_nonce = λ r f t a t' e c. ground arith;
  on_update_consumed = λ n w now t a t' e c. ground arith;
  on_insert_session = λ r f t a t' e c. ground arith;
  on_delete_session = λ k t a t' e c. ground arith;
  on_delete_stale_nonces = λ now t a t' e c. ground arith;
  on_delete_stale_sessions = λ now t a t' e c. ground arith;
  on_upsert_nickname = λ w n now t a t' e c. ground arith;
  on_insert_payment = insert_payment-IsClaimed h;
  on_upsert_access = λ w now d p t a t' e c. ground arith;
}

abbrev payment : Str → Str → Str → ℤ → PaymentRow
payment x v amount now = record {
  tx_hash = x;
  wallet_address = v;
  amount_wei = trim amount;
  claimed_at = now;
}

-- The connection once the payment stands in its table.
abbrev recorded : Str → Str → Str → ℤ → Conn → Conn
recorded x v amount now c =
    let t = arrive c.turns c.tables in
    record {
      tables = record t { payments = payment x v amount now ∷ t.payments };
      turns = later c.turns;
    }

-- A claim that is accepted found its hash unclaimed, recorded it and went on to extend the access.
record_payment-ok :
    (w h amount : Str) (now d : ℤ) (c : Conn) (p : WalletProfile)
    → (record_payment_and_extend_access w h amount now d c).0 ≡ ok p
    → (x : Str) × (v : Str) × (normalize_tx_hash h ≡ ok x)
      × (leb_ℤ d (pos 0) ≡ false)
      × (has_row (has_tx x) (arrive c.turns c.tables).payments ≡ false)
      × (record_payment_and_extend_access w h amount now d c
          ≡ extend_access v now d (recorded x v amount now c))
unfolding record_payment_and_extend_access chain insert_payment
record_payment-ok w h amount now d c p e = elim (Result-cases (normalize_tx_hash h)) [
  | inl (x, n) ↦ elim (Result-cases (normalize_wallet_address w)) [
    | inl (v, m) ↦ (x, v, n, ground arith, ground arith, ground arith)
    | inr (f, m) ↦ ground arith
  ]
  | inr (f, n) ↦ ground arith
]

record_payment-claimed :
    (w h amount : Str) (now d : ℤ) (c : Conn)
    → (x : Str) → normalize_tx_hash h ≡ ok x
    → Holds (IsClaimed x) c
    → (p : WalletProfile) → (record_payment_and_extend_access w h amount now d c).0 ≢ ok p
record_payment-claimed w h amount now d c x n held p e =
    let done = record_payment-ok w h amount now d c p e in
    let arrived = arrive-keeps (IsClaimed x) c.turns c.tables held.rely held.now in
    let same : x ≡ done.0 = ground (arith, done.2) in ground (arith, done.4, arrived, same)

record_payment-IsClaimed :
    (w h amount x : Str) (now d : ℤ) (c : Conn) (p : WalletProfile)
    → normalize_tx_hash h ≡ ok x
    → Rely (IsClaimed x) c.turns
    → (record_payment_and_extend_access w h amount now d c).0 ≡ ok p
    → Holds (IsClaimed x) (record_payment_and_extend_access w h amount now d c).1
record_payment-IsClaimed w h amount x now d c p n r e =
    let done = record_payment-ok w h amount now d c p e in
    let same : done.0 ≡ x = ground (arith, done.2) in
    rw done.5 (
      (extend_access-Keeps (IsClaimed x) _ _ (IsClaimed-Stable x) done.1 now d done.3).at _
        (record {
          rely = later-Rely (IsClaimed x) c.turns r;
          now = ground (arith, same, str_eq_refl x);
        }))

-- A transaction hash is good for one claim. Once a claim of it has succeeded, no later claim of the
-- same hash succeeds, in any spelling, for any wallet and after any calls, whatever statements fail,
-- provided that the other connections delete no claimed payment.
pub record_payment-once :
    (w w' h h' amount amount' x : Str) (now now' d d' : ℤ) (os : List Op) (c : Conn)
    (p p' : WalletProfile)
    → normalize_tx_hash h ≡ ok x
    → normalize_tx_hash h' ≡ ok x
    → Rely (IsClaimed x) c.turns
    → (record_payment_and_extend_access w h amount now d c).0 ≡ ok p
    → (record_payment_and_extend_access w' h' amount' now' d'
        (run os (record_payment_and_extend_access w h amount now d c).1)).0
      ≢ ok p'
record_payment-once w w' h h' amount amount' x now now' d d' os c p p' n n' r e =
    record_payment-claimed w' h' amount' now' d' _ x n'
      (run-Holds (IsClaimed x) _ _ (IsClaimed-Stable x) os _ (any_draw os)
        (record_payment-IsClaimed w h amount x now d c p n r e))
      p'

-- The wallet's access lasts at least until `a`.
abbrev covers : ℤ → Option ProfileRow → Bool
covers a none = false
covers a (some r) = leb_ℤ a r.access_until

abbrev pub HasAccess : Str → ℤ → Tables → Type 0
HasAccess w a t = covers a (find_row (has_wallet w) t.profiles) ≡ true

-- A change of rows that keeps wallets and shortens no access.
record Extends (change : ProfileRow → ProfileRow) : Type 0 where
  wallet : (r : ProfileRow) → (change r).wallet_address ≡ r.wallet_address
  access :
      (a : ℤ) (r : ProfileRow)
      → leb_ℤ a r.access_until ≡ true
      → leb_ℤ a (change r).access_until ≡ true

covers-upsert :
    (w v : Str) (a : ℤ) (change : ProfileRow → ProfileRow) (fresh : ProfileRow)
    (rs : List ProfileRow)
    → Extends change
    → covers a (find_row (has_wallet w) rs) ≡ true
    → covers a (find_row (has_wallet w) (upsert v change fresh rs)) ≡ true
unfolding upsert
covers-upsert w v a change fresh [] x h = cc
covers-upsert w v a change fresh (r ∷ rs) x h =
    ground (arith, x.wallet r, x.access a r, covers-upsert w v a change fresh rs x)

longer :
    (a b now d : ℤ) → leb_ℤ d (pos 0) ≡ false → leb_ℤ a b ≡ true → leb_ℤ a (max_ℤ b now +ℤ d) ≡ true
unfolding leb_ℤ max_ℤ
longer a b now d p h = ground (arith, +ℤ_parts (max_ℤ b now) d)

extends : (now d : ℤ) → leb_ℤ d (pos 0) ≡ false → Extends (extended now d)
extends now d p = record { wallet = λ r. refl; access = λ a r h. longer a r.access_until now d p h }

renames : (n : Str) (now : ℤ) → Extends (renamed n now)
renames n now = record { wallet = λ r. refl; access = λ a r h. h }

rename-HasAccess :
    (v : Str) (a : ℤ) (w n : Str) (now : ℤ) → Preserves (HasAccess v a) (upsert_nickname w n now)
unfolding upsert_nickname
rename-HasAccess v a w n now t u t' e h = ground (
  arith,
  covers-upsert v w a (renamed n now) (new_profile w (some n) (pos 0) now) t.profiles
      (renames n now) h,
)

extend-HasAccess :
    (v : Str) (a : ℤ) (w : Str) (now d : ℤ)
    → leb_ℤ d (pos 0) ≡ false
    → Preserves (HasAccess v a) (upsert_access w now d)
unfolding upsert_access
extend-HasAccess v a w now d p t u t' e h = ground (
  arith,
  covers-upsert v w a (extended now d) (new_profile w none (now +ℤ d) now) t.profiles
      (extends now d p) h,
)

HasAccess-Stable : (v : Str) (a : ℤ) → Stable (HasAccess v a) (λ m. Unit) (λ k. Unit)
unfolding insert_nonce update_consumed insert_session delete_session delete_stale_nonces
    delete_stale_sessions insert_payment
HasAccess-Stable v a = record {
  on_insert_nonce = λ r f t u t' e c. ground arith;
  on_update_consumed = λ n w now t u t' e c. ground arith;
  on_insert_session = λ r f t u t' e c. ground arith;
  on_delete_session = λ k t u t' e c. ground arith;
  on_delete_stale_nonces = λ now t u t' e c. ground arith;
  on_delete_stale_sessions = λ now t u t' e c. ground arith;
  on_upsert_nickname = rename-HasAccess v a;
  on_insert_payment = λ r t u t' e c. ground arith;
  on_upsert_access = extend-HasAccess v a;
}

-- Access never shrinks: if a wallet's access lasts at least until `a`, it does so after any calls by
-- anybody, whatever statements fail, provided that the other connections shorten no access.
pub run-HasAccess :
    (v : Str) (a : ℤ) (os : List Op) (c : Conn)
    → Holds (HasAccess v a) c
    → Holds (HasAccess v a) (run os c)
run-HasAccess v a os c h = run-Holds (HasAccess v a) _ _ (HasAccess-Stable v a) os c (any_draw os) h
