-- ===== src/Auth/History/Spent.antt =====
-- A nonce is used once (`consume_nonce` in server/src/auth/db.rs).
use month_erdmko_de.Base.{
  ◌≡◌, ◌≢◌, refl, ap, ◌∙◌, subst, inl, inr, Bool, true, false, not, ◌&&◌, List, [], ◌∷◌, map, arith,
  All, Bool-cases,
}
use month_erdmko_de.Base.Int.{ℤ}
use month_erdmko_de.Base.Text.{Str, str_eq, trim}
use month_erdmko_de.Base.Text.Laws.{str_eq_sound, str_eq_iff}
use month_erdmko_de.Base.Result.{ok, Result-cases}
use month_erdmko_de.Base.Rows.{has_row, count_rows, Distinct, has_row-retain}
use month_erdmko_de.Auth.Service.{normalize_wallet_address}
use month_erdmko_de.Auth.Tables.{
  Tables, NonceRow, has_nonce, is_null, is_consumable, consume_row, insert_nonce, update_consumed,
  insert_session, delete_session, delete_stale_nonces, delete_stale_sessions, upsert_nickname,
  insert_payment, upsert_access, is_stale_nonce,
}
use month_erdmko_de.Auth.Exec.{Conn, chain, arrive, later, alone}
use month_erdmko_de.Auth.Exec.Keeps.{Holds, Rely, Preserves, arrive-keeps, later-Rely}
use month_erdmko_de.Auth.Db.{consume_nonce}
use month_erdmko_de.Auth.History.{Op, run}
use month_erdmko_de.Auth.History.Stable.{Stable, Draws, run-Holds}

abbrev pub is_unspent : Str → NonceRow → Bool
is_unspent n r = str_eq r.nonce n && is_null r.consumed_at

-- Every row of the nonce, if there is one, has been consumed.
abbrev pub IsSpent : Str → Tables → Type 0
IsSpent n t = has_row (is_unspent n) t.nonces ≡ false

-- The primary key: no two rows hold one nonce.
abbrev pub NoncesDistinct : Tables → Type 0
NoncesDistinct t = Distinct (λ (r : NonceRow). r.nonce) t.nonces

consume_row-unspent :
    (n m w : Str) (now : ℤ) (rs : List NonceRow)
    → has_row (is_unspent n) rs ≡ false
    → has_row (is_unspent n) (map (consume_row m w now) rs) ≡ false
unfolding consume_row is_null
consume_row-unspent n m w now [] h = refl
consume_row-unspent n m w now (r ∷ rs) h = ground (arith, consume_row-unspent n m w now rs)

insert_nonce-IsSpent :
    (n : Str) (r : NonceRow) → r.nonce ≢ n → Preserves (IsSpent n) (insert_nonce r)
unfolding insert_nonce
insert_nonce-IsSpent n r f t a t' e h = ground (arith, f, str_eq_iff r.nonce n)

update_consumed-IsSpent : (n m w : Str) (now : ℤ) → Preserves (IsSpent n) (update_consumed m w now)
unfolding update_consumed
update_consumed-IsSpent n m w now t a t' e h =
    ground (arith, consume_row-unspent n m w now t.nonces h)

stale-IsSpent : (n : Str) (now : ℤ) → Preserves (IsSpent n) (delete_stale_nonces now)
unfolding delete_stale_nonces
stale-IsSpent n now t a t' e h =
    ground (arith, has_row-retain (is_unspent n) (λ r. not (is_stale_nonce now r)) t.nonces h)

IsSpent-Stable : (n : Str) → Stable (IsSpent n) (λ m. m ≢ n) (λ k. Unit)
unfolding insert_session delete_session delete_stale_sessions upsert_nickname insert_payment
    upsert_access
IsSpent-Stable n = record {
  on_insert_nonce = λ r f. insert_nonce-IsSpent n r f;
  on_update_consumed = λ m w now. update_consumed-IsSpent n m w now;
  on_insert_session = λ r f t a t' e h. ground arith;
  on_delete_session = λ k t a t' e h. ground arith;
  on_delete_stale_nonces = λ now. stale-IsSpent n now;
  on_delete_stale_sessions = λ now t a t' e h. ground arith;
  on_upsert_nickname = λ w m now t a t' e h. ground arith;
  on_insert_payment = λ r t a t' e h. ground arith;
  on_upsert_access = λ w now d p t a t' e h. ground arith;
}

no_nonce-no_unspent :
    (n m w : Str) (now : ℤ) (rs : List NonceRow)
    → has_row (has_nonce n) rs ≡ false
    → (has_row (is_unspent n) (map (consume_row m w now) rs) ≡ false)
      × (count_rows (is_consumable n w now) rs ≡ 0)
unfolding consume_row is_consumable
no_nonce-no_unspent n m w now [] h = (refl, refl)
no_nonce-no_unspent n m w now (r ∷ rs) h = ground (arith, no_nonce-no_unspent n m w now rs)

-- With one consumable row and distinct nonces, nothing unspent is left.
consume-leaves_spent :
    (n w : Str) (now : ℤ) (rs : List NonceRow)
    → Distinct (λ (r : NonceRow). r.nonce) rs
    → count_rows (is_consumable n w now) rs ≡ 1
    → has_row (is_unspent n) (map (consume_row n w now) rs) ≡ false
unfolding consume_row is_consumable is_null
consume-leaves_spent n w now [] d h = refl
consume-leaves_spent n w now (r ∷ rs) d h = elim (Bool-cases (str_eq r.nonce n)) [
  | inl same ↦
      let alone = subst (λ k. has_row (has_nonce k) rs ≡ false) (str_eq_sound r.nonce n same) d.0 in
      ground (arith, no_nonce-no_unspent n n w now rs alone)
  | inr other ↦ ground (arith, consume-leaves_spent n w now rs d.1)
]

-- A consumption that succeeds has changed exactly one row, of the wallet it names.
consume_nonce-ok :
    (n w : Str) (now : ℤ) (c : Conn)
    → (consume_nonce n w now c).0 ≡ ok true
    → (v : Str) × (normalize_wallet_address w ≡ ok v)
      × (count_rows (is_consumable (trim n) v now) (arrive c.turns c.tables).nonces ≡ 1)
      × ((consume_nonce n w now c).1.tables.nonces
          ≡ map (consume_row (trim n) v now) (arrive c.turns c.tables).nonces)
      × ((consume_nonce n w now c).1.turns ≡ later c.turns)
unfolding consume_nonce chain update_consumed
consume_nonce-ok n w now c h = elim (Result-cases (normalize_wallet_address w)) [
  | inl (v, e) ↦ (v, e, ground arith, ground arith, ground arith)
  | inr (x, e) ↦ ground arith
]

-- On a connection that is alone, it leaves the profiles as they are.
pub consume_nonce-profiles :
    (n w : Str) (now : ℤ) (t : Tables)
    → (consume_nonce n w now (alone t)).0 ≡ ok true
    → (consume_nonce n w now (alone t)).1.tables.profiles ≡ t.profiles
unfolding consume_nonce chain update_consumed
consume_nonce-profiles n w now t h = elim (Result-cases (normalize_wallet_address w)) [
  | inl (v, e) ↦ ground arith
  | inr (x, e) ↦ ground arith
]

-- On a connection that is alone, it leaves a connection that is alone.
pub consume_nonce-alone :
    (n w : Str) (now : ℤ) (t : Tables)
    → (consume_nonce n w now (alone t)).0 ≡ ok true
    → (consume_nonce n w now (alone t)).1 ≡ alone (consume_nonce n w now (alone t)).1.tables
consume_nonce-alone n w now t h =
    let (v, _, _, _, turns) = consume_nonce-ok n w now (alone t) h in
    let used : later (alone t).turns ≡ [] = unfold later in refl in
    ap (λ us. record { tables = (consume_nonce n w now (alone t)).1.tables; turns = us })
      (turns ∙ used)

unspent-consumable :
    (n w : Str) (now : ℤ) (rs : List NonceRow)
    → has_row (is_unspent n) rs ≡ false
    → count_rows (is_consumable n w now) rs ≡ 0
unfolding is_consumable
unspent-consumable n w now [] h = refl
unspent-consumable n w now (r ∷ rs) h = ground (arith, unspent-consumable n w now rs)

-- A consumption of a spent nonce fails or answers `false`.
consume_nonce-spent :
    (n w : Str) (now : ℤ) (c : Conn)
    → Holds (IsSpent (trim n)) c
    → (consume_nonce n w now c).0 ≢ ok true
consume_nonce-spent n w now c h e =
    let done = consume_nonce-ok n w now c e in
    let arrived = arrive-keeps (IsSpent (trim n)) c.turns c.tables h.rely h.now in
    omega (
      arith,
      done.2,
      unspent-consumable (trim n) done.0 now (arrive c.turns c.tables).nonces arrived,
    )

-- A consumption that succeeds spends the nonce.
consume_nonce-IsSpent :
    (n w : Str) (now : ℤ) (c : Conn)
    → Holds NoncesDistinct c
    → Rely (IsSpent (trim n)) c.turns
    → (consume_nonce n w now c).0 ≡ ok true
    → Holds (IsSpent (trim n)) (consume_nonce n w now c).1
consume_nonce-IsSpent n w now c h r e =
    let done = consume_nonce-ok n w now c e in
    let arrived = arrive-keeps NoncesDistinct c.turns c.tables h.rely h.now in
    record {
      rely = rw done.4 (later-Rely (IsSpent (trim n)) c.turns r);
      now = rw done.3 (consume-leaves_spent (trim n) done.0 now _ arrived done.2);
    }

-- Once a nonce has been consumed, no later attempt to consume it succeeds, for any wallet and at
-- any time, whatever calls come in between and whatever statements fail. It is assumed that the
-- table holds no nonce twice, that no call in between draws this nonce again, and that other
-- connections keep both facts.
pub consume_nonce-once :
    (n w w' : Str) (now now' : ℤ) (os : List Op) (c : Conn)
    → Holds NoncesDistinct c
    → Rely (IsSpent (trim n)) c.turns
    → All (Draws (λ m. m ≢ trim n) (λ k. Unit)) os
    → (consume_nonce n w now c).0 ≡ ok true
    → (consume_nonce n w' now' (run os (consume_nonce n w now c).1)).0 ≢ ok true
consume_nonce-once n w w' now now' os c h r f e =
    consume_nonce-spent n w' now' (run os (consume_nonce n w now c).1) (
      run-Holds (IsSpent (trim n)) (λ m. m ≢ trim n) (λ k. Unit) (IsSpent-Stable (trim n)) os
        (consume_nonce n w now c).1 f (consume_nonce-IsSpent n w now c h r e))
