-- ===== src/Auth/Handlers/Claim/Once.antt =====
-- A claim as a history of database calls, and what that says of a payment
-- (`post_auth_claim_payment_handler` in server/src/pages/auth.rs).
use month_erdmko_de.Base.{
  ◌≡◌, ◌≢◌, refl, sym, ap, subst, ◌∙◌, Option, none, some, List, [], ◌∷◌, ◌++◌, inl, inr,
}
use month_erdmko_de.Base.Int.{ℤ}
use month_erdmko_de.Base.Text.{Str}
use month_erdmko_de.Base.Parse.{to_decimal}
use month_erdmko_de.Base.Result.{ok, ok_or, Result-cases, ok-inj}
use month_erdmko_de.Auth.Service.{normalize_tx_hash}
use month_erdmko_de.Auth.Service.Normal.{normalize_tx_hash-normal}
use month_erdmko_de.Auth.Exec.{Conn, Exec, pure, lift, ◌>>=◌}
use month_erdmko_de.Auth.Exec.Steps.{bind-ok, bind-returns, bind-fails}
use month_erdmko_de.Auth.Tables.{Tables}
use month_erdmko_de.Auth.Exec.Turns.{Leaves, leaves_rules}
use month_erdmko_de.Auth.Exec.Keeps.{Rely}
use month_erdmko_de.Auth.History.Payments.{IsClaimed, record_payment-once}
use month_erdmko_de.Auth.Db.{
  WalletProfile, get_valid_session_wallet, get_wallet_profile, set_wallet_nickname,
  record_payment_and_extend_access,
}
use month_erdmko_de.Auth.Payment.{VerifiedPayment, unwrap_or}
use month_erdmko_de.Auth.Payment.Accepted.{ok_or-ok}
use month_erdmko_de.Auth.History.{Op, find_session, rename, perform, run}
use month_erdmko_de.Auth.Handlers.Cookie.{extract_session_token}
use month_erdmko_de.Auth.Handlers.{Block, on_block, status_response}
use month_erdmko_de.Auth.Handlers.Answers.{answer-ok, on_block-ok}
use month_erdmko_de.Auth.Handlers.Claim.Inputs.{ClaimInputs, claim_inputs, claim_inputs-ok}
use month_erdmko_de.Auth.Handlers.Claim.{
  PaymentVerifier, session_wallet, invalid_session, rename_if, record_claim, pay_claim,
  settle_claim, claim_payment, post_auth_claim_payment_handler,
}

dropped : {A : Type 0} (m : Exec A) (c : Conn) → ((m >>= λ _. pure tt) c).1 ≡ (m c).1
dropped m c = elim (Result-cases (m c).0) [
  | inl (a, e) ↦ rw (bind-returns (λ _. pure tt) m c a e) (unfold pure in refl)
  | inr (e, h) ↦ rw (bind-fails (λ _. pure tt) m c e h) refl
]

-- The wallet of a session that is found, and the connection behind the lookup.
pub session_wallet-ok :
    (token : Str) (now : ℤ) (c : Conn) (w : Str)
    → (session_wallet token now c).0 ≡ ok w
    → ((get_valid_session_wallet token now c).0 ≡ ok (some w))
      × ((session_wallet token now c).1 ≡ (get_valid_session_wallet token now c).1)
unfolding session_wallet lift
session_wallet-ok token now c w h =
    let (o, p, q, e) =
      bind-ok (λ o. lift (ok_or o invalid_session)) (get_valid_session_wallet token now) c w h in
    (p ∙ ap (λ r. ok r) (ok_or-ok o invalid_session q), ap (λ r. r.1) e)

abbrev pub rename_ops : Str → ℤ → Option Str → List Op
rename_ops w now none = []
rename_ops w now (some n) = rename w n now ∷ []

rename_if-run :
    (w : Str) (now : ℤ) (nick : Option Str) (c : Conn)
    → (rename_if w now nick c).1 ≡ run (rename_ops w now nick) c
unfolding rename_if run pure
rename_if-run w now none c = refl
rename_if-run w now (some n) c = unfold perform in refl

record_claim-ok :
    (w : Str) (nick : Option Str) (v : VerifiedPayment) (now : ℤ) (c : Conn) (p : WalletProfile)
    → (record_claim w nick v now c).0 ≡ ok p
    → let pay =
        record_payment_and_extend_access w v.tx_hash
          (to_decimal v.amount_wei)
          now
          v.access_duration_secs
          (run (rename_ops w now nick) c) in
      (pay.0 ≡ ok p) × ((record_claim w nick v now c).1 ≡ pay.1)
unfolding record_claim
record_claim-ok w nick v now c p h =
    let (_, _, q, e) = bind-ok _ (rename_if w now nick) c p h in
    let r = rename_if-run w now nick c in (rw r at q, rw r at (ap (λ x. x.1) e))

pay_claim-ok :
    (verifier : Option PaymentVerifier) (rpc : PaymentVerifier) (b : Block) (i : ClaimInputs)
    (now : ℤ) (w : Str) (c : Conn) (p : WalletProfile)
    → (pay_claim verifier rpc b i now w c).0 ≡ ok p
    → (v : VerifiedPayment) × (unwrap_or verifier rpc i.tx_hash w ≡ ok v)
      × (let pay =
            record_payment_and_extend_access w v.tx_hash
              (to_decimal v.amount_wei)
              now
              v.access_duration_secs
              (run (rename_ops w now i.nickname) c) in
          (pay.0 ≡ ok p) × ((pay_claim verifier rpc b i now w c).1 ≡ pay.1))
unfolding pay_claim lift
pay_claim-ok verifier rpc b i now w c p h =
    let (v, u, q, e) = bind-ok _ (lift (unwrap_or verifier rpc i.tx_hash w)) c p h in
    let ran =
      on_block-ok b "Failed to record claimed payment." (record_claim w i.nickname v now) c p q in
    let (paid, left) =
      record_claim-ok w i.nickname v now c p
        (subst (λ (m : Exec WalletProfile). (m c).0 ≡ ok p) ran q) in
    (v, u, (paid, ap (λ r. r.1) e ∙ ap (λ (m : Exec WalletProfile). (m c).1) ran ∙ left))

found_then :
    (token : Str) (now : ℤ) (os : List Op) (c : Conn)
    → run os (get_valid_session_wallet token now c).1 ≡ run (find_session token now ∷ os) c
unfolding run perform
found_then token now os c =
    ap (λ d. run os d) (sym (dropped (get_valid_session_wallet token now) c))

-- The claim as its calls on the database: the session's lookup, the renaming, the payment.
abbrev pub IsSettled :
    Option PaymentVerifier
    → PaymentVerifier
    → ClaimInputs
    → ℤ
    → Conn
    → WalletProfile
    → Conn
    → Type 0
IsSettled verifier rpc i now c p d =
    (w : Str) × (v : VerifiedPayment) × ((get_valid_session_wallet i.token now c).0 ≡ ok (some w))
    × (unwrap_or verifier rpc i.tx_hash w ≡ ok v)
    × (let pay =
          record_payment_and_extend_access w v.tx_hash (to_decimal v.amount_wei) now
            v.access_duration_secs
            (run (find_session i.token now ∷ rename_ops w now i.nickname) c) in
        (pay.0 ≡ ok p) × (d ≡ pay.1))

settle_claim-IsSettled :
    (verifier : Option PaymentVerifier) (rpc : PaymentVerifier) (b b' : Block) (now : ℤ)
    (i : ClaimInputs) (c : Conn) (p : WalletProfile)
    → (settle_claim verifier rpc b b' now i c).0 ≡ ok p
    → IsSettled verifier rpc i now c p (settle_claim verifier rpc b b' now i c).1
unfolding settle_claim
settle_claim-IsSettled verifier rpc b b' now i c p h =
    let lookup = session_wallet i.token now in
    let (w, s, q, e) = bind-ok _ (on_block b "Failed to resolve auth session." lookup) c p h in
    let ran = on_block-ok b "Failed to resolve auth session." lookup c w s in
    let (found, left) =
      session_wallet-ok i.token now c w (subst (λ (m : Exec Str). (m c).0 ≡ ok w) ran s) in
    let at : (on_block b "Failed to resolve auth session." lookup c).1
        ≡ (get_valid_session_wallet i.token now c).1 =
      ap (λ (m : Exec Str). (m c).1) ran ∙ left in
    let (v, u, (paid, end)) =
      pay_claim-ok verifier rpc b' i now w _ p
        (subst (λ d. (pay_claim verifier rpc b' i now w d).0 ≡ ok p) at q) in
    let whole = found_then i.token now (rename_ops w now i.nickname) c in
    (
      w,
      v,
      found,
      u,
      (
        rw whole at paid,
        ap (λ r. r.1) e ∙ ap (λ d. (pay_claim verifier rpc b' i now w d).1) at ∙ (rw whole at end),
      ),
    )

find_session-Leaves :
    {P : Tables → Type 0} (k : Str) (now : ℤ) → Leaves P (perform (find_session k now))
unfolding perform get_valid_session_wallet
find_session-Leaves k now = search leaves_rules depth 8

rename-Leaves : {P : Tables → Type 0} (w n : Str) (now : ℤ) → Leaves P (perform (rename w n now))
unfolding perform set_wallet_nickname get_wallet_profile
rename-Leaves w n now = search leaves_rules depth 14

calls-Rely :
    (P : Tables → Type 0) (k w : Str) (now : ℤ) (nick : Option Str) (c : Conn)
    → Rely P c.turns
    → Rely P (run (find_session k now ∷ rename_ops w now nick) c).turns
unfolding run
calls-Rely P k w now none c h = (find_session-Leaves k now).at c h
calls-Rely P k w now (some n) c h =
    (rename-Leaves w n now).at _ ((find_session-Leaves k now).at c h)

run-append : (os ps : List Op) (c : Conn) → run ps (run os c) ≡ run (os ++ ps) c
unfolding run
run-append [] ps c = refl
run-append (o ∷ os) ps c = run-append os ps (perform o c).1

-- The verifier reports the hash that it was asked about, as `validate_rpc_payment` does.
abbrev pub ReportsHash : PaymentVerifier → Type 0
ReportsHash verify = (x w : Str) (v : VerifiedPayment) → verify x w ≡ ok v → v.tx_hash ≡ x

claim_payment-IsSettled :
    (verifier : Option PaymentVerifier) (rpc : PaymentVerifier) (b b' : Block) (cookie : Option Str)
    (raw : Str) (nickname : Option Str) (now : ℤ) (c : Conn)
    → (post_auth_claim_payment_handler verifier rpc b b' cookie raw nickname now c).0.status ≡ 200
    → (i : ClaimInputs) × (p : WalletProfile) × (normalize_tx_hash raw ≡ ok i.tx_hash)
      × (extract_session_token cookie ≡ some i.token)
      × IsSettled verifier rpc i now c p
          (post_auth_claim_payment_handler verifier rpc b b' cookie raw nickname now c).1
      × ((post_auth_claim_payment_handler verifier rpc b b' cookie raw nickname now c).0
          ≡ status_response p)
unfolding post_auth_claim_payment_handler claim_payment lift
claim_payment-IsSettled verifier rpc b b' cookie raw nickname now c h =
    let whole = claim_payment verifier rpc b b' cookie raw nickname now in
    let (p, e, body, stays) = answer-ok status_response whole c h in
    let (i, r, q, f) =
      bind-ok (settle_claim verifier rpc b b' now) (lift (claim_inputs cookie raw nickname)) c p
        e in
    let (t, n) = claim_inputs-ok cookie raw nickname i r in
    let claimed = settle_claim-IsSettled verifier rpc b b' now i c p q in
    (
      i,
      p,
      n,
      t,
      subst (λ d. IsSettled verifier rpc i now c p d) (sym (stays ∙ ap (λ r. r.1) f)) claimed,
      body,
    )

-- The reported hash has the normal form of the one in the request.
reported :
    (verifier : Option PaymentVerifier) (rpc : PaymentVerifier) (i : ClaimInputs) (w : Str)
    (v : VerifiedPayment) (raw x : Str)
    → ReportsHash (unwrap_or verifier rpc)
    → normalize_tx_hash raw ≡ ok i.tx_hash
    → normalize_tx_hash raw ≡ ok x
    → unwrap_or verifier rpc i.tx_hash w ≡ ok v
    → normalize_tx_hash v.tx_hash ≡ ok x
reported verifier rpc i w v raw x reports m n u =
    let same : v.tx_hash ≡ x = reports i.tx_hash w v u ∙ ok-inj (sym m ∙ n) in
    rw same (normalize_tx_hash-normal raw n).1

-- A transaction pays for one claim: once the claim handler has answered 200, it never answers 200
-- for the same transaction hash, in any spelling, whichever session, nickname and verifier serve
-- the later claim, whatever calls come in between and whatever statements fail. It is assumed that
-- the verifiers report the hash they are asked about and that the other connections delete no
-- claimed payment.
pub post_auth_claim_payment_handler-once :
    (verifier verifier' : Option PaymentVerifier) (rpc rpc' : PaymentVerifier) (b₁ b₂ b₃ b₄ : Block)
    (cookie cookie' : Option Str) (raw raw' x : Str) (nickname nickname' : Option Str)
    (now now' : ℤ) (os : List Op) (c : Conn)
    → ReportsHash (unwrap_or verifier rpc)
    → ReportsHash (unwrap_or verifier' rpc')
    → normalize_tx_hash raw ≡ ok x
    → normalize_tx_hash raw' ≡ ok x
    → Rely (IsClaimed x) c.turns
    → let first = post_auth_claim_payment_handler verifier rpc b₁ b₂ cookie raw nickname now c in
      first.0.status ≡ 200
      → (post_auth_claim_payment_handler verifier' rpc' b₃ b₄ cookie' raw' nickname' now'
          (run os first.1)).0.status
        ≢ 200
post_auth_claim_payment_handler-once verifier verifier' rpc rpc' b₁ b₂ b₃ b₄ cookie cookie' raw raw'
      x nickname nickname' now now' os c reports reports' n n' rely first again =
    let (i, p, m, _, (w, v, _, u, (paid, left)), _) =
      claim_payment-IsSettled verifier rpc b₁ b₂ cookie raw nickname now c first in
    let (i', p', m', _, (w', v', _, u', (paid', _)), _) =
      claim_payment-IsSettled verifier' rpc' b₃ b₄ cookie' raw' nickname' now' _ again in
    let calls = find_session i'.token now' ∷ rename_ops w' now' i'.nickname in
    record_payment-once w w' v.tx_hash v'.tx_hash (to_decimal v.amount_wei)
      (to_decimal v'.amount_wei) x now now' v.access_duration_secs v'.access_duration_secs
      (os ++ calls) _ p p' (reported verifier rpc i w v raw x reports m n u)
      (reported verifier' rpc' i' w' v' raw' x reports' m' n' u')
      (calls-Rely (IsClaimed x) i.token w now i.nickname c rely) paid
      (subst
        (λ d.
          (record_payment_and_extend_access w' v'.tx_hash (to_decimal v'.amount_wei) now'
            v'.access_duration_secs d).0
          ≡ ok p')
        (ap (λ d. run calls (run os d)) left ∙ run-append os calls _) paid')
