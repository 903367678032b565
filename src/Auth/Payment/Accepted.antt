-- ===== src/Auth/Payment/Accepted.antt =====
-- What a payment that is accepted has shown, and the configuration it is held against.
use month_erdmko_de.Base.{
  ℕ, zero, suc, subst, ap, ◌∙◌, ◌≤◌, ◌≡◌, refl, sym, ◌↔◌, Bool, true, false, not, Option, none,
  some, arith, ltb, ◌==◌,
}
use month_erdmko_de.Base.Text.{Str, codes, str_eq, trim, is_empty}
use month_erdmko_de.Base.Text.Laws.{str_eq_sound, str_eq_refl}
use month_erdmko_de.Base.Result.{ok, ok_or, >>=-ok, ok-inj}
use month_erdmko_de.Auth.Service.{strip_0x, normalize_wallet_address, normalize_tx_hash}
use month_erdmko_de.Auth.Payment.{
  PaymentConfig, RpcTransaction, RpcTransactionReceipt, VerifiedPayment, parse_hex_wei, unwrap_or,
  reject_if, validate_rpc_payment,
}

-- The transaction `tx` with receipt `receipt` pays as the record `v` says.
abbrev pub IsPayment :
    Str → Str → PaymentConfig → RpcTransaction → RpcTransactionReceipt → VerifiedPayment → Type 0
IsPayment raw_tx_hash sender config tx receipt v =
    (normalize_tx_hash raw_tx_hash ≡ ok v.tx_hash)
    × (normalize_wallet_address sender ≡ ok v.from_wallet)
    × (normalize_wallet_address tx.from ≡ ok v.from_wallet)
    × (normalize_wallet_address config.recipient_address ≡ ok v.to_wallet)
    × ((to : Str) × (tx.to ≡ some to) × (normalize_wallet_address to ≡ ok v.to_wallet))
    × ((s : Str) × (receipt.status ≡ some s) × (parse_hex_wei s ≡ ok 1))
    × (parse_hex_wei tx.value ≡ ok v.amount_wei)
    × (config.min_payment_wei ≤ v.amount_wei)
    × (v.access_duration_secs ≡ config.access_duration_secs)

status_none : parse_hex_wei (codes "0x0") ≡ ok 0
unfolding parse_hex_wei strip_0x trim is_empty
status_none = refl

status_one :
    (o : Option Str) (n : ℕ)
    → parse_hex_wei (unwrap_or o (codes "0x0")) ≡ ok n
    → not (n == 1) ≡ false
    → (s : Str) × (o ≡ some s) × (parse_hex_wei s ≡ ok 1)
status_one none zero h e = cc
status_one none (suc n) h e = grind (arith, status_none)
status_one (some s) n h e = (s, refl, h ∙ ap (λ k. ok k) (ground arith))

pub reject-ok : {E : Type 0} (b : Bool) (e : E) {u : Unit {0}} → reject_if b e ≡ ok u → b ≡ false
reject-ok true e h = cc
reject-ok false e h = refl

pub ok_or-ok : {E A : Type 0} (o : Option A) (e : E) {a : A} → ok_or o e ≡ ok a → o ≡ some a
ok_or-ok none e h = cc
ok_or-ok (some a) e h = ground arith

same : (s t : Str) → not (str_eq s t) ≡ false → s ≡ t
same s t h = str_eq_sound s t (ground arith)

validate-IsPayment :
    (raw_tx_hash sender : Str) (config : PaymentConfig) (tx : RpcTransaction)
    (receipt : RpcTransactionReceipt) (v : VerifiedPayment)
    → validate_rpc_payment raw_tx_hash sender config (some tx) (some receipt) ≡ ok v
    → IsPayment raw_tx_hash sender config tx receipt v
unfolding validate_rpc_payment
validate-IsPayment raw_tx_hash sender config tx receipt v h =
    let (tx_hash, a, h) = >>=-ok (normalize_tx_hash raw_tx_hash) _ h in
    let (expected, b, h) = >>=-ok (normalize_wallet_address sender) _ h in
    let (recipient, c, h) = >>=-ok (normalize_wallet_address config.recipient_address) _ h in
    let (n, d, h) = >>=-ok (parse_hex_wei (unwrap_or receipt.status (codes "0x0"))) _ h in
    let (_, one, h) = >>=-ok (reject_if (not (n == 1)) _) _ h in
    let (to, t, h) = >>=-ok (ok_or tx.to _) _ h in
    let (to_wallet, f, h) = >>=-ok (normalize_wallet_address to) _ h in
    let (_, same_to, h) = >>=-ok (reject_if (not (str_eq to_wallet recipient)) _) _ h in
    let (from_wallet, g, h) = >>=-ok (normalize_wallet_address tx.from) _ h in
    let (_, same_from, h) = >>=-ok (reject_if (not (str_eq from_wallet expected)) _) _ h in
    let (amount, i, h) = >>=-ok (parse_hex_wei tx.value) _ h in
    let (_, enough, h) = >>=-ok (reject_if (ltb amount config.min_payment_wei) _) _ h in
    let (s, p, q) = status_one receipt.status n d (reject-ok _ _ one) in
    subst (λ w. IsPayment raw_tx_hash sender config tx receipt w) (ok-inj h)
      (
        a,
        b ∙ ap (λ w. ok w) (sym (same from_wallet expected (reject-ok _ _ same_from))),
        g,
        c ∙ ap (λ w. ok w) (sym (same to_wallet recipient (reject-ok _ _ same_to))),
        (to, ok_or-ok tx.to _ t, f),
        (s, p, q),
        i,
        grind (arith, reject-ok _ _ enough),
        refl,
      )

pub leb-not_ltb : {m n : ℕ} → m ≤ n → ltb n m ≡ false
leb-not_ltb h = ground arith

IsPayment-validate :
    (raw_tx_hash sender : Str) (config : PaymentConfig) (tx : RpcTransaction)
    (receipt : RpcTransactionReceipt) (v : VerifiedPayment)
    → IsPayment raw_tx_hash sender config tx receipt v
    → validate_rpc_payment raw_tx_hash sender config (some tx) (some receipt) ≡ ok v
unfolding validate_rpc_payment
IsPayment-validate raw_tx_hash sender config tx receipt v
      (a, b, c, d, (to, e, f), (s, p, q), i, enough, k) =
    rw
      (
        a,
        b,
        d,
        p,
        q,
        e,
        f,
        str_eq_refl v.to_wallet,
        c,
        str_eq_refl v.from_wallet,
        i,
        sym k,
        leb-not_ltb enough,
      )
      refl

found :
    (raw_tx_hash sender : Str) (config : PaymentConfig) (tx : Option RpcTransaction)
    (receipt : Option RpcTransactionReceipt) (v : VerifiedPayment)
    → validate_rpc_payment raw_tx_hash sender config tx receipt ≡ ok v
    → (t : RpcTransaction) × (r : RpcTransactionReceipt) × (tx ≡ some t) × (receipt ≡ some r)
unfolding validate_rpc_payment
found raw_tx_hash sender config (some t) (some r) v h = (t, r, refl, refl)
found raw_tx_hash sender config none receipt v h =
    let (tx_hash, a, h) = >>=-ok (normalize_tx_hash raw_tx_hash) _ h in
    let (expected, b, h) = >>=-ok (normalize_wallet_address sender) _ h in
    let (recipient, c, h) = >>=-ok (normalize_wallet_address config.recipient_address) _ h in cc
found raw_tx_hash sender config (some t) none v h =
    let (tx_hash, a, h) = >>=-ok (normalize_tx_hash raw_tx_hash) _ h in
    let (expected, b, h) = >>=-ok (normalize_wallet_address sender) _ h in
    let (recipient, c, h) = >>=-ok (normalize_wallet_address config.recipient_address) _ h in cc

-- `validate_rpc_payment` accepts exactly the payments: it returns `v` if and only if the node knows
-- the transaction and its receipt; the receipt's status is the quantity 1; the sender's and the
-- recipient's normal forms are the signed-in wallet's and the configured one's, as `v` has them;
-- and the value parses to the amount in `v`, at least the configured minimum.
pub validate_rpc_payment-accepts :
    (raw_tx_hash sender : Str) (config : PaymentConfig) (found_tx : Option RpcTransaction)
    (found_receipt : Option RpcTransactionReceipt) (v : VerifiedPayment)
    → (validate_rpc_payment raw_tx_hash sender config found_tx found_receipt ≡ ok v) ↔ (
        (tx : RpcTransaction) × (receipt : RpcTransactionReceipt) × (found_tx ≡ some tx)
        × (found_receipt ≡ some receipt)
        × IsPayment raw_tx_hash sender config tx receipt v)
validate_rpc_payment-accepts raw_tx_hash sender config found_tx found_receipt v = (
  λ h.
      let (t, r, p, q) = found raw_tx_hash sender config found_tx found_receipt v h in
      (t, r, p, q, validate-IsPayment raw_tx_hash sender config t r v (rw (sym p, sym q) h)),
  λ (t, r, p, q, paid). rw (p, q) (IsPayment-validate raw_tx_hash sender config t r v paid),
)
