-- ===== src/Auth/Payment/Verifier/Taken.antt =====
-- What the loop over the node's answers keeps of one answer (server/src/auth/payment.rs).
use mathlib.Core.Option.{some-injective}
use month_erdmko_de.Base.{
  ◌≡◌, refl, ap, ◌∙◌, ◌⊎◌, inl, inr, Bool, false, Option, none, some, String, Bool-cases,
}
use month_erdmko_de.Base.Result.{Result, ok, err, >>=-ok, ok-inj}
use month_erdmko_de.Auth.Payment.{RpcTransaction, RpcTransactionReceipt}
use month_erdmko_de.Auth.Payment.Verifier.{Found, or_internal, take_tx, take_receipt}

-- `is_null` is that of a value; the readers are `serde_json::from_value` at the two types.
module _ {Value : Type 0} (is_null : Value → Bool) (read_tx : Value → Result String RpcTransaction)
    (read_receipt : Value → Result String RpcTransactionReceipt) where
  or_internal-ok :
      {A : Type 0} (message : String) (r : Result String A) (a : A)
      → or_internal is_null read_tx read_receipt message r ≡ ok a
      → r ≡ ok a
  or_internal-ok message (ok b) a h = ap (λ x. ok x) (ok-inj h)
  or_internal-ok message (err e) a h = cc

  -- The value that is kept was kept before, or has just been read.
  pub take_tx-ok :
      (found found' : Found) (o : Option Value) (tx : RpcTransaction)
      → take_tx is_null read_tx read_receipt found o ≡ ok found'
      → found'.tx ≡ some tx
      → (found.tx ≡ some tx)
        ⊎ ((val : Value) × (o ≡ some val) × (is_null val ≡ false) × (read_tx val ≡ ok tx))
  unfolding take_tx
  take_tx-ok found found' none tx h k = inl (ap (λ f. f.tx) (ok-inj h) ∙ k)
  take_tx-ok found found' (some val) tx h k = elim (Bool-cases (is_null val)) [
    | inl null ↦ inl (ap (λ f. f.tx) (ok-inj (rw null at h)) ∙ k)
    | inr there ↦
        let (x, r, e) =
          >>=-ok
            (or_internal is_null read_tx read_receipt "Malformed transaction object from RPC."
              (read_tx val))
            _ (rw there at h) in
        let same : x ≡ tx = some-injective _ _ (ap (λ f. f.tx) (ok-inj e) ∙ k) in
        inr (
          val,
          refl,
          there,
          or_internal-ok "Malformed transaction object from RPC." (read_tx val) x r
              ∙ ap (λ y. ok y) same,
        )
  ]

  pub take_receipt-ok :
      (found found' : Found) (o : Option Value) (receipt : RpcTransactionReceipt)
      → take_receipt is_null read_tx read_receipt found o ≡ ok found'
      → found'.receipt ≡ some receipt
      → (found.receipt ≡ some receipt)
        ⊎ ((val : Value) × (o ≡ some val) × (is_null val ≡ false) × (read_receipt val ≡ ok receipt))
  unfolding take_receipt
  take_receipt-ok found found' none receipt h k = inl (ap (λ f. f.receipt) (ok-inj h) ∙ k)
  take_receipt-ok found found' (some val) receipt h k = elim (Bool-cases (is_null val)) [
    | inl null ↦ inl (ap (λ f. f.receipt) (ok-inj (rw null at h)) ∙ k)
    | inr there ↦
        let (x, r, e) =
          >>=-ok
            (or_internal is_null read_tx read_receipt "Malformed transaction receipt from RPC."
              (read_receipt val))
            _ (rw there at h) in
        let same : x ≡ receipt = some-injective _ _ (ap (λ f. f.receipt) (ok-inj e) ∙ k) in
        inr (
          val,
          refl,
          there,
          or_internal-ok "Malformed transaction receipt from RPC." (read_receipt val) x r
              ∙ ap (λ y. ok y) same,
        )
  ]

  pub take_tx-receipt :
      (found found' : Found) (o : Option Value)
      → take_tx is_null read_tx read_receipt found o ≡ ok found'
      → found.receipt ≡ found'.receipt
  unfolding take_tx
  take_tx-receipt found found' none h = ap (λ f. f.receipt) (ok-inj h)
  take_tx-receipt found found' (some val) h = elim (Bool-cases (is_null val)) [
    | inl null ↦ ap (λ f. f.receipt) (ok-inj (rw null at h))
    | inr there ↦
        let (x, r, e) =
          >>=-ok
            (or_internal is_null read_tx read_receipt "Malformed transaction object from RPC."
              (read_tx val))
            _ (rw there at h) in
        ap (λ f. f.receipt) (ok-inj e)
  ]

  pub take_receipt-tx :
      (found found' : Found) (o : Option Value)
      → take_receipt is_null read_tx read_receipt found o ≡ ok found'
      → found.tx ≡ found'.tx
  unfolding take_receipt
  take_receipt-tx found found' none h = ap (λ f. f.tx) (ok-inj h)
  take_receipt-tx found found' (some val) h = elim (Bool-cases (is_null val)) [
    | inl null ↦ ap (λ f. f.tx) (ok-inj (rw null at h))
    | inr there ↦
        let (x, r, e) =
          >>=-ok
            (or_internal is_null read_tx read_receipt "Malformed transaction receipt from RPC."
              (read_receipt val))
            _ (rw there at h) in
        ap (λ f. f.tx) (ok-inj e)
  ]
