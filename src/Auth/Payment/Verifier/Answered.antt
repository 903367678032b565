-- ===== src/Auth/Payment/Verifier/Answered.antt =====
-- What the node has answered where `verify_payment` accepts (server/src/auth/payment.rs).
use month_erdmko_de.Base.{
  ℕ, ◌≡◌, refl, sym, ap, subst, ◌∙◌, ◌⊎◌, inl, inr, Bool, false, Option, none, some, List, [], ◌∷◌,
  ◌++◌, String, ◌==◌, All, arith, Bool-cases, Option-cases,
}
use month_erdmko_de.Base.Text.{Str}
use month_erdmko_de.Base.Result.{Result, ok, err, >>=-ok, ok-inj}
use month_erdmko_de.Auth.Error.{AuthResult, AuthErrorKind, internal}
use month_erdmko_de.Auth.Service.{normalize_wallet_address, normalize_tx_hash}
use month_erdmko_de.Auth.Service.Normal.{normalize_wallet_address-normal, normalize_tx_hash-normal}
use month_erdmko_de.Auth.Payment.Accepted.{IsPayment, validate_rpc_payment-accepts}
use month_erdmko_de.Auth.Payment.{
  PaymentConfig, RpcTransaction, RpcTransactionReceipt, VerifiedPayment,
}
use month_erdmko_de.Auth.Payment.Verifier.{
  JsonRpcResponse, Reply, unreachable, bad_status, unread_body, malformed, answers, Found, take_tx,
  take_receipt, take_item, read_items, read_reply, verify_payment,
}
use month_erdmko_de.Auth.Payment.Verifier.Taken.{
  take_tx-ok, take_receipt-ok, take_tx-receipt, take_receipt-tx,
}

-- The kind of the error that a call ends with.
abbrev pub failure : {A : Type 0} → AuthResult A → Option AuthErrorKind
failure (ok a) = none
failure (err e) = some e.kind

same_ok : {E A : Type 0} {m : Result E A} {a b : A} → m ≡ ok a → m ≡ ok b → a ≡ b
same_ok {m} p q = ok-inj (sym p ∙ q)

or_none : {A B : Type 0} {x : A} → (Path (Option A) none (some x)) ⊎ B → B
or_none (inl h) = absurd (cc)
or_none (inr b) = b

-- `is_null` is that of a value; the readers are `serde_json::from_value` at the two types.
module _ {Value : Type 0} (is_null : Value → Bool) (read_tx : Value → Result String RpcTransaction)
    (read_receipt : Value → Result String RpcTransactionReceipt) where
  -- An answer without an error to the request of this id, with a value that is not null and that the
  -- reader reads as `x`, among the answers.
  abbrev pub IsAnswered :
      {A : Type 0} → ℕ → (Value → Result String A) → A → List (JsonRpcResponse Value) → Type 0
  IsAnswered id read x items =
      (before after : List (JsonRpcResponse Value)) × (item : JsonRpcResponse Value) × (val : Value)
      × (items ≡ before ++ (item ∷ after))
      × (item.id ≡ id)
      × (item.result ≡ some val)
      × (is_null val ≡ false)
      × (read val ≡ ok x)

  later-IsAnswered :
      {A : Type 0} (id : ℕ) (read : Value → Result String A) (x : A) (i : JsonRpcResponse Value)
      (items : List (JsonRpcResponse Value))
      → IsAnswered id read x items
      → IsAnswered id read x (i ∷ items)
  later-IsAnswered id read x i items (before, after, item, val, e, d, r, n, k) =
      (i ∷ before, after, item, val, ap (λ l. i ∷ l) e, d, r, n, k)

  -- An answer that is taken has no error, and a value that is kept behind it was kept before or
  -- stands in it.
  abbrev IsTaken : Found → JsonRpcResponse Value → Found → Type 0
  IsTaken found item found' =
      (item.error ≡ none)
      × ((tx : RpcTransaction) (items : List (JsonRpcResponse Value))
          → found'.tx ≡ some tx
          → (found.tx ≡ some tx) ⊎ IsAnswered 1 read_tx tx (item ∷ items))
      × ((receipt : RpcTransactionReceipt) (items : List (JsonRpcResponse Value))
          → found'.receipt ≡ some receipt
          → (found.receipt ≡ some receipt) ⊎ IsAnswered 2 read_receipt receipt (item ∷ items))

  take_item-IsTaken :
      (found : Found) (item : JsonRpcResponse Value) (found' : Found)
      → take_item is_null read_tx read_receipt found item ≡ ok found'
      → IsTaken found item found'
  unfolding take_item
  take_item-IsTaken found item found' h = elim (Option-cases item.error) [
    | inr (e, failed) ↦ absurd (ground arith)
    | inl fine ↦ elim (Bool-cases (item.id == 1)) [
      | inl one ↦
          let taken : take_tx is_null read_tx read_receipt found item.result ≡ ok found' =
            rw (fine, one) at h in
          (
            fine,
            λ tx items k.
                elim (take_tx-ok is_null read_tx read_receipt found found' item.result tx taken k) [
                  | inl before ↦ inl before
                  | inr (val, r, n, x) ↦ inr ([], items, item, val, refl, ground arith, r, n, x)
                ],
            λ receipt items k.
                inl
                  (take_tx-receipt is_null read_tx read_receipt found found' item.result taken ∙ k),
          )
      | inr other ↦ elim (Bool-cases (item.id == 2)) [
        | inl two ↦
            let taken : take_receipt is_null read_tx read_receipt found item.result ≡ ok found' =
              rw (fine, other, two) at h in
            (
              fine,
              λ tx items k.
                  inl (
                    take_receipt-tx is_null read_tx read_receipt found found' item.result taken
                    ∙ k),
              λ receipt items k.
                  elim (take_receipt-ok is_null read_tx read_receipt found found' item.result
                    receipt taken k) [
                      | inl before ↦ inl before
                      | inr (val, r, n, x) ↦ inr ([], items, item, val, refl, ground arith, r, n, x)
                    ],
            )
        | inr neither ↦
            let same : found ≡ found' = ok-inj (rw (fine, other, neither) at h) in
            (
              fine,
              λ tx items k. inl (ap (λ f. f.tx) same ∙ k),
              λ receipt items k. inl (ap (λ f. f.receipt) same ∙ k),
            )
      ]
    ]
  ]

  -- Answers that are read have no errors, and what is found was there before or is answered.
  read_items-IsTaken :
      (found : Found) (items : List (JsonRpcResponse Value)) (f : Found)
      → read_items is_null read_tx read_receipt found items ≡ ok f
      → All (λ (i : JsonRpcResponse Value). i.error ≡ none) items
        × ((tx : RpcTransaction)
            → f.tx ≡ some tx
            → (found.tx ≡ some tx) ⊎ IsAnswered 1 read_tx tx items)
        × ((receipt : RpcTransactionReceipt)
            → f.receipt ≡ some receipt
            → (found.receipt ≡ some receipt) ⊎ IsAnswered 2 read_receipt receipt items)
  unfolding read_items
  read_items-IsTaken found [] f h =
      let same = ok-inj h in
      (tt, λ tx k. inl (ap (λ g. g.tx) same ∙ k), λ receipt k. inl (ap (λ g. g.receipt) same ∙ k))
  read_items-IsTaken found (item ∷ items) f h =
      let (found', t, h) = >>=-ok (take_item is_null read_tx read_receipt found item) _ h in
      let (fine, taken_tx, taken_receipt) = take_item-IsTaken found item found' t in
      let (all, later_tx, later_receipt) = read_items-IsTaken found' items f h in
      (
        (fine, all),
        λ tx k. elim (later_tx tx k) [
          | inl at_item ↦ taken_tx tx items at_item
          | inr later ↦ inr (later-IsAnswered 1 read_tx tx item items later)
        ],
        λ receipt k. elim (later_receipt receipt k) [
          | inl at_item ↦ taken_receipt receipt items at_item
          | inr later ↦ inr (later-IsAnswered 2 read_receipt receipt item items later)
        ],
      )

  -- The node has answered the batch without errors, the transaction under the id 1 and the receipt
  -- under the id 2.
  abbrev pub HasAnswered :
      Reply Value → RpcTransaction → RpcTransactionReceipt → List (JsonRpcResponse Value) → Type 0
  HasAnswered reply tx receipt items =
      (reply ≡ answers items)
      × All (λ (i : JsonRpcResponse Value). i.error ≡ none) items
      × IsAnswered 1 read_tx tx items
      × IsAnswered 2 read_receipt receipt items

  read_reply-HasAnswered :
      (reply : Reply Value) (f : Found) (tx : RpcTransaction) (receipt : RpcTransactionReceipt)
      → read_reply is_null read_tx read_receipt reply ≡ ok f
      → f.tx ≡ some tx
      → f.receipt ≡ some receipt
      → (items : List (JsonRpcResponse Value)) × HasAnswered reply tx receipt items
  unfolding read_reply
  read_reply-HasAnswered (unreachable e) f tx receipt h p q = absurd (ground arith)
  read_reply-HasAnswered (bad_status e) f tx receipt h p q = absurd (ground arith)
  read_reply-HasAnswered (unread_body e) f tx receipt h p q = absurd (ground arith)
  read_reply-HasAnswered (malformed e) f tx receipt h p q = absurd (ground arith)
  read_reply-HasAnswered (answers items) f tx receipt h p q =
      let (all, of_tx, of_receipt) =
        read_items-IsTaken (record { tx = none; receipt = none }) items f h in
      (items, (refl, all, or_none (of_tx tx p), or_none (of_receipt receipt q)))

  -- What `verify_payment` returns is a payment of the wallet under the transaction hash, as they were
  -- given: the node has answered the batch for that hash, no answer holds an error, an answer with
  -- id 1 holds a transaction and one with id 2 a receipt, both not null, and these two satisfy
  -- `IsPayment` for the raw hash and the raw wallet address. The same call to a node that is
  -- unreachable, answers with a status that is no success, or sends a body that cannot be read or
  -- parsed is an internal error.
  pub verify_payment-IsPayment :
      (exchange : Str → Reply Value) (config : PaymentConfig) (raw_tx_hash sender : Str)
      (v : VerifiedPayment) (e : String)
      → verify_payment is_null read_tx read_receipt exchange config raw_tx_hash sender ≡ ok v
      → (tx : RpcTransaction) × (receipt : RpcTransactionReceipt) × (items : List
          (JsonRpcResponse Value))
        × HasAnswered (exchange v.tx_hash) tx receipt items
        × IsPayment raw_tx_hash sender config tx receipt v
        × All
            (λ (reply : Reply Value).
              failure
                (verify_payment is_null read_tx read_receipt (λ h. reply) config raw_tx_hash sender)
              ≡ some internal)
            (unreachable e ∷ bad_status e ∷ unread_body e ∷ malformed e ∷ [])
  unfolding verify_payment read_reply
  verify_payment-IsPayment exchange config raw_tx_hash sender v e h =
      let (tx_hash, a, h) = >>=-ok (normalize_tx_hash raw_tx_hash) _ h in
      let (expected, b, h) = >>=-ok (normalize_wallet_address sender) _ h in
      let (f, c, h) = >>=-ok (read_reply is_null read_tx read_receipt (exchange tx_hash)) _ h in
      let (tx, receipt, p, q, paid) =
        (validate_rpc_payment-accepts tx_hash expected config f.tx f.receipt v).0 h in
      let (x, y, g, m, r, s, a', l, d) = paid in
      let same = same_ok ((normalize_tx_hash-normal raw_tx_hash a).1) x in
      let (items, answered) = read_reply-HasAnswered (exchange tx_hash) f tx receipt c p q in
      (
        tx,
        receipt,
        items,
        subst (λ w. HasAnswered (exchange w) tx receipt items) same answered,
        (
          a ∙ ap (λ w. ok w) same,
          b ∙ ap (λ w. ok w) (same_ok ((normalize_wallet_address-normal sender b).1) y),
          g,
          m,
          r,
          s,
          a',
          l,
          d,
        ),
        rw (a, b) (refl, (refl, (refl, (refl, tt)))),
      )
