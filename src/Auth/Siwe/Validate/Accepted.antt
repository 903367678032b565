-- ===== src/Auth/Siwe/Validate/Accepted.antt =====
-- What a sign-in message that validates has shown.
use month_erdmko_de.Base.{
  ℕ, ◌≤◌, ◌≡◌, ◌≢◌, refl, ◌↔◌, Bool, true, false, not, Option, none, some, arith, ◌==◌, all,
}
use month_erdmko_de.Base.Int.{ℤ, pos, add_i64, leb_ℤ, ltb_ℤ, ◌≤ℤ◌, ◌<ℤ◌}
use month_erdmko_de.Base.Text.{
  Str, bytes, len, trim, str_eq, is_ascii_alphanumeric, to_ascii_lowercase,
}
use month_erdmko_de.Base.Text.Laws.{str_eq_sound, str_eq_refl}
use month_erdmko_de.Base.Result.{ok, ok_or, >>=-ok}
use month_erdmko_de.Auth.Payment.{reject_if}
use month_erdmko_de.Auth.Payment.Accepted.{reject-ok, ok_or-ok}
use month_erdmko_de.Auth.Siwe.Message.{SiweMessage}
use month_erdmko_de.Auth.Siwe.Validate.{
  DomainConfig, is_allowed_siwe_domain, differs_from, other_chain, check_issued_at,
  check_expiration_time, check_not_before, is_http_uri, is_nonce, validate_siwe_message,
  siwe_version,
}

-- P holds of the value, if there is one.
abbrev pub WhenSome : {A : Type 0} → (A → Type 0) → Option A → Type 0
WhenSome P none = Unit
WhenSome P (some a) = P a

-- The text is a timestamp of which P holds.
abbrev pub IsTimestamp : (Str → Option ℤ) → (ℤ → Type 0) → Str → Type 0
IsTimestamp rfc3339 P s = (t : ℤ) × (rfc3339 s ≡ some t) × P t

abbrev pub IsAcceptable :
    (Str → Option ℤ) → DomainConfig → SiweMessage → Option Str → Option ℕ → ℤ → Type 0
IsAcceptable rfc3339 config msg expected_domain expected_chain_id now_unix =
    WhenSome (λ e. to_ascii_lowercase msg.domain ≡ to_ascii_lowercase (trim e)) expected_domain
    × (is_allowed_siwe_domain config msg.domain ≡ true)
    × (msg.version ≡ siwe_version)
    × (msg.chain_id ≢ 0)
    × WhenSome (λ e. msg.chain_id ≡ e) expected_chain_id
    × (is_http_uri msg.uri ≡ true)
    × (8 ≤ len msg.nonce)
    × (all is_ascii_alphanumeric (bytes msg.nonce) ≡ true)
    × IsTimestamp rfc3339 (λ t. t ≤ℤ add_i64 now_unix (pos 300)) msg.issued_at
    × WhenSome (IsTimestamp rfc3339 (λ t. now_unix <ℤ t)) msg.expiration_time
    × WhenSome (IsTimestamp rfc3339 (λ t. t ≤ℤ now_unix)) msg.not_before

differs_from-same :
    (expected : Option Str) (d : Str)
    → (differs_from expected d ≡ false)
      ↔ WhenSome (λ e. to_ascii_lowercase d ≡ to_ascii_lowercase (trim e)) expected
differs_from-same none d = (λ h. tt, λ h. refl)
differs_from-same (some e) d = (
  λ h. str_eq_sound (to_ascii_lowercase d) (to_ascii_lowercase (trim e)) (ground arith),
  λ h. rw (h, str_eq_refl (to_ascii_lowercase (trim e))) refl,
)

other_chain-same :
    (expected : Option ℕ) (c : ℕ)
    → (other_chain expected c ≡ false) ↔ WhenSome (λ e. c ≡ e) expected
other_chain-same none c = (λ h. tt, λ h. refl)
other_chain-same (some e) c = (λ h. ground arith, λ h. ground arith)

not-false : (b : Bool) → (not b ≡ false) ↔ (b ≡ true)
not-false b = ground arith

version-same : (v : Str) → (not (str_eq v siwe_version) ≡ false) ↔ (v ≡ siwe_version)
version-same v =
    (λ h. str_eq_sound v siwe_version (ground arith), λ h. rw (h, str_eq_refl siwe_version) refl)

is_nonce-long :
    (n : Str)
    → (not (is_nonce n) ≡ false) ↔ ((8 ≤ len n) × (all is_ascii_alphanumeric (bytes n) ≡ true))
unfolding is_nonce
is_nonce-long n = ground arith

leb→le_ℤ : (a b : ℤ) → (ltb_ℤ b a ≡ false) ↔ (a ≤ℤ b)
unfolding ltb_ℤ
leb→le_ℤ a b = ground arith

not_leb→lt_ℤ : (a b : ℤ) → (leb_ℤ b a ≡ false) ↔ (a <ℤ b)
unfolding leb_ℤ
not_leb→lt_ℤ a b = ground arith

check_issued_at-ok :
    (rfc3339 : Str → Option ℤ) (s : Str) (now : ℤ)
    → (check_issued_at rfc3339 s now ≡ ok tt)
      ↔ IsTimestamp rfc3339 (λ t. t ≤ℤ add_i64 now (pos 300)) s
unfolding check_issued_at
check_issued_at-ok rfc3339 s now = (
  λ h.
      let (t, p, h) = >>=-ok (ok_or (rfc3339 s) _) _ h in
      (t, ok_or-ok (rfc3339 s) _ p, (leb→le_ℤ t (add_i64 now (pos 300))).0 (reject-ok _ _ h)),
  λ (t, p, q). rw (p, (leb→le_ℤ t (add_i64 now (pos 300))).1 q) refl,
)

check_expiration_time-ok :
    (rfc3339 : Str → Option ℤ) (o : Option Str) (now : ℤ)
    → (check_expiration_time rfc3339 o now ≡ ok tt)
      ↔ WhenSome (IsTimestamp rfc3339 (λ t. now <ℤ t)) o
unfolding check_expiration_time
check_expiration_time-ok rfc3339 none now = (λ h. tt, λ h. refl)
check_expiration_time-ok rfc3339 (some s) now = (
  λ h.
      let (t, p, h) = >>=-ok (ok_or (rfc3339 s) _) _ h in
      (t, ok_or-ok (rfc3339 s) _ p, (not_leb→lt_ℤ now t).0 (reject-ok _ _ h)),
  λ (t, p, q). rw (p, (not_leb→lt_ℤ now t).1 q) refl,
)

check_not_before-ok :
    (rfc3339 : Str → Option ℤ) (o : Option Str) (now : ℤ)
    → (check_not_before rfc3339 o now ≡ ok tt) ↔ WhenSome (IsTimestamp rfc3339 (λ t. t ≤ℤ now)) o
unfolding check_not_before
check_not_before-ok rfc3339 none now = (λ h. tt, λ h. refl)
check_not_before-ok rfc3339 (some s) now = (
  λ h.
      let (t, p, h) = >>=-ok (ok_or (rfc3339 s) _) _ h in
      (t, ok_or-ok (rfc3339 s) _ p, (leb→le_ℤ t now).0 (reject-ok _ _ h)),
  λ (t, p, q). rw (p, (leb→le_ℤ t now).1 q) refl,
)

zero-not_zero : (c : ℕ) → ((c == 0) ≡ false) ↔ (c ≢ 0)
zero-not_zero c = ground arith

validate-IsAcceptable :
    (rfc3339 : Str → Option ℤ) (config : DomainConfig) (msg : SiweMessage)
    (expected_domain : Option Str) (expected_chain_id : Option ℕ) (now : ℤ)
    → validate_siwe_message rfc3339 config msg expected_domain expected_chain_id now ≡ ok tt
    → IsAcceptable rfc3339 config msg expected_domain expected_chain_id now
unfolding validate_siwe_message
validate-IsAcceptable rfc3339 config msg expected_domain expected_chain_id now h =
    let (_, a, h) = >>=-ok (reject_if (differs_from expected_domain msg.domain) _) _ h in
    let (_, b, h) = >>=-ok (reject_if (not (is_allowed_siwe_domain config msg.domain)) _) _ h in
    let (_, c, h) = >>=-ok (reject_if (not (str_eq msg.version siwe_version)) _) _ h in
    let (_, d, h) = >>=-ok (reject_if (msg.chain_id == 0) _) _ h in
    let (_, e, h) = >>=-ok (reject_if (other_chain expected_chain_id msg.chain_id) _) _ h in
    let (_, f, h) = >>=-ok (reject_if (not (is_http_uri msg.uri)) _) _ h in
    let (_, g, h) = >>=-ok (reject_if (not (is_nonce msg.nonce)) _) _ h in
    let (_, i, h) = >>=-ok (check_issued_at rfc3339 msg.issued_at now) _ h in
    let (_, j, h) = >>=-ok (check_expiration_time rfc3339 msg.expiration_time now) _ h in
    let nonce = (is_nonce-long msg.nonce).0 (reject-ok _ _ g) in
    (
      (differs_from-same expected_domain msg.domain).0 (reject-ok _ _ a),
      (not-false _).0 (reject-ok _ _ b),
      (version-same msg.version).0 (reject-ok _ _ c),
      (zero-not_zero msg.chain_id).0 (reject-ok _ _ d),
      (other_chain-same expected_chain_id msg.chain_id).0 (reject-ok _ _ e),
      (not-false _).0 (reject-ok _ _ f),
      nonce.0,
      nonce.1,
      (check_issued_at-ok rfc3339 msg.issued_at now).0 i,
      (check_expiration_time-ok rfc3339 msg.expiration_time now).0 j,
      (check_not_before-ok rfc3339 msg.not_before now).0 h,
    )

IsAcceptable-validate :
    (rfc3339 : Str → Option ℤ) (config : DomainConfig) (msg : SiweMessage)
    (expected_domain : Option Str) (expected_chain_id : Option ℕ) (now : ℤ)
    → IsAcceptable rfc3339 config msg expected_domain expected_chain_id now
    → validate_siwe_message rfc3339 config msg expected_domain expected_chain_id now ≡ ok tt
unfolding validate_siwe_message
IsAcceptable-validate rfc3339 config msg expected_domain expected_chain_id now
      (a, b, c, d, e, f, g, g', i, j, k) =
    rw
      (
        (differs_from-same expected_domain msg.domain).1 a,
        b,
        (version-same msg.version).1 c,
        (zero-not_zero msg.chain_id).1 d,
        (other_chain-same expected_chain_id msg.chain_id).1 e,
        f,
        (is_nonce-long msg.nonce).1 (g, g'),
        (check_issued_at-ok rfc3339 msg.issued_at now).1 i,
        (check_expiration_time-ok rfc3339 msg.expiration_time now).1 j,
      )
      ((check_not_before-ok rfc3339 msg.not_before now).1 k)

-- `validate_siwe_message` accepts a message if and only if its domain is the expected one up to
-- ASCII case, where one is expected, and is allowed by the configuration; its version is 1; its
-- chain is not 0 and the expected one, where one is expected; its URI is http or https; its nonce
-- has at least 8 bytes, all ASCII alphanumeric; it was issued at most 300 seconds ahead of `now`;
-- its expiration time, if it has one, is later than `now`; and its not-before time, if it has one,
-- is not. Each of the times must be a timestamp.
pub validate_siwe_message-accepts :
    (rfc3339 : Str → Option ℤ) (config : DomainConfig) (msg : SiweMessage)
    (expected_domain : Option Str) (expected_chain_id : Option ℕ) (now : ℤ)
    → (validate_siwe_message rfc3339 config msg expected_domain expected_chain_id now ≡ ok tt)
      ↔ IsAcceptable rfc3339 config msg expected_domain expected_chain_id now
validate_siwe_message-accepts rfc3339 config msg expected_domain expected_chain_id now = (
  validate-IsAcceptable rfc3339 config msg expected_domain expected_chain_id now,
  IsAcceptable-validate rfc3339 config msg expected_domain expected_chain_id now,
)
