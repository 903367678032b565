-- ===== src/Auth/Siwe/Message/Printable.antt =====
-- Which sign-in messages are printed without loss (server/src/auth/siwe.rs).
use month_erdmko_de.Base.{
  ℕ, ◌<◌, ◌≡◌, refl, false, Option, none, some, List, [], ◌∷◌, arith, length, All, any,
}
use month_erdmko_de.Base.Text.{Str, trim, is_empty, is_whitespace}
use month_erdmko_de.Base.Text.Laws.{NoSpace, trim_id}
use month_erdmko_de.Base.Lines.Laws.{NoBreak}
use month_erdmko_de.Base.Result.{ok}
use month_erdmko_de.Base.Parse.{u64_mod, to_decimal}
use month_erdmko_de.Base.Parse.Decimal.{IsDecimal, to_decimal-IsDecimal, to_decimal-length}
use month_erdmko_de.Auth.Service.{normalize_wallet_address}
use month_erdmko_de.Auth.Siwe.Message.{SiweMessage}
use month_erdmko_de.Auth.Siwe.Message.Printed.{PrintsStatement}

-- A value of a field: one line, trimmed, not empty.
abbrev pub IsValue : Str → Type 0
IsValue v = NoBreak v × (trim v ≡ v) × (is_empty v ≡ false)

-- A value of an optional field, which may be empty.
abbrev pub IsOptionalValue : Option Str → Type 0
IsOptionalValue none = Unit
IsOptionalValue (some v) = NoBreak v × (trim v ≡ v)

-- A message that is printed without loss.
pub record IsPrintable (msg : SiweMessage) : Type 0 where
  pub domain_nonempty : is_empty msg.domain ≡ false
  pub domain_nospace : NoSpace msg.domain
  pub address_normal : normalize_wallet_address msg.address ≡ ok msg.address
  pub statement_part : List Str
  pub prints_statement : PrintsStatement msg.statement statement_part
  pub uri_IsValue : IsValue msg.uri
  pub version_IsValue : IsValue msg.version
  pub chain_id_below : msg.chain_id < u64_mod
  pub nonce_IsValue : IsValue msg.nonce
  pub issued_at_IsValue : IsValue msg.issued_at
  pub expiration_time_IsOptionalValue : IsOptionalValue msg.expiration_time
  pub not_before_IsOptionalValue : IsOptionalValue msg.not_before
  pub request_id_IsOptionalValue : IsOptionalValue msg.request_id

pub NoSpace-NoBreak : (s : Str) → NoSpace s → NoBreak s
NoSpace-NoBreak [] h = tt
NoSpace-NoBreak (c ∷ s) h = (unfold is_whitespace in ground arith, NoSpace-NoBreak s h.1)

pub NoSpace-any : (s : Str) → NoSpace s → any is_whitespace s ≡ false
NoSpace-any [] h = refl
NoSpace-any (c ∷ s) h = ground (arith, NoSpace-any s h.1)

IsDecimal-NoSpace : (s : Str) → All IsDecimal s → NoSpace s
IsDecimal-NoSpace [] h = tt
IsDecimal-NoSpace (c ∷ s) h = (unfold is_whitespace in ground arith, IsDecimal-NoSpace s h.1)

nonempty : (s : Str) → 0 < length s → is_empty s ≡ false
unfolding is_empty
nonempty [] h = absurd (omega (arith, h))
nonempty (c ∷ s) h = refl

pub to_decimal-IsValue : (n : ℕ) → IsValue (to_decimal n)
to_decimal-IsValue n =
    let nospace = IsDecimal-NoSpace (to_decimal n) (to_decimal-IsDecimal n) in
    (
      NoSpace-NoBreak (to_decimal n) nospace,
      trim_id (to_decimal n) nospace,
      nonempty (to_decimal n) (to_decimal-length n),
    )
