-- ===== src/Auth/Siwe/Verify.antt =====
-- server/src/auth/siwe.rs: `verify_siwe_signature`, the checks of a sign-in that need no database.
use month_erdmko_de.Base.{ℕ, ◌≡◌, refl, sym, ◌↔◌, false, not, Option, arith}
use month_erdmko_de.Base.Int.{ℤ}
use month_erdmko_de.Base.Text.{Str, str_eq}
use month_erdmko_de.Base.Text.Laws.{str_eq_sound, str_eq_refl}
use month_erdmko_de.Base.Result.{ok, ◌>>=◌, >>=-ok, ok-inj}
use month_erdmko_de.Auth.Error.{AuthResult}
use month_erdmko_de.Auth.Payment.{reject_if}
use month_erdmko_de.Auth.Payment.Accepted.{reject-ok}
use month_erdmko_de.Auth.Siwe.Message.{SiweMessage, parse_siwe_message}
use month_erdmko_de.Auth.Siwe.Validate.{DomainConfig, validate_siwe_message}
use month_erdmko_de.Auth.Siwe.Validate.Accepted.{IsAcceptable, validate_siwe_message-accepts}
use month_erdmko_de.Auth.Siwe.Signature.{Crypto, invalid_signature, recover_personal_sign_address}

same_text : (s t : Str) → not (str_eq s t) ≡ false → s ≡ t
same_text s t h = str_eq_sound s t (ground arith)

module _ (crypto : Crypto) (rfc3339 : Str → Option ℤ) (config : DomainConfig) where
  unfoldable pub verify_siwe_signature :
      Str → Str → Option Str → Option ℕ → ℤ → AuthResult SiweMessage
  verify_siwe_signature raw_message raw_signature expected_domain expected_chain_id now_unix = do
    parsed ← parse_siwe_message raw_message
    _ ← validate_siwe_message rfc3339 config parsed expected_domain expected_chain_id now_unix
    recovered ← recover_personal_sign_address crypto raw_message raw_signature
    _ ←
        reject_if (not (str_eq recovered parsed.address))
          (invalid_signature "Recovered signer does not match SIWE wallet address.")
    ok parsed

  -- The signed text parses to an acceptable message, and its signer is the wallet in it.
  abbrev pub IsSigned : Str → Str → Option Str → Option ℕ → ℤ → SiweMessage → Type 0
  IsSigned raw_message raw_signature expected_domain expected_chain_id now_unix msg =
      (parse_siwe_message raw_message ≡ ok msg)
      × IsAcceptable rfc3339 config msg expected_domain expected_chain_id now_unix
      × (recover_personal_sign_address crypto raw_message raw_signature ≡ ok msg.address)

  verify-IsSigned :
      (raw_message raw_signature : Str) (d : Option Str) (i : Option ℕ) (now : ℤ)
      (msg : SiweMessage)
      → verify_siwe_signature raw_message raw_signature d i now ≡ ok msg
      → IsSigned raw_message raw_signature d i now msg
  unfolding verify_siwe_signature
  verify-IsSigned raw_message raw_signature d i now msg h =
      let (parsed, p, h) = >>=-ok (parse_siwe_message raw_message) _ h in
      let (_, v, h) = >>=-ok (validate_siwe_message rfc3339 config parsed d i now) _ h in
      let (recovered, r, h) =
        >>=-ok (recover_personal_sign_address crypto raw_message raw_signature) _ h in
      let (_, same, h) = >>=-ok (reject_if (not (str_eq recovered parsed.address)) _) _ h in
      let e = same_text recovered parsed.address (reject-ok _ _ same) in
      let q = ok-inj h in
      rw (sym q) (p, (validate_siwe_message-accepts rfc3339 config parsed d i now).0 v, rw e at r)

  IsSigned-verify :
      (raw_message raw_signature : Str) (d : Option Str) (i : Option ℕ) (now : ℤ)
      (msg : SiweMessage)
      → IsSigned raw_message raw_signature d i now msg
      → verify_siwe_signature raw_message raw_signature d i now ≡ ok msg
  unfolding verify_siwe_signature
  IsSigned-verify raw_message raw_signature d i now msg (p, v, r) =
      rw
        (
          p,
          (validate_siwe_message-accepts rfc3339 config msg d i now).1 v,
          r,
          str_eq_refl msg.address,
        )
        refl

  -- `verify_siwe_signature` returns the message that the text parses to, if and only if that message
  -- is acceptable at this time for the expected domain and chain, and the wallet recovered from the
  -- signature of the text is the message's address.
  pub verify_siwe_signature-accepts :
      (raw_message raw_signature : Str) (d : Option Str) (i : Option ℕ) (now : ℤ)
      (msg : SiweMessage)
      → (verify_siwe_signature raw_message raw_signature d i now ≡ ok msg)
        ↔ IsSigned raw_message raw_signature d i now msg
  verify_siwe_signature-accepts raw_message raw_signature d i now msg = (
    verify-IsSigned raw_message raw_signature d i now msg,
    IsSigned-verify raw_message raw_signature d i now msg,
  )
