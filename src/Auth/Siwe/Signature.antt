-- ===== src/Auth/Siwe/Signature.antt =====
-- server/src/auth/siwe.rs: the signer of a message. Keccak-256 (sha3), the hexadecimal codec (hex)
-- and the curve (k256) are parameters.
use month_erdmko_de.Base.{
  ℕ, ◌-◌, Bool, not, ◌||◌, Option, List, [], ◌∷◌, ◌++◌, String, ◌==◌, if◌then◌else◌, length, take,
  drop,
}
use month_erdmko_de.Base.Text.{Str, codes, bytes, len, trim}
use month_erdmko_de.Base.Parse.{to_decimal}
use month_erdmko_de.Base.Result.{ok, err, ◌>>=◌, ok_or}
use month_erdmko_de.Auth.Error.{AuthError, AuthResult, unauthorized_error}
use month_erdmko_de.Auth.Service.{strip_0x}
use month_erdmko_de.Auth.Payment.{reject_if}

abbrev pub invalid_signature : String → AuthError
invalid_signature = unauthorized_error "INVALID_SIGNATURE"

-- The crates that the signer is recovered with. A signature is what `Signature::from_slice` reads
-- from 64 bytes, `is_high` says that `normalize_s` changes it, and `recover` returns the bytes of
-- the uncompressed point.
pub record Crypto : Type 1 where
  pub keccak : List ℕ → List ℕ
  pub hex_encode : List ℕ → Str
  pub hex_decode : Str → Option (List ℕ)
  pub Signature : Type 0
  pub from_slice : List ℕ → Option Signature
  pub is_high : Signature → Bool
  pub recover : List ℕ → Signature → ℕ → Option (List ℕ)

-- `sig[i]` of a signature of 65 bytes.
abbrev pub byte_at : ℕ → List ℕ → ℕ
byte_at i bs = elim (drop i bs) [ [] ↦ 0 | b ∷ more ↦ b ]

-- The recovery identifier of the last byte: 0 and 1, or 27 and 28, which `RecoveryId::try_from`
-- takes as it is below 4.
unfoldable pub recovery_id : ℕ → AuthResult ℕ
recovery_id v =
    if v == 0 || v == 1
    then ok v
    else if v == 27 || v == 28
    then ok (v - 27)
    else err (invalid_signature "Invalid recovery ID in signature.")

module _ (crypto : Crypto) where
  unfoldable pub parse_signature_bytes : Str → AuthResult (List ℕ)
  parse_signature_bytes raw_signature = do
    hex_part ←
        ok_or (strip_0x (trim raw_signature)) (invalid_signature "Signature must start with 0x.")
    _ ←
        reject_if (not (len hex_part == 130))
          (invalid_signature "Signature must be a 65-byte (130 hex char) 0x-prefixed string.")
    decoded ←
        ok_or (crypto.hex_decode hex_part)
          (invalid_signature "Signature contains non-hex characters.")
    _ ←
        reject_if (not (length decoded == 65))
          (invalid_signature "Signature must be exactly 65 bytes.")
    ok decoded

  unfoldable pub eip191_message_digest : Str → List ℕ
  eip191_message_digest message =
      let prefix = (0x19 ∷ codes "Ethereum Signed Message:\n") ++ to_decimal (len message) in
      crypto.keccak (bytes prefix ++ bytes message)

  unfoldable pub verifying_key_to_address : List ℕ → Str
  verifying_key_to_address encoded =
      codes "0x" ++ crypto.hex_encode (drop 12 (crypto.keccak (drop 1 encoded)))

  unfoldable pub recover_address_from_digest : List ℕ → List ℕ → AuthResult Str
  unfolding recovery_id verifying_key_to_address
  recover_address_from_digest digest sig = do
    signature ←
        ok_or (crypto.from_slice (take 64 sig)) (invalid_signature "Invalid secp256k1 signature.")
    _ ←
        reject_if (crypto.is_high signature)
          (invalid_signature "Signature s value is malleable (must be low-s).")
    id ← recovery_id (byte_at 64 sig)
    key ←
        ok_or (crypto.recover digest signature id)
          (invalid_signature "Failed to recover public key from signature.")
    ok (verifying_key_to_address key)

  unfoldable pub recover_personal_sign_address : Str → Str → AuthResult Str
  unfolding parse_signature_bytes eip191_message_digest recover_address_from_digest
  recover_personal_sign_address message signature_hex = do
    sig_bytes ← parse_signature_bytes signature_hex
    recover_address_from_digest (eip191_message_digest message) sig_bytes
