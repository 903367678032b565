-- ===== src/Tests/SignIn.antt =====
-- The theorems on server/src/auth/siwe.rs at concrete inputs. The crates of the signature are replaced
-- by functions that recover alice's wallet from any signature.
use month_erdmko_de.Base.{
  ℕ, ◌≡◌, ◌≢◌, refl, true, false, not, ◌&&◌, none, some, List, [], ◌∷◌, ◌++◌, map, Option, ◌-◌, ◌↔◌,
  arith, ◌==◌, all, drop,
}
use month_erdmko_de.Base.Int.{ℤ, pos}
use month_erdmko_de.Base.Text.{Str, codes, is_whitespace, is_empty, starts_with, bytes}
use month_erdmko_de.Base.Text.Laws.{NoSpace, trim_id}
use month_erdmko_de.Base.Lines.{newline, carriage_return, join}
use month_erdmko_de.Base.Lines.Laws.{NoBreak}
use month_erdmko_de.Base.Result.{ok}
use month_erdmko_de.Auth.Tables.{Tables, update_consumed}
use month_erdmko_de.Auth.Exec.{alone, chain}
use month_erdmko_de.Auth.Db.{consume_nonce}
use month_erdmko_de.Auth.History.{cleanup, run}
use month_erdmko_de.Auth.Siwe.Consume.{
  finish_sign_in, verify_siwe_and_consume_nonce, verify_siwe_and_consume_nonce-once,
}
use month_erdmko_de.Auth.Siwe.Message.{
  SiweMessage, starts_uri, parse_siwe_message, format_siwe_message,
}
use month_erdmko_de.Auth.Siwe.Message.Printable.{IsValue, IsPrintable, NoSpace-NoBreak}
use month_erdmko_de.Auth.Siwe.Message.RoundTrip.{parse_siwe_message-format_siwe_message}
use month_erdmko_de.Auth.Siwe.Validate.{
  DomainConfig, is_allowed_siwe_domain, check_issued_at, check_expiration_time, check_not_before,
  is_http_uri, is_nonce, validate_siwe_message,
}
use month_erdmko_de.Auth.Siwe.Validate.Accepted.{validate_siwe_message-accepts}
use month_erdmko_de.Auth.Siwe.Signature.{
  Crypto, parse_signature_bytes, eip191_message_digest, verifying_key_to_address, recovery_id,
  recover_address_from_digest, recover_personal_sign_address,
}
use month_erdmko_de.Auth.Siwe.Verify.{
  IsSigned, verify_siwe_signature, verify_siwe_signature-accepts,
}
use month_erdmko_de.Tests.Data.{parts, alice, alice-normal, tables}

nospace : (s : Str) → all (λ c. not (is_whitespace c)) s ≡ true → NoSpace s
nospace [] h = tt
nospace (c ∷ s) h = ground (arith, nospace s)

unbroken :
    (s : Str) → all (λ c. not (c == newline) && not (c == carriage_return)) s ≡ true → NoBreak s
unbroken [] h = tt
unbroken (c ∷ s) h = ground (arith, unbroken s)

stamp_text : (s : Str) → all (λ c. not (is_whitespace c)) s ≡ true → is_empty s ≡ false → IsValue s
stamp_text s h e = (NoSpace-NoBreak s (nospace s h), trim_id s (nospace s h), e)

abbrev pub sign_in_message : SiweMessage
sign_in_message = record {
  domain = codes "erdmko.dev";
  address = alice;
  statement = some (codes "Sign in\nto month");
  uri = codes "https://erdmko.dev";
  version = codes "1";
  chain_id = 1;
  nonce = codes "00ff00ff";
  issued_at = codes "2026-01-01T00:00:00Z";
  expiration_time = none;
  not_before = some (codes "2026-01-01T00:00:00Z");
  request_id = some (codes "r1");
}

abbrev first_line : Str
first_line = codes "Sign in"

abbrev second_line : Str
second_line = codes "to month"

pub sign_in_message-IsPrintable : IsPrintable sign_in_message
unfolding is_whitespace is_empty starts_with
sign_in_message-IsPrintable = record {
  domain_nonempty = refl;
  domain_nospace = nospace (codes "erdmko.dev") refl;
  address_normal = alice-normal;
  statement_part = first_line ∷ second_line ∷ [] ∷ [];
  prints_statement = (
    first_line,
    second_line ∷ [],
    (unfold join in refl),
    (
      (unbroken first_line refl, refl, (unfold starts_uri in refl)),
      ((unbroken second_line refl, refl, (unfold starts_uri in refl)), tt),
    ),
    refl,
  );
  uri_IsValue = stamp_text (codes "https://erdmko.dev") refl refl;
  version_IsValue = stamp_text (codes "1") refl refl;
  chain_id_below = omega arith;
  nonce_IsValue = stamp_text (codes "00ff00ff") refl refl;
  issued_at_IsValue = stamp_text (codes "2026-01-01T00:00:00Z") refl refl;
  expiration_time_IsOptionalValue = tt;
  not_before_IsOptionalValue = (
    unbroken (codes "2026-01-01T00:00:00Z") refl,
    trim_id (codes "2026-01-01T00:00:00Z") (nospace (codes "2026-01-01T00:00:00Z") refl),
  );
  request_id_IsOptionalValue =
      (unbroken (codes "r1") refl, trim_id (codes "r1") (nospace (codes "r1") refl));
}

parse_siwe_message-format_siwe_message_example :
    parse_siwe_message (format_siwe_message sign_in_message) ≡ ok sign_in_message
parse_siwe_message-format_siwe_message_example =
    parse_siwe_message-format_siwe_message sign_in_message sign_in_message-IsPrintable

-- Alice's wallet from any signature: the digest is the text itself, and the key ends with the wallet.
abbrev pub crypto : Crypto
crypto = record {
  keccak = λ bs. bs;
  hex_encode = λ bs. bs;
  hex_decode = λ s. some (map (λ c. c - b'0') (drop 65 s));
  Signature = List ℕ;
  from_slice = λ bs. some bs;
  is_high = λ s. false;
  recover = λ digest s id. some (0 ∷ codes "............" ++ drop 2 alice);
}

abbrev pub rfc3339 : Str → Option ℤ
rfc3339 s = some (pos 100)

abbrev pub config : DomainConfig
config = record { env_domain = none; compile_domain = some (codes "month.erdmko.dev") }

abbrev pub raw_message : Str
raw_message = format_siwe_message sign_in_message

abbrev pub raw_signature : Str
raw_signature =
    codes
      "0x0000000000000000000000000000000000000000000000000000000000000000000000000000000000000000000000000000000000000000000000000000000000"

pub message-acceptable :
    validate_siwe_message rfc3339 config sign_in_message none none (pos 200) ≡ ok tt
unfolding validate_siwe_message is_allowed_siwe_domain check_issued_at check_expiration_time
    check_not_before is_http_uri is_nonce parts starts_with bytes
message-acceptable = refl

signer : recover_personal_sign_address crypto raw_message raw_signature ≡ ok alice
unfolding recover_personal_sign_address parse_signature_bytes eip191_message_digest
    recover_address_from_digest recovery_id verifying_key_to_address parts bytes
signer = refl

verify_siwe_signature-accepts_example :
    (verify_siwe_signature crypto rfc3339 config raw_message raw_signature none none (pos 200)
      ≡ ok sign_in_message)
    ↔ IsSigned crypto rfc3339 config raw_message raw_signature none none (pos 200) sign_in_message
verify_siwe_signature-accepts_example =
    verify_siwe_signature-accepts crypto rfc3339 config raw_message raw_signature none none
      (pos 200) sign_in_message

-- Alice's message verifies.
pub sign_in_message-verified :
    verify_siwe_signature crypto rfc3339 config raw_message raw_signature none none (pos 200)
    ≡ ok sign_in_message
sign_in_message-verified =
    (verify_siwe_signature-accepts crypto rfc3339 config raw_message raw_signature none none
        (pos 200) sign_in_message).1
      (
        parse_siwe_message-format_siwe_message sign_in_message sign_in_message-IsPrintable,
        (validate_siwe_message-accepts rfc3339 config sign_in_message none none (pos 200)).0
            message-acceptable,
        signer,
      )

-- The database with the message's nonce.
abbrev pub with_nonce : Tables
with_nonce = record tables {
  nonces =
      record {
        nonce = codes "00ff00ff";
        wallet_address = alice;
        created_at = pos 100;
        expires_at = pos 400;
        consumed_at = none;
      }
      ∷ [];
}

alice_signs_in :
    (verify_siwe_and_consume_nonce crypto rfc3339 config raw_message raw_signature none none
      (pos 200)
      (alone with_nonce)).0
    ≡ ok sign_in_message
unfolding verify_siwe_and_consume_nonce finish_sign_in chain consume_nonce update_consumed parts
alice_signs_in = rw sign_in_message-verified refl

verify_siwe_and_consume_nonce-once_example :
    (verify_siwe_and_consume_nonce crypto rfc3339 config raw_message raw_signature none none
      (pos 210)
      (run
        (cleanup (pos 205) ∷ [])
        (verify_siwe_and_consume_nonce crypto rfc3339 config raw_message raw_signature none none
          (pos 200)
          (alone with_nonce)).1)).0
    ≢ ok sign_in_message
verify_siwe_and_consume_nonce-once_example =
    verify_siwe_and_consume_nonce-once crypto rfc3339 config raw_message raw_signature raw_message
      raw_signature none none none none (pos 200) (pos 210) (cleanup (pos 205) ∷ [])
      (alone with_nonce) sign_in_message sign_in_message (record { rely = tt; now = (refl, tt) }) tt
      (tt, tt) alice_signs_in refl
