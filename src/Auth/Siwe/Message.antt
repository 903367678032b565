-- ===== src/Auth/Siwe/Message.antt =====
-- server/src/auth/siwe.rs, the text of a sign-in message (EIP-4361): `format_siwe_message`,
-- `parse_siwe_message` and `strip_field`.
pub mod Printed
pub mod Printable
pub mod Unbroken
pub mod RoundTrip
use month_erdmko_de.Base.{
  ℕ, Bool, true, false, not, ◌&&◌, ◌||◌, Option, none, some, List, [], ◌∷◌, ◌++◌, String, ltb,
  if◌then◌else◌, length, any,
}
use month_erdmko_de.Base.Text.{
  Str, codes, concat, trim, strip_prefix, starts_with, is_empty, is_whitespace,
}
use month_erdmko_de.Base.Lines.{replace_crlf, lines, join, strip_suffix}
use month_erdmko_de.Base.Parse.{from_str_radix, u64_mod, to_decimal}
use month_erdmko_de.Base.Result.{Result, ok, err, ◌>>=◌, ok_or}
use month_erdmko_de.Auth.Error.{AuthError, AuthResult, unauthorized_error}
use month_erdmko_de.Auth.Service.{normalize_wallet_address}
use month_erdmko_de.Auth.Payment.{reject_if}

pub record SiweMessage : Type 0 where
  pub domain : Str
  pub address : Str
  pub statement : Option Str
  pub uri : Str
  pub version : Str
  pub chain_id : ℕ
  pub nonce : Str
  pub issued_at : Str
  pub expiration_time : Option Str
  pub not_before : Option Str
  pub request_id : Option Str

abbrev pub account_suffix : Str
account_suffix = codes " wants you to sign in with your Ethereum account:"

-- The statement is written unless it is absent or empty.
unfoldable pub statement_text : Option Str → Str
statement_text none = []
statement_text (some statement) = if not (is_empty statement) then statement ++ codes "\n\n" else []

unfoldable pub optional_field : String → Option Str → Str
optional_field prefix none = []
optional_field prefix (some value) = codes prefix ++ value

-- What `push_str` and `format!` have put together.
unfoldable pub pushed : List Str → Str
pushed [] = []
pushed (s ∷ ss) = s ++ pushed ss

unfoldable pub format_siwe_message : SiweMessage → Str
unfolding statement_text optional_field pushed
format_siwe_message msg = pushed (
    msg.domain
    ∷ codes " wants you to sign in with your Ethereum account:\n"
    ∷ msg.address
    ∷ codes "\n\n"
    ∷ statement_text msg.statement
    ∷ codes "URI: "
    ∷ msg.uri
    ∷ codes "\nVersion: "
    ∷ msg.version
    ∷ codes "\nChain ID: "
    ∷ to_decimal msg.chain_id
    ∷ codes "\nNonce: "
    ∷ msg.nonce
    ∷ codes "\nIssued At: "
    ∷ msg.issued_at
    ∷ optional_field "\nExpiration Time: " msg.expiration_time
    ∷ optional_field "\nNot Before: " msg.not_before
    ∷ optional_field "\nRequest ID: " msg.request_id
    ∷ [])

abbrev pub malformed : String → AuthError
malformed = unauthorized_error "INVALID_SIWE_MESSAGE"

-- `lines.get(i)`
unfoldable pub first : List Str → Option Str
first [] = none
first (l ∷ ls) = some l

unfoldable pub rest : List Str → List Str
rest [] = []
rest (l ∷ ls) = ls

-- `strip_field`, on the line at the index.
unfoldable pub strip_value : String → Option Str → AuthResult Str
strip_value prefix none = err (malformed (concat "Expected SIWE field '" (concat prefix "'")))
strip_value prefix (some val) =
    let trimmed = trim val in
    if is_empty trimmed
    then err (malformed (concat "SIWE field '" (concat prefix "' cannot be empty")))
    else ok trimmed

unfoldable pub strip_field : Option Str → String → AuthResult Str
unfolding strip_value
strip_field none prefix =
    err (malformed (concat "Missing required SIWE field '" (concat prefix "'")))
strip_field (some line) prefix = strip_value prefix (strip_prefix (codes prefix) line)

-- The domain in the first line.
unfoldable pub parse_domain : Str → AuthResult Str
parse_domain line = do
  before ← ok_or (strip_suffix account_suffix line) (malformed "SIWE message header is invalid.")
  let domain = trim before
  _ ← reject_if (is_empty domain || any is_whitespace domain) (malformed "SIWE domain is invalid.")
  ok domain

unfoldable pub parse_address : Str → AuthResult Str
parse_address line = elim (normalize_wallet_address line) [
  | ok address ↦ ok address
  | err e ↦ err (malformed "SIWE wallet address is invalid.")
]

unfoldable pub starts_uri : Str → Bool
starts_uri = starts_with (codes "URI: ")

-- The lines of the statement, and those behind it.
unfoldable pub statement_lines : List Str → List Str × List Str
unfolding starts_uri
statement_lines [] = ([], [])
statement_lines (l ∷ ls) =
    let (stmt_lines, after) = statement_lines ls in
    if not (is_empty l) && not (starts_uri l) then (l ∷ stmt_lines, after) else ([], l ∷ ls)

unfoldable pub joined : List Str → Option Str
joined [] = none
joined (l ∷ ls) = some (join (l ∷ ls))

-- A blank line stands behind the statement.
unfoldable pub close_statement : List Str × List Str → AuthResult (Option Str × List Str)
unfolding joined
close_statement (stmt_lines, []) = err (malformed "Expected blank line after SIWE statement.")
close_statement (stmt_lines, l ∷ ls) =
    if not (is_empty l)
    then err (malformed "Expected blank line after SIWE statement.")
    else ok (joined stmt_lines, ls)

-- The statement, if there is one, and the lines from `URI: ` on.
unfoldable pub parse_statement : List Str → AuthResult (Option Str × List Str)
unfolding starts_uri statement_lines close_statement
parse_statement [] = close_statement ([], [])
parse_statement (l ∷ ls) =
    if starts_uri l then ok (none, l ∷ ls) else close_statement (statement_lines (l ∷ ls))

pub record OptionalFields : Type 0 where
  pub expiration_time : Option Str
  pub not_before : Option Str
  pub request_id : Option Str

unfoldable pub is_some : Option Str → Bool
is_some none = false
is_some (some s) = true

-- One round of the loop over the lines behind `Issued At: `.
unfoldable pub optional_line : Str → OptionalFields → AuthResult OptionalFields
unfolding is_some
optional_line line seen = elim (strip_prefix (codes "Expiration Time: ") line) [
  | some val ↦
      if is_some seen.expiration_time
      then err (malformed "Duplicate Expiration Time field.")
      else ok (record seen { expiration_time = some (trim val) })
  | none ↦ elim (strip_prefix (codes "Not Before: ") line) [
    | some val ↦
        if is_some seen.not_before
        then err (malformed "Duplicate Not Before field.")
        else ok (record seen { not_before = some (trim val) })
    | none ↦ elim (strip_prefix (codes "Request ID: ") line) [
      | some val ↦
          if is_some seen.request_id
          then err (malformed "Duplicate Request ID field.")
          else ok (record seen { request_id = some (trim val) })
      | none ↦ err (malformed "Unexpected field in SIWE message.")
    ]
  ]
]

unfoldable pub optional_lines : List Str → OptionalFields → AuthResult OptionalFields
unfolding optional_line
optional_lines [] seen = ok seen
optional_lines (l ∷ ls) seen = do now ← optional_line l seen; optional_lines ls now

abbrev pub no_fields : OptionalFields
no_fields = record { expiration_time = none; not_before = none; request_id = none }

-- The fields from `URI: ` on.
unfoldable pub parse_fields : Str → Str → Option Str × List Str → AuthResult SiweMessage
unfolding strip_field optional_lines first rest
parse_fields domain address (statement, at_uri) = do
  uri ← strip_field (first at_uri) "URI: "
  let at_version = rest at_uri
  version ← strip_field (first at_version) "Version: "
  let at_chain = rest at_version
  chain_id_raw ← strip_field (first at_chain) "Chain ID: "
  chain_id ←
      ok_or (from_str_radix 10 u64_mod chain_id_raw) (malformed "SIWE Chain ID must be an integer.")
  let at_nonce = rest at_chain
  nonce ← strip_field (first at_nonce) "Nonce: "
  let at_issued = rest at_nonce
  issued_at ← strip_field (first at_issued) "Issued At: "
  optional ← optional_lines (rest at_issued) no_fields
  ok (record {
    domain = domain;
    address = address;
    statement = statement;
    uri = uri;
    version = version;
    chain_id = chain_id;
    nonce = nonce;
    issued_at = issued_at;
    expiration_time = optional.expiration_time;
    not_before = optional.not_before;
    request_id = optional.request_id;
  })

-- The lines of the message.
unfoldable pub parse_lines : List Str → AuthResult SiweMessage
unfolding parse_domain parse_address parse_statement parse_fields
parse_lines (header ∷ wallet ∷ blank ∷ ls) = do
  _ ←
      reject_if (ltb (length (header ∷ wallet ∷ blank ∷ ls)) 7)
        (malformed "SIWE message is incomplete.")
  domain ← parse_domain header
  address ← parse_address wallet
  _ ← reject_if (not (is_empty blank)) (malformed "Expected empty line after SIWE wallet address.")
  at_fields ← parse_statement ls
  parse_fields domain address at_fields
parse_lines ls = err (malformed "SIWE message is incomplete.")

unfoldable pub parse_siwe_message : Str → AuthResult SiweMessage
unfolding parse_lines
parse_siwe_message raw = parse_lines (lines (replace_crlf raw))
