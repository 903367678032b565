-- ===== src/Auth/Service.antt =====
-- server/src/auth/service.rs: normal forms of wallet addresses and transaction hashes, nicknames,
-- and random tokens. The bytes that `rand` draws are an argument.
pub mod Normal
pub mod Nickname
pub mod Random
use month_erdmko_de.Base.{
  ℕ, ◌+◌, ◌-◌, ◌/◌, ◌%◌, Bool, true, false, not, ◌&&◌, ◌||◌, Option, none, some, List, [], ◌∷◌,
  ◌++◌, String, ltb, ◌==◌, if◌then◌else◌, all,
}
use month_erdmko_de.Base.Text.{
  Str, codes, bytes, len, trim, strip_prefix, is_empty, is_ascii_digit, is_ascii_lowercase,
  is_ascii_hexdigit, to_ascii_lowercase,
}
use month_erdmko_de.Base.Result.{ok, err, or_else}
use month_erdmko_de.Auth.Error.{AuthResult, validation_error}

abbrev pub wallet_address_len : ℕ
wallet_address_len = 42

abbrev pub tx_hash_len : ℕ
tx_hash_len = 66

abbrev pub max_ascii_nickname_len : ℕ
max_ascii_nickname_len = 32

-- `strip_prefix("0x").or_else(|| strip_prefix("0X"))`
unfoldable pub strip_0x : Str → Option Str
unfolding strip_prefix
strip_0x s = or_else (strip_prefix (codes "0x") s) (strip_prefix (codes "0X") s)

-- The digits behind the prefix, in lower case.
unfoldable pub lower_digits : String → String → Option Str → AuthResult Str
lower_digits no_prefix no_hex none = err (validation_error no_prefix)
lower_digits no_prefix no_hex (some hex_part) =
    if not (all is_ascii_hexdigit (bytes hex_part))
    then err (validation_error no_hex)
    else ok (b'0' ∷ b'x' ∷ to_ascii_lowercase hex_part)

-- The shape that `normalize_wallet_address` and `normalize_tx_hash` share.
unfoldable pub normalize_hex : ℕ → String → String → String → Str → AuthResult Str
unfolding lower_digits
normalize_hex n no_len no_prefix no_hex raw =
    let trimmed = trim raw in
    if not (len trimmed == n)
    then err (validation_error no_len)
    else lower_digits no_prefix no_hex (strip_0x trimmed)

unfoldable pub normalize_wallet_address : Str → AuthResult Str
normalize_wallet_address =
    normalize_hex wallet_address_len "wallet address must be a 42-character 0x-prefixed hex string"
      "wallet address must start with 0x" "wallet address must contain only hexadecimal characters"

unfoldable pub normalize_tx_hash : Str → AuthResult Str
normalize_tx_hash =
    normalize_hex tx_hash_len "transaction hash must be a 66-character 0x-prefixed hex string"
      "transaction hash must start with 0x"
      "transaction hash must contain only hexadecimal characters"

abbrev pub is_nickname_byte : ℕ → Bool
is_nickname_byte b = is_ascii_lowercase b || is_ascii_digit b || b == b'_' || b == b'-'

unfoldable pub validate_ascii_nickname : Str → AuthResult Str
validate_ascii_nickname raw =
    let trimmed = trim raw in
    if is_empty trimmed || ltb max_ascii_nickname_len (len trimmed)
    then err (validation_error "nickname must be between 1 and 32 ASCII characters")
    else if not (all is_nickname_byte (bytes trimmed))
    then err
        (validation_error "nickname may only contain lowercase ASCII letters, digits, '_' or '-'")
    else ok trimmed

-- A digit of `{b:02x}`.
unfoldable pub hex_digit : ℕ → ℕ
hex_digit d = if ltb d 10 then b'0' + d else b'a' + (d - 10)

-- `random_hex`, on the bytes that the generator filled in.
unfoldable pub random_hex : List ℕ → Str
unfolding hex_digit
random_hex [] = []
random_hex (b ∷ bs) = hex_digit (b / 16) ∷ hex_digit (b % 16) ∷ random_hex bs
