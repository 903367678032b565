-- ===== src/Tests/Data.antt =====
-- Two wallets, a transaction hash, and a database that they have used.
use month_erdmko_de.Base.{◌≡◌, refl, none, some, [], ◌∷◌}
use month_erdmko_de.Base.Int.{pos, leb_ℤ, ltb_ℤ, ◌+ℤ◌, max_ℤ, in_i64, add_i64, wrap_i64}
use month_erdmko_de.Base.Text.{
  Str, codes, is_empty, str_eq, len, trim, is_ascii_hexdigit, to_ascii_lowercase,
}
use month_erdmko_de.Base.Result.{ok}
use month_erdmko_de.Auth.Service.{
  validate_ascii_nickname, random_hex, strip_0x, normalize_hex, normalize_wallet_address,
  normalize_tx_hash,
}
use month_erdmko_de.Auth.Tables.{Tables, nickname_is}

-- A run names this on its `unfolding` line, and so opens the parts.
unfoldable pub parts : Unit {0}
unfolding normalize_wallet_address normalize_tx_hash normalize_hex strip_0x trim is_ascii_hexdigit
    to_ascii_lowercase len is_empty str_eq random_hex validate_ascii_nickname leb_ℤ ltb_ℤ ◌+ℤ◌ max_ℤ
    in_i64 add_i64 wrap_i64 nickname_is
parts = tt

abbrev pub alice : Str
alice = codes "0xeff121f128e0e64c0e64ae8eb6eb042a0e5aa81c"

-- The same wallet, as a client may write it.
abbrev pub alice_raw : Str
alice_raw = codes " 0XEFF121F128E0E64C0E64AE8EB6EB042A0E5AA81C "

abbrev pub bob : Str
bob = codes "0x00000000219ab540356cbb839cbe05303d7705fa"

abbrev pub tx_hash : Str
tx_hash = codes "0x88df016429689c079f3b2f6ad39fa052532c56795b733da78a91ebe6a713944b"

abbrev pub tx_hash_raw : Str
tx_hash_raw = codes "0X88DF016429689C079F3B2F6AD39FA052532C56795B733DA78A91EBE6A713944B"

pub alice-normal : normalize_wallet_address alice ≡ ok alice
unfolding parts
alice-normal = refl

pub alice_raw-normal : normalize_wallet_address alice_raw ≡ ok alice
unfolding parts
alice_raw-normal = refl

pub bob-normal : normalize_wallet_address bob ≡ ok bob
unfolding parts
bob-normal = refl

pub tx_hash-normal : normalize_tx_hash tx_hash ≡ ok tx_hash
unfolding parts
tx_hash-normal = refl

pub tx_hash_raw-normal : normalize_tx_hash tx_hash_raw ≡ ok tx_hash
unfolding parts
tx_hash_raw-normal = refl

abbrev pub nonce : Str
nonce = codes "00ff"

-- A database with a nonce and a session of alice, and a profile of each.
abbrev pub tables : Tables
tables = record {
  nonces =
      record {
        nonce = nonce;
        wallet_address = alice;
        created_at = pos 100;
        expires_at = pos 400;
        consumed_at = none;
      }
      ∷ [];
  sessions =
      record {
        token = codes "ab12";
        wallet_address = alice;
        created_at = pos 100;
        expires_at = pos 1000;
      }
      ∷ [];
  profiles =
      record {
        wallet_address = alice;
        nickname = some (codes "alice");
        access_until = pos 500;
        updated_at = pos 100;
      }
      ∷ record {
        wallet_address = bob;
        nickname = some (codes "bob");
        access_until = pos 0;
        updated_at = pos 100;
      }
      ∷ [];
  payments = [];
}
