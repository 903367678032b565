-- ===== src/Tests/Auth.antt =====
-- The theorems on server/src/auth at concrete inputs.
use month_erdmko_de.Base.{
  length, All, ℕ, ◌≡◌, ◌≢◌, refl, inl, inr, true, none, some, List, [], ◌∷◌, arith, if◌then◌else◌,
}
use month_erdmko_de.Base.Int.{pos, ltb_ℤ, add_i64}
use month_erdmko_de.Base.Text.{Str, codes, trim}
use month_erdmko_de.Base.Result.{ok, err}
use month_erdmko_de.Base.Rows.{has_row}
use month_erdmko_de.Auth.Error.{fault, conflict_error}
use month_erdmko_de.Auth.Service.{
  random_hex, validate_ascii_nickname, normalize_wallet_address, normalize_tx_hash,
  wallet_address_len, tx_hash_len,
}
use month_erdmko_de.Auth.Service.Normal.{
  IsLowerHex, IsCanonical, normalize_wallet_address-normal, normalize_tx_hash-normal,
}
use month_erdmko_de.Auth.Service.Nickname.{
  IsNickname, validate_ascii_nickname-IsNickname, validate_ascii_nickname-of_nickname,
}
use month_erdmko_de.Auth.Service.Random.{random_hex-digits, random_hex-injective}
use month_erdmko_de.Auth.Tables.{
  has_tx, insert_payment, upsert_access, upsert, update_consumed, delete_session, select_profile,
  read_profile,
}
use month_erdmko_de.Auth.Exec.{alone, chain}
use month_erdmko_de.Auth.Exec.Keeps.{Holds}
use month_erdmko_de.Auth.Db.{
  WalletProfile, consume_nonce, create_session, get_valid_session_wallet, revoke_session,
  get_wallet_profile, set_wallet_nickname, extend_access, record_payment_and_extend_access,
}
use month_erdmko_de.Auth.Db.Profiles.{record_payment-extends, record_payment_loses}
use month_erdmko_de.Auth.Db.Sessions.{create_session-resolves}
use month_erdmko_de.Auth.History.{Op, revoke, rename, cleanup, run}
use month_erdmko_de.Auth.History.Spent.{consume_nonce-once}
use month_erdmko_de.Auth.History.Revoked.{revoke_session-final}
use month_erdmko_de.Auth.History.Payments.{HasAccess, record_payment-once, run-HasAccess}
use month_erdmko_de.Auth.History.Unique.{same_nickname, IsUnique, run-IsUnique}
use month_erdmko_de.Auth.History.Nicknames.{set_wallet_nickname-taken, set_wallet_nickname-free}
use month_erdmko_de.Tests.Data.{
  parts, alice, alice_raw, bob, tx_hash, tx_hash_raw, alice_raw-normal, bob-normal, tx_hash-normal,
  tx_hash_raw-normal, nonce, tables,
}

abbrev wei : Str
wei = codes "1000000000000000"

-- Alice's profile once she has paid at 600 for 100 seconds.
abbrev paid : WalletProfile
paid = record {
  wallet_address = alice;
  nickname = some (codes "alice");
  access_until = pos 700;
  has_active_access = true;
}

alice-pays :
    (record_payment_and_extend_access alice_raw tx_hash_raw wei
      (pos 600)
      (pos 100)
      (alone tables)).0
    ≡ ok paid
unfolding record_payment_and_extend_access parts chain insert_payment extend_access upsert_access
    upsert get_wallet_profile select_profile read_profile
alice-pays = refl

abbrev calls : List Op
calls = cleanup (pos 5000) ∷ rename bob (codes "alice") (pos 700) ∷ revoke (codes "ab12") ∷ []

record_payment-once_example :
    (record_payment_and_extend_access bob tx_hash wei (pos 900) (pos 100) (
      run calls
        (record_payment_and_extend_access alice_raw tx_hash_raw wei
          (pos 600)
          (pos 100)
          (alone tables)).1)).0
    ≢ ok paid
record_payment-once_example =
    record_payment-once alice_raw bob tx_hash_raw tx_hash wei wei tx_hash (pos 600) (pos 900)
      (pos 100) (pos 100) calls (alone tables) paid paid tx_hash_raw-normal tx_hash-normal tt
      alice-pays

alice-consumes : (consume_nonce nonce alice_raw (pos 200) (alone tables)).0 ≡ ok true
unfolding consume_nonce parts chain update_consumed
alice-consumes = refl

consume_nonce-once_example :
    (consume_nonce nonce alice
      (pos 201)
      (run calls (consume_nonce nonce alice_raw (pos 200) (alone tables)).1)).0
    ≢ ok true
consume_nonce-once_example =
    consume_nonce-once nonce alice_raw alice (pos 200) (pos 201) calls (alone tables)
      (record { rely = tt; now = (refl, tt) }) tt (tt, (tt, (tt, tt))) alice-consumes

alice-revokes : (revoke_session (codes "ab12") (alone tables)).0 ≡ ok true
unfolding revoke_session parts chain delete_session
alice-revokes = refl

revoke_session-final_example :
    (get_valid_session_wallet
      (codes "ab12")
      (pos 300)
      (run calls (revoke_session (codes "ab12") (alone tables)).1)).0
    ≢ ok (some alice)
revoke_session-final_example =
    revoke_session-final (codes "ab12") alice true (pos 300) calls (alone tables)
      (unfold parts in refl) tt (tt, (tt, (tt, tt))) alice-revokes

-- The keys of the test data are distinct.
tables-IsUnique : Holds IsUnique (alone tables)
unfolding parts same_nickname
tables-IsUnique = record {
  rely = tt;
  now = record {
    nonces = (refl, tt);
    tokens = (refl, tt);
    wallets = (refl, (refl, tt));
    nicknames = (refl, (refl, tt));
    hashes = tt;
  };
}

run-IsUnique_example : Holds IsUnique (run calls (alone tables))
run-IsUnique_example = run-IsUnique calls (alone tables) tables-IsUnique

run-HasAccess_example : Holds (HasAccess alice (pos 400)) (run calls (alone tables))
run-HasAccess_example =
    run-HasAccess alice (pos 400) calls (alone tables)
      (record { rely = tt; now = unfold parts in refl })

record_payment-extends_example :
    (record_payment_and_extend_access alice_raw tx_hash_raw wei
      (pos 600)
      (pos 100)
      (alone tables)).0
    ≡ ok paid
unfolding parts
record_payment-extends_example =
    (record_payment-extends alice_raw tx_hash_raw wei alice tx_hash (pos 600) (pos 100) tables
      alice_raw-normal tx_hash_raw-normal (unfold parts in refl) (unfold parts in refl) refl
      (unfold parts in ground arith)).0

record_payment_loses_example :
    has_row
      (has_tx tx_hash)
      (record_payment_and_extend_access alice_raw tx_hash_raw wei (pos 600) (pos 100) (record {
        tables = tables;
        turns =
            record { others = λ s. s; fault = none }
            ∷ record { others = λ s. s; fault = some (fault "disk full") }
            ∷ [];
      })).1.tables.payments
    ≡ true
record_payment_loses_example =
    (record_payment_loses alice_raw tx_hash_raw wei alice tx_hash (pos 600) (pos 100) tables
      (fault "disk full") alice_raw-normal tx_hash_raw-normal (unfold parts in refl)
      (unfold parts in refl) refl).1

create_session-resolves_example :
    (get_valid_session_wallet
      (random_hex (7 ∷ 255 ∷ []))
      (pos 30)
      (create_session (7 ∷ 255 ∷ []) alice_raw (pos 10) (pos 20) (alone tables)).1).0
    ≡ ok (if ltb_ℤ (pos 30) (add_i64 (pos 10) (pos 20)) then some alice else none)
create_session-resolves_example =
    create_session-resolves (7 ∷ 255 ∷ []) alice_raw alice (pos 10) (pos 20) (pos 30) tables
      (omega arith, (omega arith, tt)) (omega arith) alice_raw-normal (unfold parts in refl)
      (unfold parts in refl)

set_wallet_nickname-taken_example :
    set_wallet_nickname bob (codes "alice ") (pos 600) (alone tables) ≡ (
      err (conflict_error "NICKNAME_TAKEN" "Nickname is already registered to another wallet."),
      alone tables,
    )
set_wallet_nickname-taken_example =
    set_wallet_nickname-taken bob (codes "alice ") bob (codes "alice") (pos 600) tables
      tables-IsUnique.now bob-normal (unfold parts in refl) (unfold parts in refl)

set_wallet_nickname-free_example :
    (set_wallet_nickname alice_raw (codes "ann") (pos 450) (alone tables)).0
    ≡ ok (record {
      wallet_address = alice;
      nickname = some (codes "ann");
      access_until = pos 500;
      has_active_access = true;
    })
unfolding parts
set_wallet_nickname-free_example =
    (set_wallet_nickname-free alice_raw (codes "ann") alice (codes "ann") (pos 450) tables
      alice_raw-normal (unfold parts in refl) (unfold parts in refl)
      (unfold parts in ground arith)).0

normalize_wallet_address-normal_example :
    IsCanonical wallet_address_len alice × (normalize_wallet_address alice ≡ ok alice)
normalize_wallet_address-normal_example = normalize_wallet_address-normal alice_raw alice_raw-normal

normalize_tx_hash-normal_example :
    IsCanonical tx_hash_len tx_hash × (normalize_tx_hash tx_hash ≡ ok tx_hash)
normalize_tx_hash-normal_example = normalize_tx_hash-normal tx_hash_raw tx_hash_raw-normal

validate_ascii_nickname-IsNickname_example :
    (codes "ann-7" ≡ trim (codes " ann-7")) × IsNickname (codes "ann-7")
validate_ascii_nickname-IsNickname_example =
    validate_ascii_nickname-IsNickname (codes " ann-7") (unfold parts in refl)

validate_ascii_nickname-of_nickname_example :
    validate_ascii_nickname (codes "a_1") ≡ ok (codes "a_1")
validate_ascii_nickname-of_nickname_example = validate_ascii_nickname-of_nickname (codes "a_1") (
  omega arith,
  omega arith,
  (
    inl (omega arith, omega arith),
    (inr (inr (inl refl)), (inr (inl (omega arith, omega arith)), tt)),
  ),
)

random_hex-digits_example :
    (length (random_hex (7 ∷ 255 ∷ [])) ≡ 4) × All IsLowerHex (random_hex (7 ∷ 255 ∷ []))
random_hex-digits_example = random_hex-digits (7 ∷ 255 ∷ []) (omega arith, (omega arith, tt))

abbrev draw : List ℕ
draw = 7 ∷ 255 ∷ []

random_hex-injective_example : draw ≡ draw
random_hex-injective_example =
    random_hex-injective (7 ∷ 255 ∷ []) (7 ∷ 255 ∷ []) (omega arith, (omega arith, tt))
      (omega arith, (omega arith, tt)) refl
