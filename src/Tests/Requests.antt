-- ===== src/Tests/Requests.antt =====
-- The theorems on server/src/pages/auth.rs at concrete inputs.
use month_erdmko_de.Base.{
  ℕ, ◌≡◌, ◌≢◌, true, false, Option, refl, none, some, List, [], ◌∷◌, ◌++◌, arith,
}
use month_erdmko_de.Base.Int.{pos}
use month_erdmko_de.Base.Text.{Str, codes, is_whitespace, is_empty, strip_prefix}
use month_erdmko_de.Base.Lines.{push_char}
use month_erdmko_de.Base.Parse.{to_decimal, decimal_digits}
use month_erdmko_de.Base.Result.{ok}
use month_erdmko_de.Auth.Service.{random_hex, normalize_wallet_address, hex_digit}
use month_erdmko_de.Auth.Tables.{
  insert_payment, upsert_access, upsert, upsert_nickname, select_session, select_profile,
  read_profile, select_owner, insert_session, update_consumed, delete_session,
}
use month_erdmko_de.Auth.Exec.{alone, chain}
use month_erdmko_de.Auth.Db.{
  revoke_session, WalletProfile, is_taken, profile_of, consume_nonce, create_session,
  get_valid_session_wallet, get_wallet_profile, set_wallet_nickname, extend_access,
  record_payment_and_extend_access,
}
use month_erdmko_de.Auth.History.{cleanup, run}
use month_erdmko_de.Auth.Siwe.Message.{SiweMessage}
use month_erdmko_de.Auth.Siwe.Verify.{verify_siwe_signature}
use month_erdmko_de.Auth.Siwe.Consume.{finish_sign_in, verify_siwe_and_consume_nonce}
use month_erdmko_de.Auth.Handlers.Cookie.{
  split, first_token, part_token, cookie_value, extract_session_token, format_session_set_cookie,
}
use month_erdmko_de.Auth.Handlers.Cookie.Among.{cookie_text, extract_session_token-among}
use month_erdmko_de.Auth.Handlers.{
  session_ttl_secs, status_response, session_status, from_profile, runs, on_block, answer, respond,
  open_session, session_opened, post_auth_verify_handler, get_auth_session_handler,
  post_auth_logout_handler,
}
use month_erdmko_de.Auth.Handlers.Reads.{IsProfile}
use month_erdmko_de.Auth.Handlers.SignIn.{IsSessionAnswer, post_auth_verify_handler-session}
use month_erdmko_de.Auth.Handlers.Claim.Inputs.{requested_nickname, claim_inputs}
use month_erdmko_de.Auth.Handlers.Claim.{
  PaymentVerifier, session_wallet, rename_if, record_claim, pay_claim, settle_claim, claim_payment,
  post_auth_claim_payment_handler, rename_paid, rename_wallet, post_auth_nickname_handler,
}
use month_erdmko_de.Auth.Handlers.Claim.Once.{ReportsHash, post_auth_claim_payment_handler-once}
use month_erdmko_de.Auth.Handlers.Claim.Gate.{IsRenaming, post_auth_nickname_handler-gated}
use month_erdmko_de.Auth.Handlers.Logout.{post_auth_logout_handler-final}
use month_erdmko_de.Tests.Data.{
  parts, alice, bob, tx_hash, tx_hash_raw, tx_hash-normal, tx_hash_raw-normal, tables,
}
use month_erdmko_de.Tests.SignIn.{
  crypto, rfc3339, config, raw_message, raw_signature, sign_in_message-verified, with_nonce,
}

abbrev others : List Str
others = codes "theme=dark" ∷ codes "month_session_old=1" ∷ []

extract_session_token-among_example :
    extract_session_token (some (cookie_text others (codes "ab12" ++ codes "; a=b")))
    ≡ some (codes "ab12")
extract_session_token-among_example =
    extract_session_token-among others (codes "ab12") (codes "; a=b")
      (
        (
          (refl, (refl, (refl, (refl, (refl, (refl, (refl, (refl, (refl, (refl, tt)))))))))),
          unfold parts strip_prefix in refl,
        ),
        (
          (
            (
              refl,
              (
                refl,
                (
                  refl,
                  (
                    refl,
                    (
                      refl,
                      (
                        refl,
                        (
                          refl,
                          (
                            refl,
                            (
                              refl,
                              (
                                refl,
                                (
                                  refl,
                                  (
                                    refl,
                                    (refl, (refl, (refl, (refl, (refl, (refl, (refl, tt))))))),
                                  ),
                                ),
                              ),
                            ),
                          ),
                        ),
                      ),
                    ),
                  ),
                ),
              ),
            ),
            unfold parts strip_prefix in refl,
          ),
          tt,
        ),
      )
      (refl, (refl, (refl, (refl, tt))))
      (unfold is_whitespace in (refl, (refl, (refl, (refl, tt))))) (unfold is_empty in refl) refl

-- Opens what a request runs through.
unfoldable requests : Unit {0}
unfolding extract_session_token split push_char first_token part_token cookie_value strip_prefix
    answer respond on_block chain get_valid_session_wallet select_session get_wallet_profile
    select_profile read_profile profile_of session_wallet set_wallet_nickname select_owner is_taken
    upsert_nickname upsert
requests = tt

abbrev cookie : Str
cookie = codes "month_session=ab12"

abbrev verifier : PaymentVerifier
verifier x w = ok (record {
  tx_hash = x;
  from_wallet = w;
  to_wallet = bob;
  amount_wei = 1000;
  access_duration_secs = pos 100;
})

alice_claims :
    (post_auth_claim_payment_handler none verifier runs runs
      (some cookie)
      tx_hash_raw
      none
      (pos 600)
      (alone tables)).0.status
    ≡ 200
unfolding requests parts post_auth_claim_payment_handler claim_payment claim_inputs
    requested_nickname settle_claim pay_claim record_claim rename_if
    record_payment_and_extend_access insert_payment extend_access upsert_access to_decimal
    decimal_digits status_response
alice_claims = refl

verifier-ReportsHash : ReportsHash verifier
verifier-ReportsHash x w v h = ground arith

post_auth_claim_payment_handler-once_example :
    (post_auth_claim_payment_handler
      (some verifier)
      verifier
      runs
      runs
      (some cookie)
      tx_hash
      (some (codes "al"))
      (pos 700)
      (run
        (cleanup (pos 650) ∷ [])
        (post_auth_claim_payment_handler none verifier runs runs
          (some cookie)
          tx_hash_raw
          none
          (pos 600)
          (alone tables)).1)).0.status
    ≢ 200
post_auth_claim_payment_handler-once_example =
    post_auth_claim_payment_handler-once none (some verifier) verifier verifier runs runs runs runs
      (some cookie) (some cookie) tx_hash_raw tx_hash tx_hash none (some (codes "al")) (pos 600)
      (pos 700) (cleanup (pos 650) ∷ []) (alone tables) verifier-ReportsHash verifier-ReportsHash
      tx_hash_raw-normal tx_hash-normal tt alice_claims

alice_renames :
    (post_auth_nickname_handler runs (some cookie) (codes "al") (pos 300) (alone tables)).0.status
    ≡ 200
unfolding requests parts post_auth_nickname_handler rename_wallet rename_paid status_response
alice_renames = refl

post_auth_nickname_handler-gated_example :
    (token : Str) × (p : WalletProfile) × (extract_session_token (some cookie) ≡ some token)
    × ((post_auth_nickname_handler runs (some cookie) (codes "al") (pos 300) (alone tables)).0
        ≡ status_response p)
    × IsRenaming token
        (codes "al")
        (pos 300)
        (alone tables)
        p
        (post_auth_nickname_handler runs (some cookie) (codes "al") (pos 300) (alone tables)).1
post_auth_nickname_handler-gated_example =
    post_auth_nickname_handler-gated runs (some cookie) (codes "al") (pos 300) (alone tables)
      alice_renames

abbrev bytes_drawn : List ℕ
bytes_drawn = 1 ∷ 255 ∷ []

alice_opens :
    (post_auth_verify_handler crypto rfc3339 config runs bytes_drawn raw_message raw_signature
      (pos 200)
      (alone with_nonce)).0.status
    ≡ 200
unfolding requests parts post_auth_verify_handler open_session verify_siwe_and_consume_nonce
    finish_sign_in consume_nonce update_consumed create_session insert_session session_opened
    hex_digit
alice_opens = rw sign_in_message-verified refl

post_auth_verify_handler-session_example :
    let opened =
      post_auth_verify_handler crypto rfc3339 config runs bytes_drawn raw_message raw_signature
        (pos 200)
        (alone with_nonce) in
    let sent = some (cookie_text [] (random_hex bytes_drawn ++ [])) in
    (p : SiweMessage) × (v : Str) × (q : WalletProfile) × (verify_siwe_signature crypto rfc3339
        config raw_message raw_signature none none
        (pos 200)
      ≡ ok p)
    × (normalize_wallet_address p.address ≡ ok v)
    × (opened.0 ≡ record {
      status = 200;
      set_cookie = some (format_session_set_cookie (random_hex bytes_drawn) session_ttl_secs);
      body = session_status (from_profile q);
    })
    × IsProfile with_nonce v (pos 200) q
    × IsSessionAnswer with_nonce
        (pos 200)
        (pos 9000)
        v
        q
        (get_auth_session_handler runs sent (pos 9000) opened.1).0
post_auth_verify_handler-session_example =
    post_auth_verify_handler-session crypto rfc3339 config bytes_drawn raw_message raw_signature
      (pos 200) (pos 9000) with_nonce [] [] (omega arith, (omega arith, tt)) (omega arith) tt tt
      alice_opens

-- Alice logs out with the cookie of her session.
abbrev alice_cookie : Option Str
alice_cookie = some (codes "theme=dark; month_session=ab12")

abbrev old_cookie : Option Str
old_cookie = some (codes "month_session=ab12;")

cookie_read : extract_session_token alice_cookie ≡ some (codes "ab12")
unfolding extract_session_token parts split first_token part_token cookie_value strip_prefix
cookie_read = refl

old_cookie_read : extract_session_token old_cookie ≡ some (codes "ab12")
unfolding extract_session_token parts split first_token part_token cookie_value strip_prefix
old_cookie_read = refl

alice_revokes : (revoke_session (codes "ab12") (alone tables)).0 ≡ ok true
unfolding revoke_session parts chain delete_session
alice_revokes = refl

abbrev alice_profile : WalletProfile
alice_profile = record {
  wallet_address = alice;
  nickname = none;
  access_until = pos 0;
  has_active_access = false;
}

post_auth_logout_handler-final_example :
    (get_auth_session_handler runs old_cookie (pos 300) (
      run
        (cleanup (pos 5000) ∷ [])
        (post_auth_logout_handler runs alice_cookie (alone tables)).1)).0
    ≢ status_response alice_profile
post_auth_logout_handler-final_example =
    post_auth_logout_handler-final runs alice_cookie old_cookie (codes "ab12") true (pos 300)
      (cleanup (pos 5000) ∷ []) (alone tables) alice_profile cookie_read old_cookie_read
      (unfold parts in refl) tt (tt, tt) alice_revokes
