-- ===== src/Auth/Siwe/Message/Printed.antt =====
-- The lines that `format_siwe_message` prints (server/src/auth/siwe.rs).
use mathlib.Core.List.{append_assoc, append-nil}
use month_erdmko_de.Base.{
  ◌≡◌, refl, sym, ap, ◌∙◌, false, Option, none, some, List, [], ◌∷◌, ◌++◌, String, All,
}
use month_erdmko_de.Base.Text.{Str, codes, is_empty}
use month_erdmko_de.Base.Lines.{newline, join}
use month_erdmko_de.Base.Lines.Laws.{NoBreak}
use month_erdmko_de.Base.Parse.{to_decimal}
use month_erdmko_de.Auth.Siwe.Message.{
  SiweMessage, account_suffix, statement_text, optional_field, format_siwe_message, pushed,
  starts_uri,
}

-- Each line behind a newline.
unfoldable pub after : List Str → Str
after [] = []
after (l ∷ ls) = newline ∷ (l ++ after ls)

join-after : (l : Str) (ls : List Str) → join (l ∷ ls) ≡ l ++ after ls
unfolding join after
join-after l [] = sym (append-nil l)
join-after l (m ∷ ls) = rw (join-after m ls) refl

after-append : (ls ms : List Str) → after (ls ++ ms) ≡ after ls ++ after ms
unfolding after
after-append [] ms = refl
after-append (l ∷ ls) ms = rw (after-append ls ms, append_assoc l (after ls) (after ms)) refl

unfoldable pub option_line : String → Option Str → List Str
option_line prefix none = []
option_line prefix (some v) = (codes prefix ++ v) ∷ []

unfoldable pub option_lines : SiweMessage → List Str
unfolding option_line
option_lines msg =
    option_line "Expiration Time: " msg.expiration_time
    ++ (option_line "Not Before: " msg.not_before ++ option_line "Request ID: " msg.request_id)

-- The lines from `URI: ` on.
unfoldable pub field_lines : SiweMessage → List Str
unfolding option_lines
field_lines msg =
    (codes "URI: " ++ msg.uri)
    ∷ (codes "Version: " ++ msg.version)
    ∷ (codes "Chain ID: " ++ to_decimal msg.chain_id)
    ∷ (codes "Nonce: " ++ msg.nonce)
    ∷ (codes "Issued At: " ++ msg.issued_at)
    ∷ option_lines msg

expiration_time-line :
    (o : Option Str)
    → after (option_line "Expiration Time: " o) ≡ optional_field "\nExpiration Time: " o
unfolding after option_line optional_field
expiration_time-line none = refl
expiration_time-line (some v) = rw (append-nil v) refl

not_before-line :
    (o : Option Str) → after (option_line "Not Before: " o) ≡ optional_field "\nNot Before: " o
unfolding after option_line optional_field
not_before-line none = refl
not_before-line (some v) = rw (append-nil v) refl

request_id-line :
    (o : Option Str)
    → after (option_line "Request ID: " o) ≡ optional_field "\nRequest ID: " o ++ []
unfolding after option_line optional_field
request_id-line none = refl
request_id-line (some v) = refl

-- The printed text from `URI: ` on.
abbrev fields_text : SiweMessage → Str
fields_text msg = pushed (
    codes "URI: "
    ∷ msg.uri
    ∷ codes "\nVersion: "
    ∷ msg.version
    ∷ codes "\nChain ID: "
    ∷ to_decimal msg.chain_id
    ∷ codes "\nNonce: "
    ∷ msg.nonce
    ∷ codes "\nIssued At: "
    ∷ msg.issued_at
    ∷ optional_field "\nExpiration Time: " msg.expiration_time
    ∷ optional_field "\nNot Before: " msg.not_before
    ∷ optional_field "\nRequest ID: " msg.request_id
    ∷ [])

after-option_lines :
    (msg : SiweMessage)
    → after (option_lines msg)
      ≡ optional_field "\nExpiration Time: " msg.expiration_time
        ++ (optional_field "\nNot Before: " msg.not_before
            ++ (optional_field "\nRequest ID: " msg.request_id ++ []))
unfolding option_lines
after-option_lines msg =
    rw
      (
        after-append (option_line "Expiration Time: " msg.expiration_time) (
            option_line "Not Before: " msg.not_before ++ option_line "Request ID: " msg.request_id),
        after-append (option_line "Not Before: " msg.not_before)
            (option_line "Request ID: " msg.request_id),
        expiration_time-line msg.expiration_time,
        not_before-line msg.not_before,
        request_id-line msg.request_id,
      )
      refl

after-field_lines : (msg : SiweMessage) → after (field_lines msg) ≡ newline ∷ fields_text msg
unfolding after field_lines pushed
after-field_lines msg = rw (after-option_lines msg) refl

-- A line of a statement: not empty, on one line, and not the first of the fields.
abbrev pub IsStatementLine : Str → Type 0
IsStatementLine l = NoBreak l × (is_empty l ≡ false) × (starts_uri l ≡ false)

-- The lines of the statement, with the blank line behind them.
abbrev pub PrintsStatement : Option Str → List Str → Type 0
PrintsStatement none ss = ss ≡ []
PrintsStatement (some s) ss =
    (l : Str) × (ls : List Str) × (s ≡ join (l ∷ ls))
    × All IsStatementLine (l ∷ ls)
    × (ss ≡ (l ∷ ls) ++ ([] ∷ []))

abbrev pub printed_lines : SiweMessage → List Str → List Str
printed_lines msg ss = (msg.domain ++ account_suffix) ∷ msg.address ∷ [] ∷ (ss ++ field_lines msg)

join-not_empty : (l : Str) (ls : List Str) → is_empty l ≡ false → is_empty (join (l ∷ ls)) ≡ false
unfolding join is_empty
join-not_empty [] ls h = cc
join-not_empty (c ∷ l) [] h = refl
join-not_empty (c ∷ l) (m ∷ ls) h = refl

after-block :
    (l : Str) (ls ms : List Str)
    → after (((l ∷ ls) ++ ([] ∷ [])) ++ ms) ≡ newline ∷ (join (l ∷ ls) ++ (newline ∷ after ms))
after-block l ls ms =
    ap (λ r. after r) (append_assoc (l ∷ ls) ([] ∷ []) ms)
    ∙ after-append (l ∷ ls) ([] ∷ ms)
    ∙ (unfold after in rw (sym (join-after l ls)) refl)

after-statement :
    (o : Option Str) (ss : List Str) (msg : SiweMessage)
    → PrintsStatement o ss
    → after (ss ++ field_lines msg) ≡ newline ∷ (statement_text o ++ fields_text msg)
unfolding statement_text
after-statement none ss msg h = rw h (after-field_lines msg)
after-statement (some s) ss msg (l, ls, e, h, f) =
    rw
      (
        f,
        e,
        join-not_empty l ls h.0.1,
        append_assoc (join (l ∷ ls)) (newline ∷ newline ∷ []) (fields_text msg),
      )
      (after-block l ls (field_lines msg)
        ∙ ap (λ r. newline ∷ (join (l ∷ ls) ++ (newline ∷ r))) (after-field_lines msg))

-- The printed text is its lines, joined.
pub format_siwe_message-join :
    (msg : SiweMessage) (ss : List Str)
    → PrintsStatement msg.statement ss
    → format_siwe_message msg ≡ join (printed_lines msg ss)
unfolding format_siwe_message
format_siwe_message-join msg ss h = sym (
    join-after (msg.domain ++ account_suffix) (msg.address ∷ [] ∷ (ss ++ field_lines msg))
    ∙ (unfold after in
        rw (after-statement msg.statement ss msg h) (append_assoc msg.domain account_suffix _)))
