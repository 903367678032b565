-- ===== src/Auth/Siwe/Message/RoundTrip.antt =====
-- A printed sign-in message is read back (server/src/auth/siwe.rs).
use mathlib.Core.List.{append_assoc}
use month_erdmko_de.Base.{
  ◌≡◌, refl, ◌∙◌, true, false, Option, none, some, List, [], ◌∷◌, ◌++◌, String, arith, ltb, ◌==◌,
  length, length-append, All,
}
use month_erdmko_de.Base.Text.{Str, codes, is_empty, strip_prefix, starts_with}
use month_erdmko_de.Base.Text.Laws.{NoSpace, trim_id}
use month_erdmko_de.Base.Lines.{join}
use month_erdmko_de.Base.Lines.Laws.{lines-join, strip_suffix-append}
use month_erdmko_de.Base.Result.{ok}
use month_erdmko_de.Base.Parse.{u64_mod, to_decimal}
use month_erdmko_de.Base.Parse.Decimal.{from_str_radix-to_decimal}
use month_erdmko_de.Auth.Service.{normalize_wallet_address}
use month_erdmko_de.Auth.Siwe.Message.{
  SiweMessage, account_suffix, parse_domain, parse_address, starts_uri, statement_lines,
  close_statement, joined, parse_statement, strip_field, strip_value, optional_lines, optional_line,
  parse_fields, first, rest, is_some, parse_lines, parse_siwe_message, format_siwe_message,
  no_fields, OptionalFields,
}
use month_erdmko_de.Auth.Siwe.Message.Printed.{
  option_line, option_lines, field_lines, printed_lines, IsStatementLine, PrintsStatement,
  format_siwe_message-join,
}
use month_erdmko_de.Auth.Siwe.Message.Printable.{
  IsValue, IsOptionalValue, IsPrintable, NoSpace-any, to_decimal-IsValue,
}
use month_erdmko_de.Auth.Siwe.Message.Unbroken.{printed_lines-AreLines}

strip_value-of : (prefix : String) (v : Str) → IsValue v → strip_value prefix (some v) ≡ ok v
unfolding strip_value
strip_value-of prefix v (b, t, e) = rw (t, e) refl

domain_line-parsed :
    (d : Str) → is_empty d ≡ false → NoSpace d → parse_domain (d ++ account_suffix) ≡ ok d
unfolding parse_domain
domain_line-parsed d e h =
    rw (strip_suffix-append account_suffix d, trim_id d h, e, NoSpace-any d h) refl

-- The lines of a statement end at the blank line.
statement_lines-blank :
    (ls ms : List Str) → All IsStatementLine ls → statement_lines (ls ++ ([] ∷ ms)) ≡ (ls, [] ∷ ms)
unfolding statement_lines is_empty
statement_lines-blank [] ms h = refl
statement_lines-blank (l ∷ ls) ms h = rw (statement_lines-blank ls ms h.1, h.0.1, h.0.2) refl

strip_prefix-append : (p s : Str) → strip_prefix p (p ++ s) ≡ some s
unfolding strip_prefix
strip_prefix-append [] s = refl
strip_prefix-append (c ∷ p) s =
    let e : (c == c) ≡ true = ground arith in rw e (strip_prefix-append p s)

field_line-stripped :
    (prefix : String) (v : Str) → IsValue v → strip_field (some (codes prefix ++ v)) prefix ≡ ok v
unfolding strip_field
field_line-stripped prefix v h =
    rw (strip_prefix-append (codes prefix) v) (strip_value-of prefix v h)

abbrev seen_fields : Option Str → Option Str → Option Str → OptionalFields
seen_fields e b r = record { expiration_time = e; not_before = b; request_id = r }

expiration_time-read :
    (o b r : Option Str) (ls : List Str)
    → IsOptionalValue o
    → optional_lines (option_line "Expiration Time: " o ++ ls) (seen_fields none b r)
      ≡ optional_lines ls (seen_fields o b r)
unfolding option_line optional_lines optional_line strip_prefix is_some
expiration_time-read none b r ls h = refl
expiration_time-read (some v) b r ls h = rw h.1 refl

not_before-read :
    (e o r : Option Str) (ls : List Str)
    → IsOptionalValue o
    → optional_lines (option_line "Not Before: " o ++ ls) (seen_fields e none r)
      ≡ optional_lines ls (seen_fields e o r)
unfolding option_line optional_lines optional_line strip_prefix is_some
not_before-read e none r ls h = refl
not_before-read e (some v) r ls h = rw h.1 refl

request_id-read :
    (e b o : Option Str)
    → IsOptionalValue o
    → optional_lines (option_line "Request ID: " o) (seen_fields e b none) ≡ ok (seen_fields e b o)
unfolding option_line optional_lines optional_line strip_prefix is_some
request_id-read e b none h = refl
request_id-read e b (some v) h = rw h.1 refl

option_lines-read :
    (msg : SiweMessage)
    → IsPrintable msg
    → optional_lines (option_lines msg) no_fields
      ≡ ok (seen_fields msg.expiration_time msg.not_before msg.request_id)
unfolding option_lines
option_lines-read msg p =
    expiration_time-read msg.expiration_time none none _ p.expiration_time_IsOptionalValue
    ∙ not_before-read msg.expiration_time msg.not_before none _ p.not_before_IsOptionalValue
    ∙ request_id-read msg.expiration_time msg.not_before msg.request_id p.request_id_IsOptionalValue

field_lines-read :
    (msg : SiweMessage)
    → IsPrintable msg
    → parse_fields msg.domain msg.address (msg.statement, field_lines msg) ≡ ok msg
unfolding parse_fields field_lines first rest
field_lines-read msg p =
    let below = p.chain_id_below in
    rw
      (
        field_line-stripped "URI: " msg.uri p.uri_IsValue,
        field_line-stripped "Version: " msg.version p.version_IsValue,
        field_line-stripped "Chain ID: " (to_decimal msg.chain_id)
            (to_decimal-IsValue msg.chain_id),
        from_str_radix-to_decimal u64_mod msg.chain_id below (omega (arith, below)),
        field_line-stripped "Nonce: " msg.nonce p.nonce_IsValue,
        field_line-stripped "Issued At: " msg.issued_at p.issued_at_IsValue,
        option_lines-read msg p,
      )
      refl

statement_block-read :
    (l : Str) (ls ms : List Str)
    → All IsStatementLine (l ∷ ls)
    → parse_statement (l ∷ (ls ++ ([] ∷ ms))) ≡ ok (some (join (l ∷ ls)), ms)
unfolding parse_statement close_statement joined is_empty
statement_block-read l ls ms h = rw (h.0.2, statement_lines-blank ls ms h.1, h.0.1) refl

statement-read :
    (o : Option Str) (ss : List Str) (msg : SiweMessage)
    → PrintsStatement o ss
    → parse_statement (ss ++ field_lines msg) ≡ ok (o, field_lines msg)
statement-read none ss msg h =
    rw h (unfold parse_statement field_lines starts_uri starts_with in refl)
statement-read (some s) ss msg (l, ls, e, h, f) =
    rw (f, e, append_assoc ls ([] ∷ []) (field_lines msg))
      (statement_block-read l ls (field_lines msg) h)

address-read : (a : Str) → normalize_wallet_address a ≡ ok a → parse_address a ≡ ok a
unfolding parse_address
address-read a h = rw (h, parse_address) refl

printed_lines-long :
    (msg : SiweMessage) (ss : List Str) → ltb (length (printed_lines msg ss)) 7 ≡ false
unfolding field_lines
printed_lines-long msg ss = ground (arith, length-append ss (field_lines msg))

printed_lines-read :
    (msg : SiweMessage) (p : IsPrintable msg)
    → parse_lines (printed_lines msg p.statement_part) ≡ ok msg
unfolding parse_lines is_empty
printed_lines-read msg p =
    rw
      (
        printed_lines-long msg p.statement_part,
        domain_line-parsed msg.domain p.domain_nonempty p.domain_nospace,
        address-read msg.address p.address_normal,
        statement-read msg.statement p.statement_part msg p.prints_statement,
      )
      (field_lines-read msg p)

-- A printable message is read back from its printed text: the domain is not empty and has no white
-- space, the address is a normalized wallet address, the statement is absent or made of lines that
-- are not empty and do not start with `URI: `, the chain is below 2 ^ 64, and the other values are
-- trimmed, on one line, and not empty where the field is required.
pub parse_siwe_message-format_siwe_message :
    (msg : SiweMessage) → IsPrintable msg → parse_siwe_message (format_siwe_message msg) ≡ ok msg
unfolding parse_siwe_message
parse_siwe_message-format_siwe_message msg p =
    rw
      (
        format_siwe_message-join msg p.statement_part p.prints_statement,
        lines-join (printed_lines msg p.statement_part) (printed_lines-AreLines msg p),
      )
      (printed_lines-read msg p)
