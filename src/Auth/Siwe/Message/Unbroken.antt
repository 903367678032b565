-- ===== src/Auth/Siwe/Message/Unbroken.antt =====
-- The lines of a printed sign-in message have no break in them (server/src/auth/siwe.rs).
use month_erdmko_de.Base.{
  All-append, ℕ, ◌<◌, ◌≡◌, refl, Bool, true, false, not, ◌&&◌, Option, none, some, List, [], ◌∷◌,
  ◌++◌, String, arith, ◌==◌, length, All, all, &&-eq-true,
}
use month_erdmko_de.Base.Text.{Str, codes, is_empty}
use month_erdmko_de.Base.Lines.{newline, carriage_return}
use month_erdmko_de.Base.Lines.Laws.{NoBreak, AreLines}
use month_erdmko_de.Base.Result.{ok}
use month_erdmko_de.Base.Parse.{to_decimal}
use month_erdmko_de.Auth.Service.{normalize_wallet_address}
use month_erdmko_de.Auth.Service.Normal.{normalize_wallet_address-normal, All-facts}
use month_erdmko_de.Auth.Siwe.Message.{SiweMessage, account_suffix}
use month_erdmko_de.Auth.Siwe.Message.Printed.{
  option_line, option_lines, field_lines, printed_lines, IsStatementLine, PrintsStatement,
}
use month_erdmko_de.Auth.Siwe.Message.Printable.{
  IsOptionalValue, IsPrintable, NoSpace-NoBreak, to_decimal-IsValue,
}

-- A line that is neither broken nor empty.
abbrev IsSolid : Str → Type 0
IsSolid l = NoBreak l × (0 < length l)

solid-AreLines : (ls : List Str) → All IsSolid ls → AreLines ls
solid-AreLines [] h = tt
solid-AreLines (l ∷ []) h = h.0
solid-AreLines (l ∷ m ∷ ls) h = (h.0.0, solid-AreLines (m ∷ ls) h.1)

behind-AreLines :
    (ls : List Str) (m : Str) (ms : List Str)
    → All NoBreak ls
    → AreLines (m ∷ ms)
    → AreLines (ls ++ (m ∷ ms))
behind-AreLines [] m ms h k = k
behind-AreLines (l ∷ []) m ms h k = (h.0, k)
behind-AreLines (l ∷ n ∷ ls) m ms h k = (h.0, behind-AreLines (n ∷ ls) m ms h.1 k)

-- A literal has no break if it computes to this.
abbrev no_break : Str → Bool
no_break = all (λ c. not (c == newline) && not (c == carriage_return))

unbroken :
    (c : ℕ)
    → (not (c == newline) && not (c == carriage_return)) ≡ true
    → ((c == newline) ≡ false) × ((c == carriage_return) ≡ false)
unbroken c h = ground arith

append-NoBreak : (p v : Str) → no_break p ≡ true → NoBreak v → NoBreak (p ++ v)
append-NoBreak [] v h k = k
append-NoBreak (c ∷ p) v h k =
    let both = &&-eq-true (not (c == newline) && not (c == carriage_return)) (no_break p) h in
    (unbroken c both.0, append-NoBreak p v both.1 k)

-- A literal and a value on one line.
prefixed-IsSolid :
    (p v : Str) → no_break p ≡ true → is_empty p ≡ false → NoBreak v → IsSolid (p ++ v)
prefixed-IsSolid [] v h e k = unfold is_empty in cc
prefixed-IsSolid (c ∷ p) v h e k = (append-NoBreak (c ∷ p) v h k, omega arith)

option_line-IsSolid :
    (prefix : String) (o : Option Str)
    → no_break (codes prefix) ≡ true
    → is_empty (codes prefix) ≡ false
    → IsOptionalValue o
    → All IsSolid (option_line prefix o)
unfolding option_line
option_line-IsSolid prefix none b e h = tt
option_line-IsSolid prefix (some v) b e h = (prefixed-IsSolid (codes prefix) v b e h.0, tt)

option_lines-IsSolid : (msg : SiweMessage) → IsPrintable msg → All IsSolid (option_lines msg)
unfolding option_lines is_empty
option_lines-IsSolid msg p =
    All-append IsSolid (option_line "Expiration Time: " msg.expiration_time) _
      (option_line-IsSolid "Expiration Time: " msg.expiration_time refl refl
        p.expiration_time_IsOptionalValue)
      (All-append IsSolid (option_line "Not Before: " msg.not_before) _
        (option_line-IsSolid "Not Before: " msg.not_before refl refl p.not_before_IsOptionalValue)
        (option_line-IsSolid "Request ID: " msg.request_id refl refl p.request_id_IsOptionalValue))

field_lines-AreLines : (msg : SiweMessage) → IsPrintable msg → AreLines (field_lines msg)
unfolding field_lines is_empty
field_lines-AreLines msg p = solid-AreLines (field_lines msg) (
  prefixed-IsSolid (codes "URI: ") msg.uri refl refl p.uri_IsValue.0,
  (
    prefixed-IsSolid (codes "Version: ") msg.version refl refl p.version_IsValue.0,
    (
      prefixed-IsSolid (codes "Chain ID: ") (to_decimal msg.chain_id) refl refl
          (to_decimal-IsValue msg.chain_id).0,
      (
        prefixed-IsSolid (codes "Nonce: ") msg.nonce refl refl p.nonce_IsValue.0,
        (
          prefixed-IsSolid (codes "Issued At: ") msg.issued_at refl refl p.issued_at_IsValue.0,
          option_lines-IsSolid msg p,
        ),
      ),
    ),
  ),
)

statement_part-unbroken : (o : Option Str) (ss : List Str) → PrintsStatement o ss → All NoBreak ss
statement_part-unbroken none ss h = rw h tt
statement_part-unbroken (some s) ss (l, ls, e, h, f) = rw f (go (l ∷ ls) h)
  where
    go : (ls : List Str) → All IsStatementLine ls → All NoBreak (ls ++ ([] ∷ []))
    go [] h = (tt, tt)
    go (l ∷ ls) h = (h.0.0, go ls h.1)

address-NoBreak : (a : Str) → normalize_wallet_address a ≡ ok a → NoBreak a
address-NoBreak a h =
    let ((hex, e, l, lower), _) = normalize_wallet_address-normal a h in
    let facts = All-facts hex lower in
    rw e ((refl, refl), ((refl, refl), NoSpace-NoBreak hex facts.1))

pub printed_lines-AreLines :
    (msg : SiweMessage) (p : IsPrintable msg) → AreLines (printed_lines msg p.statement_part)
unfolding field_lines
printed_lines-AreLines msg p =
    behind-AreLines ((msg.domain ++ account_suffix) ∷ msg.address ∷ [] ∷ p.statement_part) _ _
      (
        All-append _ msg.domain account_suffix (NoSpace-NoBreak msg.domain p.domain_nospace)
            (append-NoBreak account_suffix [] refl tt),
        (
          address-NoBreak msg.address p.address_normal,
          (tt, statement_part-unbroken msg.statement p.statement_part p.prints_statement),
        ),
      )
      (field_lines-AreLines msg p)
