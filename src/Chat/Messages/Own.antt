-- ===== src/Chat/Messages/Own.antt =====
-- Whose messages a deletion reaches (server/src/chat/db.rs).
use month_erdmko_de.Base.{◌≡◌, inl, inr, Bool, List, String, arith, Bool-cases}
use month_erdmko_de.Base.Text.{Str, trim, is_empty}
use month_erdmko_de.Base.Result.{ok}
use month_erdmko_de.Base.Rows.{retain}
use month_erdmko_de.Chat.Store.{Store, MessageRow}
use month_erdmko_de.Chat.Messages.{required}

pub required-trim : (message : String) (raw a : Str) → required message raw ≡ ok a → a ≡ trim raw
unfolding required
required-trim message raw a h = elim (Bool-cases (is_empty (trim raw))) [
  | inl e ↦ absurd (ground arith)
  | inr e ↦ ground arith
]

-- The messages that the test selects are these.
abbrev Selects : (MessageRow → Bool) → List MessageRow → Store → Type 0
Selects q ms s = retain q s.messages ≡ ms
