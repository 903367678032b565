-- ===== src/Chat/Store/Keeps.antt =====
-- Invariants of chains on the chat store, one rule for each way to build a chain.
use month_erdmko_de.Base.{
  ◌≡◌, refl, Bool, true, false, Option, none, some, List, String, if◌then◌else◌,
}
use month_erdmko_de.Base.Result.{Result, ok, err}
use month_erdmko_de.Chat.Events.{ChatError}
use month_erdmko_de.Chat.Store.{
  Store, ChatConn, ChatResult, ChatExec, ChatStatement, pure, fail, lift, ◌>>=◌, sql, run_statement,
  conclude,
}

-- The chain keeps `P`, whether it returns or fails, and wherever it fails.
pub record StoreKeeps {A : Type 0} (P : Store → Type 0) (m : ChatExec A) : Type 0 where
  pub at : (c : ChatConn) → P c.store → P (m c).1.store

-- A statement that succeeds keeps `P`.
abbrev pub StatementKeeps : {A : Type 0} → (Store → Type 0) → ChatStatement A → Type 0
StatementKeeps {A} P q = (s : Store) (a : A) (t : Store) → q s ≡ ok (a, t) → P s → P t

module _ {P : Store → Type 0} {A : Type 0} where
  pub StoreKeeps-pure : (a : A) → StoreKeeps P (pure a)
  unfolding pure
  StoreKeeps-pure a = record { at = λ c h. h }

  pub StoreKeeps-fail : (e : ChatError) → StoreKeeps P (fail {A = A} e)
  unfolding fail
  StoreKeeps-fail e = record { at = λ c h. h }

  pub StoreKeeps-lift : (r : ChatResult A) → StoreKeeps P (lift r)
  unfolding lift
  StoreKeeps-lift r = record { at = λ c h. h }

  pub StoreKeeps-if :
      (b : Bool) (m k : ChatExec A)
      → StoreKeeps P m
      → StoreKeeps P k
      → StoreKeeps P (if b then m else k)
  StoreKeeps-if true m k h i = h
  StoreKeeps-if false m k h i = i

  conclude-keeps :
      (e : String → ChatError) (s : Store) (os : List (Option String))
      (r : Result String (A × Store))
      → P s
      → ((a : A) (t : Store) → r ≡ ok (a, t) → P t)
      → P (conclude e s os r).1.store
  unfolding conclude
  conclude-keeps e s os (ok (a, t)) h k = k a t refl
  conclude-keeps e s os (err why) h k = h

  statement-keeps :
      (e : String → ChatError) (q : ChatStatement A) (s : Store) (os : List (Option String))
      (o : Option String)
      → StatementKeeps P q
      → P s
      → P (run_statement e q s os o).1.store
  unfolding run_statement
  statement-keeps e q s os none k h = conclude-keeps e s os (q s) h (λ a t r. k s a t r h)
  statement-keeps e q s os (some why) k h = h

  pub StoreKeeps-sql :
      (e : String → ChatError) (q : ChatStatement A) → StatementKeeps P q → StoreKeeps P (sql e q)
  unfolding sql
  StoreKeeps-sql e q k = record { at = λ c h. statement-keeps e q c.store _ _ k h }

module _ {P : Store → Type 0} {A B : Type 0} where
  pub StoreKeeps-bind :
      (m : ChatExec A) (f : A → ChatExec B)
      → StoreKeeps P m
      → ((a : A) → StoreKeeps P (f a))
      → StoreKeeps P (m >>= f)
  unfolding ◌>>=◌
  StoreKeeps-bind m f h k = record { at = λ c p. go (m c) (h.at c p) }
    where
      go :
          (r : ChatResult A × ChatConn)
          → P r.1.store
          → P
              (elim r.0 as (λ x. ChatResult B × ChatConn) [
                | ok a ↦ f a r.1
                | err e ↦ (err e, r.1)
              ]).1.store
      go (ok a, d) p = (k a).at d p
      go (err e, d) p = p

module _ {P : Store → Type 0} {A B : Type 0} where
  -- Behind a check, with the value that has passed it.
  pub StoreKeeps-check :
      (r : ChatResult A) (f : A → ChatExec B)
      → ((a : A) → r ≡ ok a → StoreKeeps P (f a))
      → StoreKeeps P (lift r >>= f)
  unfolding lift ◌>>=◌
  StoreKeeps-check (ok a) f k = record { at = λ c h. (k a refl).at c h }
  StoreKeeps-check (err e) f k = record { at = λ c h. h }

module _ {P Q : Store → Type 0} {A B : Type 0} where
  -- A chain whose first call, where it returns, has made `P` into the stronger `Q`.
  pub StoreKeeps-opened :
      (m : ChatExec A) (f : A → ChatExec B)
      → StoreKeeps P m
      → ((c : ChatConn) (a : A) → (m c).0 ≡ ok a → P c.store → Q (m c).1.store)
      → ((s : Store) → Q s → P s)
      → ((a : A) → StoreKeeps Q (f a))
      → StoreKeeps P (m >>= f)
  unfolding ◌>>=◌
  StoreKeeps-opened m f h o w k = record { at = λ c p. go (m c) (h.at c p) (λ a e. o c a e p) }
    where
      go :
          (r : ChatResult A × ChatConn)
          → P r.1.store
          → ((a : A) → r.0 ≡ ok a → Q r.1.store)
          → P
              (elim r.0 as (λ x. ChatResult B × ChatConn) [
                | ok a ↦ f a r.1
                | err e ↦ (err e, r.1)
              ]).1.store
      go (ok a, d) p q = w _ ((k a).at d (q a refl))
      go (err e, d) p q = p

pub ruleset store_rules = (
  StoreKeeps-pure, StoreKeeps-fail, StoreKeeps-lift, StoreKeeps-if, StoreKeeps-sql, StoreKeeps-bind,
)
