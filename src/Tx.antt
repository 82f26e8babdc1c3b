-- ===== src/Tx.antt =====
-- modules/shared/src/utiltx/transactor.go, over a model of the transactions of database/sql.
pub mod Sql
pub mod Lifecycle
pub mod Scope
pub mod Atomic
pub mod Nested
pub mod Concurrent
mod Tests
use mathlib.Core.Option
use micro_services.Base.{ℕ, String, Option, none, some, ◌<>◌}
use micro_services.Errors.{Error, plain, join, error_text, Result, ok, err}
use micro_services.Context.{Context, tx_key, with_value, ctx_value}
use micro_services.Tx.Sql.{Db, Driver, begin_tx, commit, rollback}

-- The values that a context holds: a *sql.Tx, by its number, or a value of another type.
pub data Value (A : Type 0) : Type 0 where
  sql_tx : ℕ → Value A
  other : A → Value A

abbrev as_sql_tx : {A : Type 0} → Value A → Option ℕ
as_sql_tx (sql_tx tx) = some tx
as_sql_tx (other a) = none

-- Tx(ctx); `none` is the nil pointer.
unfoldable pub tx : {A : Type 0} → Context (Value A) → Option ℕ
tx ctx = Option.bind (ctx_value ctx tx_key) as_sql_tx

-- How a call of fn ends.
pub data Exit : Type 0 where
  returns : Option Error → Exit
  panics : String → Exit

-- The function that runs inside the transaction; it may use the database as it likes.
abbrev pub Body : Type 0 → Type 0
Body A = Context (Value A) → Db → Exit × Db

module _ (d : Driver) where
  abbrev rolled_back_with : Error → Option Error → Exit
  rolled_back_with e none = returns (some e)
  rolled_back_with e (some r) = returns (some (join e (plain ("rollback: " <> error_text r))))

  abbrev committed_with : Option Error → Exit
  committed_with none = returns none
  committed_with (some e) = returns (some (plain ("commit: " <> error_text e)))

  -- What follows the call of fn: the rollback on an error, else the commit. No defer is registered,
  -- so a panic passes through.
  unfoldable pub finish : ℕ → Exit × Db → Exit × Db
  finish t (panics p, db) = (panics p, db)
  finish t (returns (some e), db) =
      let (rb_err, db') = rollback d t db in (rolled_back_with e rb_err, db')
  finish t (returns none, db) = let (e, db') = commit d t db in (committed_with e, db')

  -- transactor.WithinTx
  unfoldable pub within_tx : {A : Type 0} → Context (Value A) → Body A → Db → Exit × Db
  unfolding finish
  within_tx ctx fn db = elim (begin_tx d db) [
    | err e ↦ (returns (some (plain ("begin transaction: " <> error_text e))), db)
    | ok (t, db') ↦ finish t (fn (with_value ctx tx_key (sql_tx t)) db')
  ]

-- The interface Transactor, and the one over a database: *sql.DB is its driver.
pub record Transactor : Type 1 where
  pub within : {A : Type 0} → Context (Value A) → Body A → Db → Exit × Db

unfoldable pub new_transactor : Driver → Transactor
new_transactor d = record { within = within_tx d }
