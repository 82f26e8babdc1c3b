-- ===== src/Tx/Tests.antt =====
-- Runs of WithinTx, and the theorems at concrete data.
use mathlib.Core.Option
use micro_services.Base.{
  Bool, true, false, ◌&&◌, ◌∷◌, ◌++◌, ◌⊎◌, All, arith, string_eq, ℕ, String, ◌≡◌, ◌≢◌, refl, Option,
  [], none, some, ◌==◌, nat_eq, if◌then◌else◌,
}
use micro_services.Errors.{Error, plain, join, error_text}
use micro_services.Context.{background, ctx_value}
use micro_services.Tx.Nested.{inner, then_fails, durable-then_fails}
use micro_services.Tx.Atomic.{Confined, durable, of_tx, durable-within_tx}
use micro_services.Tx.Sql.{
  Db, Driver, unused, active, committed, rolled_back, begin_tx, commit, rollback, exec_tx,
}
use micro_services.Tx.{Exit, tx, returns, panics, Body, within_tx}
use micro_services.Tx.Lifecycle.{run, begun, within_tx-committed, within_tx-ne-active}

abbrev empty : Db
empty = record { next = 0; status = λ t. unused; written = [] }

-- A driver that never fails, and one that cannot roll back.
abbrev sound : Driver
sound = record {
  begin_error = λ db. none;
  commit_error = λ db t. none;
  rollback_error = λ db t. none;
}

abbrev torn : Driver
torn = record {
  begin_error = λ db. none;
  commit_error = λ db t. none;
  rollback_error = λ db t. some (plain "bad connection");
}

abbrev save : Body String
save c db = (returns none, db)

abbrev fail : Body String
fail c db = (returns (some (plain "duplicate key")), db)

abbrev crash : Body String
crash c db = (panics "nil map", db)

-- Answers with the number of the transaction that it is given.
abbrev tell : Option ℕ → Body String
tell none c db = (panics "no transaction", db)
tell (some t) c db = (if t == 0 then returns none else panics "another one", db)

runs :
    ((within_tx sound background save empty).0 ≡ returns none)
    × ((within_tx torn background fail empty).0
        ≡ returns (some (join (plain "duplicate key") (plain "rollback: bad connection"))))
    × ((within_tx sound background fail empty).1.status 0 ≡ rolled_back)
unfolding within_tx begin_tx commit rollback error_text
runs = (refl, refl, refl)

within_tx-committed_example :
    (sound.begin_error empty ≡ none)
    × ((run sound background save empty).0 ≡ returns none)
    × ((within_tx sound background save empty).1.status 0 ≡ committed)
within_tx-committed_example = within_tx-committed sound background save empty runs.0

within_tx-ne-active_example : (within_tx torn background fail empty).1.status 0 ≢ active
unfolding within_tx begin_tx rollback
within_tx-ne-active_example = within_tx-ne-active torn background fail empty refl tt

-- A repository's method with two statements, on a server that refuses the second one if told to.
abbrev refuses : Bool → Db → ℕ → String → Option Error
refuses strict db t s = if strict && s == "UPDATE b" then some (plain "check constraint") else none

abbrev second_of : Bool → ℕ → Option Error × Db → Exit × Db
second_of strict t (some e, db) = (returns (some e), db)
second_of strict t (none, db) =
    let (e, db') = exec_tx (refuses strict) t "UPDATE b" db in (returns e, db')

abbrev transfer_in : Bool → Option ℕ → Db → Exit × Db
transfer_in strict none db = (panics "no transaction", db)
transfer_in strict (some t) db = second_of strict t (exec_tx (refuses strict) t "UPDATE a" db)

abbrev transfer : Bool → Body String
transfer strict c db = transfer_in strict (tx c) db

-- The second transaction, after one statement of the first.
abbrev used : Db
used = record {
  next = 1;
  status = λ t. if t == 0 then committed else unused;
  written = (0, "INSERT a") ∷ [];
}

fresh_number : All (λ (w : ℕ × String). w.0 ≢ used.next) used.written
fresh_number = (omega arith, tt)

transfer-Confined : Confined sound background (transfer false) used
unfolding tx ctx_value Option.bind exec_tx
transfer-Confined = record {
  stmts = "UPDATE a" ∷ "UPDATE b" ∷ [];
  own_written = refl;
  own_active = refl;
  others = λ u h. ground (arith, h);
}

durable-within_tx_example :
    ((within_tx sound background (transfer false) used).0 ≡ returns none
      → durable (within_tx sound background (transfer false) used).1
        ≡ durable used ++ of_tx used.next transfer-Confined.stmts)
    × ((sound.begin_error used ≢ none)
          ⊎ ((run sound background (transfer false) used).0 ≢ returns none)
        → durable (within_tx sound background (transfer false) used).1 ≡ durable used)
durable-within_tx_example =
    durable-within_tx sound background (transfer false) used transfer-Confined fresh_number

-- Both ends of it, computed.
both :
    (durable (within_tx sound background (transfer false) used).1
      ≡ (0, "INSERT a") ∷ (1, "UPDATE a") ∷ (1, "UPDATE b") ∷ [])
    × (durable (within_tx sound background (transfer true) used).1 ≡ (0, "INSERT a") ∷ [])
unfolding within_tx begin_tx commit rollback tx ctx_value Option.bind exec_tx
both = (refl, refl)

-- The same in a transaction inside another one.
transfer-Confined_inner :
    Confined sound (inner sound background (transfer false) used) (transfer false) (begun used)
unfolding tx ctx_value Option.bind exec_tx
transfer-Confined_inner = record {
  stmts = "UPDATE a" ∷ "UPDATE b" ∷ [];
  own_written = refl;
  own_active = refl;
  others = λ u h. ground (arith, h);
}

durable-then_fails_example :
    ((within_tx sound background (then_fails sound (plain "late") (transfer false)) used).0
      ≢ returns none)
    × (durable
          (within_tx sound background (then_fails sound (plain "late") (transfer false)) used).1
        ≡ (0, "INSERT a") ∷ (2, "UPDATE a") ∷ (2, "UPDATE b") ∷ [])
unfolding within_tx begin_tx commit tx ctx_value Option.bind exec_tx transfer-Confined_inner
durable-then_fails_example =
    durable-then_fails sound background (transfer false) used transfer-Confined_inner (plain "late")
      refl refl (omega arith, tt) refl
