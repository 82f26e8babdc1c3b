-- ===== src/Tx/Concurrent/Tests.antt =====
-- Two calls of WithinTx at the same time, at concrete data.
use micro_services.Base.{
  ℕ, String, ◌≡◌, ◌≢◌, refl, Option, none, some, List, [], ◌∷◌, ◌==◌, nat_eq, string_eq,
  if◌then◌else◌,
}
use micro_services.Errors.{Error, plain}
use micro_services.Context.{background}
use micro_services.Tx.Sql.{Db, Driver, unused, begin_tx, commit, rollback, exec_tx}
use micro_services.Tx.{returns, finish, within_tx}
use micro_services.Tx.Atomic.{durable}
use micro_services.Tx.Concurrent.{
  asking, working, ended, System, Reach, fresh, later, begins, stmt_runs, stmt_fails, succeeds,
  finishes,
}
use micro_services.Tx.Concurrent.Held.{stmts_of}
use micro_services.Tx.Concurrent.Isolation.{reach_all_or_nothing}
use micro_services.Tx.Concurrent.Solo.{Ended, repository, within_tx-Ended}

abbrev sound : Driver
sound = record {
  begin_error = λ db. none;
  commit_error = λ db t. none;
  rollback_error = λ db t. none;
}

-- The unique key of b.
abbrev refuses : Db → ℕ → String → Option Error
refuses db t stmt = if stmt == "INSERT b" then some (plain "duplicate key") else none

abbrev duplicate : Error
duplicate = plain "duplicate key"

abbrev script : ℕ → List String
script i = if i == 0 then "UPDATE a" ∷ "UPDATE c" ∷ [] else "INSERT a" ∷ "INSERT b" ∷ []

abbrev empty : Db
empty = record { next = 0; status = λ t. unused; written = [] }

-- The second call begins before the first one ends, fails, and rolls back after it has committed.
both :
    (s : System) × Reach sound refuses script empty s
    × (s.phase 0 ≡ ended 0 ("UPDATE a" ∷ "UPDATE c" ∷ []) (returns none) (returns none))
    × (s.phase 1 ≡ ended 1 ("INSERT a" ∷ []) (returns (some duplicate)) (returns (some duplicate)))
unfolding begin_tx exec_tx finish commit rollback
both =
    let r0 = fresh in
    let r1 = later r0 (begins 0 refl refl) in
    let r2 = later r1 (stmt_runs 0 refl refl) in
    let r3 = later r2 (begins 1 refl refl) in
    let r4 = later r3 (stmt_runs 1 refl refl) in
    let r5 = later r4 (stmt_fails 1 refl refl) in
    let r6 = later r5 (stmt_runs 0 refl refl) in
    let r7 = later r6 (succeeds 0 refl) in
    let r8 = later r7 (finishes 0 refl) in
    let r9 = later r8 (finishes 1 refl) in (_, r9, refl, refl)

reach_all_or_nothing_example :
    (returns none ≡ returns none → stmts_of 0 (durable both.0.db) ≡ "UPDATE a" ∷ "UPDATE c" ∷ [])
    × (returns none ≢ returns none → stmts_of 0 (durable both.0.db) ≡ [])
reach_all_or_nothing_example =
    let (s, r, first, second) = both in
    reach_all_or_nothing sound refuses script (λ u le. refl) r first

-- The call that has failed.
second_undone : stmts_of 1 (durable both.0.db) ≡ []
second_undone =
    let (s, r, first, second) = both in
    (reach_all_or_nothing sound refuses script (λ u le. refl) r second).1 (λ e. cc)

-- The first call alone, after the second one has begun and run a statement.
abbrev halfway : System
halfway = record {
  db = record empty { next = 1; written = (0, "INSERT a") ∷ [] };
  phase = λ i. if i == 1 then working 0 ("INSERT a" ∷ []) ("INSERT b" ∷ []) else asking;
}

within_tx-Ended_example :
    Ended sound refuses script halfway 0
      (within_tx sound {A = String} background (repository refuses (script 0)) (halfway.db))
within_tx-Ended_example = within_tx-Ended sound refuses script background halfway 0 refl
