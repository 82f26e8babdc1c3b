-- ===== src/Tx/Concurrent.antt =====
-- Calls of WithinTx that run at the same time on one database, as requests in different goroutines
-- make them: each call's function runs its statements, in order, in the transaction of its context,
-- and returns the first error, or panics at any moment.
pub mod Held
pub mod Moves
pub mod Isolation
pub mod Solo
mod Tests
use micro_services.Base.{
  ℕ, String, ◌≡◌, Option, none, some, List, [], ◌∷◌, ◌++◌, ◌==◌, nat_eq, if◌then◌else◌,
}
use micro_services.Errors.{Error, Result, ok, err}
use micro_services.Tx.Sql.{Db, Driver, active, rolled_back, mark, begin_tx, exec_tx}
use micro_services.Tx.{Exit, returns, panics, finish}

-- Where a call of WithinTx stands, with the number of its transaction and the statements that it has
-- run.
pub data Phase : Type 0 where
  asking : Phase  -- before BeginTx
  refused : Error → Phase  -- BeginTx has failed
  working : (t : ℕ) (done left : List String) → Phase  -- inside fn
  leaving : (t : ℕ) (done : List String) → Exit → Phase  -- fn has ended
  ended : (t : ℕ) (done : List String) (body : Exit) → Exit → Phase  -- WithinTx has ended

abbrev pub number : Phase → Option ℕ
number asking = none
number (refused e) = none
number (working t done left) = some t
number (leaving t done x) = some t
number (ended t done body x) = some t

-- The database, and the calls by the numbers of their goroutines.
pub record System : Type 0 where
  pub db : Db
  pub phase : ℕ → Phase

abbrev pub put : ℕ → Phase → (ℕ → Phase) → ℕ → Phase
put i p phase j = if j == i then p else phase j

abbrev pub moved : System → ℕ → Phase → Db → System
moved s i p db = record { db = db; phase = put i p s.phase }

-- Which statements the server refuses, and what each call is to run.
module _ (d : Driver) (refusal : Db → ℕ → String → Option Error) (script : ℕ → List String) where
  -- A step of one call. Where the context of a call is cancelled, database/sql rolls its transaction
  -- back at once, if it is in use.
  pub data Step (s : System) : ℕ → System → Type 0 where
    begin_fails :
        (i : ℕ) {e : Error}
        → s.phase i ≡ asking
        → begin_tx d s.db ≡ err e
        → Step s i (moved s i (refused e) s.db)
    begins :
        (i : ℕ) {t : ℕ} {db : Db}
        → s.phase i ≡ asking
        → begin_tx d s.db ≡ ok (t, db)
        → Step s i (moved s i (working t [] (script i)) db)
    stmt_runs :
        (i : ℕ) {t : ℕ} {done left : List String} {stmt : String} {db : Db}
        → s.phase i ≡ working t done (stmt ∷ left)
        → exec_tx refusal t stmt s.db ≡ (none, db)
        → Step s i (moved s i (working t (done ++ stmt ∷ []) left) db)
    stmt_fails :
        (i : ℕ) {t : ℕ} {done left : List String} {stmt : String} {e : Error} {db : Db}
        → s.phase i ≡ working t done (stmt ∷ left)
        → exec_tx refusal t stmt s.db ≡ (some e, db)
        → Step s i (moved s i (leaving t done (returns (some e))) db)
    crashes :
        (i : ℕ) {t : ℕ} {done left : List String} (p : String)
        → s.phase i ≡ working t done left
        → Step s i (moved s i (leaving t done (panics p)) s.db)
    succeeds :
        (i : ℕ) {t : ℕ} {done : List String}
        → s.phase i ≡ working t done []
        → Step s i (moved s i (leaving t done (returns none)) s.db)
    finishes :
        (i : ℕ) {t : ℕ} {done : List String} {x : Exit}
        → s.phase i ≡ leaving t done x
        → Step s i (moved s i (ended t done x (finish d t (x, s.db)).0) (finish d t (x, s.db)).1)
    cancels :
        (i : ℕ) {t : ℕ}
        → number (s.phase i) ≡ some t
        → s.db.status t ≡ active
        → Step s i (moved s i (s.phase i) (mark t rolled_back s.db))

  pub data Reach (start : Db) : System → Type 0 where
    fresh : Reach start (record { db = start; phase = λ i. asking })
    later : {i : ℕ} {s s' : System} → Reach start s → Step s i s' → Reach start s'

  -- Steps of one call only, without a step of another one between them.
  pub data Alone (i : ℕ) (s : System) : System → Type 0 where
    stay : Alone i s s
    further : {s' s'' : System} → Alone i s s' → Step s' i s'' → Alone i s s''
