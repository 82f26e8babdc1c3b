-- ===== src/Tx/Sql.antt =====
-- database/sql's transactions, as its documentation describes them: a transaction is in use until
-- the first Commit or Rollback, whatever that call returns, and every later call fails.
use micro_services.Base.{
  String, List, [], ◌∷◌, ◌++◌, ℕ, suc, ◌≡◌, ◌≢◌, Option, none, some, ◌==◌, nat_eq, ==_refl, ==_iff,
  if◌then◌else◌, arith,
}
use micro_services.Errors.{Error, plain, Result, ok, err}

-- `broken`: the driver failed to commit or to roll back, so what the server did is not known.
pub data Status : Type 0 where
  unused active committed rolled_back broken : Status

-- `written` are the statements that the transactions have run, with their numbers, in order.
pub record Db : Type 0 where
  pub next : ℕ
  pub status : ℕ → Status
  pub written : List (ℕ × String)

-- What the driver answers; it may fail at any time.
pub record Driver : Type 0 where
  pub begin_error : Db → Option Error
  pub commit_error : Db → ℕ → Option Error
  pub rollback_error : Db → ℕ → Option Error

abbrev pub mark : ℕ → Status → Db → Db
mark t s db = record db { status = λ u. if u == t then s else db.status u }

abbrev pub err_tx_done : Error
err_tx_done = plain "sql: transaction has already been committed or rolled back"

abbrev finished : Option Error → Status → Status
finished none s = s
finished (some _) s = broken

module _ (d : Driver) where
  -- BeginTx gives out a transaction that was not used before.
  unfoldable pub begin_tx : Db → Result (ℕ × Db)
  begin_tx db = elim (d.begin_error db) [
    | some e ↦ err e
    | none ↦ ok (db.next, record (mark db.next active db) { next = suc db.next })
  ]

  abbrev end_tx : ℕ → Status → Status → Option Error → Db → Option Error × Db
  end_tx t active s answer db = (answer, mark t (finished answer s) db)
  end_tx t _ s answer db = (some err_tx_done, db)

  unfoldable pub commit : ℕ → Db → Option Error × Db
  commit t db = end_tx t (db.status t) committed (d.commit_error db t) db

  unfoldable pub rollback : ℕ → Db → Option Error × Db
  rollback t db = end_tx t (db.status t) rolled_back (d.rollback_error db t) db

  -- After either call the transaction is not in use.
  pub commit-ne-active : (t : ℕ) (db : Db) → (commit t db).1.status t ≢ active
  unfolding commit
  commit-ne-active t db = ground (arith, ==_refl t)

  pub rollback-ne-active : (t : ℕ) (db : Db) → (rollback t db).1.status t ≢ active
  unfolding rollback
  rollback-ne-active t db = ground (arith, ==_refl t)

  -- A commit that reports no error has committed.
  pub commit-eq-none :
      (t : ℕ) (db : Db) → (commit t db).0 ≡ none → (commit t db).1.status t ≡ committed
  unfolding commit
  commit-eq-none t db = ground (arith, ==_refl t)

  -- A rollback never commits.
  pub rollback-ne-committed :
      (t : ℕ) (db : Db) → db.status t ≡ active → (rollback t db).1.status t ≢ committed
  unfolding rollback
  rollback-ne-committed t db h = ground (arith, ==_refl t)

  pub rollback_uncommitted :
      (t : ℕ) (db : Db) → db.status t ≢ committed → (rollback t db).1.status t ≢ committed
  unfolding rollback
  rollback_uncommitted t db h = ground (arith, ==_refl t, h)

  -- The other transactions stay as they are.
  pub commit-status_ne : (t u : ℕ) (db : Db) → u ≢ t → (commit t db).1.status u ≡ db.status u
  unfolding commit
  commit-status_ne t u db h = ground (arith, ==_iff u t)

  pub rollback-status_ne : (t u : ℕ) (db : Db) → u ≢ t → (rollback t db).1.status u ≡ db.status u
  unfolding rollback
  rollback-status_ne t u db h = ground (arith, ==_iff u t)

  -- They write nothing.
  pub commit-written : (t : ℕ) (db : Db) → (commit t db).1.written ≡ db.written
  unfolding commit
  commit-written t db = ground arith

  pub rollback-written : (t : ℕ) (db : Db) → (rollback t db).1.written ≡ db.written
  unfolding rollback
  rollback-written t db = ground arith

-- ExecContext of *sql.Tx, on a server that may refuse a statement.
unfoldable pub exec_tx : (Db → ℕ → String → Option Error) → ℕ → String → Db → Option Error × Db
exec_tx refusal t stmt db = elim (db.status t) [
  | active ↦ elim (refusal db t stmt) [
    | some e ↦ (some e, db)
    | none ↦ (none, record db { written = db.written ++ (t, stmt) ∷ [] })
  ]
  | _ ↦ (some err_tx_done, db)
]
