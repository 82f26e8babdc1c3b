-- ===== src/Tx/Concurrent/Solo.antt =====
-- A call of WithinTx whose steps are not interrupted, against the function of Tx.
use micro_services.Base.{
  ℕ, String, ◌<>◌, ◌≡◌, refl, ap, ◌∙◌, inl, inr, Option, none, some, List, [], ◌∷◌, ◌++◌, nat_eq,
  ==_refl, Option-cases,
}
use micro_services.Errors.{Error, plain, error_text}
use micro_services.Context.{Context}
use micro_services.Tx.Sql.{Db, Driver, begin_tx, exec_tx}
use micro_services.Tx.{Value, Exit, returns, panics, Body, tx, finish, within_tx}
use micro_services.Tx.Lifecycle.{begun, within_tx_begun, within_tx_refused}
use micro_services.Tx.Scope.{within_tx-tx}
use micro_services.Tx.Concurrent.{
  Phase, asking, refused, working, leaving, ended, System, put, moved, begin_fails, begins,
  stmt_runs, stmt_fails, succeeds, finishes, Alone, stay, further,
}

module _ (refusal : Db → ℕ → String → Option Error) where
  -- The statements in a transaction, up to the first that the server refuses.
  abbrev pub run_stmts : ℕ → List String → Db → Exit × Db
  run_stmts t [] db = (returns none, db)
  run_stmts t (stmt ∷ left) db =
      let (e, db') = exec_tx refusal t stmt db in
      let rest = run_stmts t left db' in elim e [ some x ↦ (returns (some x), db') | none ↦ rest ]

  abbrev pub run_in : List String → Option ℕ → Db → Exit × Db
  run_in stmts none db = (panics "no transaction", db)
  run_in stmts (some t) db = run_stmts t stmts db

  -- A repository's function: it finds its transaction with Tx.
  abbrev pub repository : {A : Type 0} → List String → Body A
  repository stmts c db = run_in stmts (tx c) db

-- What WithinTx has returned, once it has.
abbrev pub outcome : Phase → Option Exit
outcome (refused e) = some (returns (some (plain ("begin transaction: " <> error_text e))))
outcome (ended t done body x) = some x
outcome _ = none

pub put_same : (i : ℕ) (p : Phase) (f : ℕ → Phase) → put i p f i ≡ p
put_same i p f = rw (==_refl i) refl

module _ (d : Driver) (refusal : Db → ℕ → String → Option Error) (script : ℕ → List String) where
  -- The call i goes on alone from `from` until its function has ended, or until it has ended itself.
  abbrev Left : System → ℕ → ℕ → Exit × Db → Type 0
  Left from i t (x, db) =
      (s : System) × Alone d refusal script i from s
      × (done : List String) × (s.phase i ≡ leaving t done x)
      × (s.db ≡ db)

  abbrev pub Ended : System → ℕ → Exit × Db → Type 0
  Ended from i (x, db) =
      (s : System) × Alone d refusal script i from s × (outcome (s.phase i) ≡ some x) × (s.db ≡ db)

  run_stmts-Left :
      (from : System) (i t : ℕ) (left done : List String) (s : System)
      → Alone d refusal script i from s
      → s.phase i ≡ working t done left
      → Left from i t (run_stmts refusal t left s.db)
  run_stmts-Left from i t [] done s r at =
      (_, further r (succeeds i at), done, put_same i _ s.phase, refl)
  run_stmts-Left from i t (stmt ∷ left) done s r at =
      let answer = exec_tx refusal t stmt s.db in
      let s' = moved s i (working t (done ++ stmt ∷ []) left) answer.1 in
      elim (Option-cases answer.0) [
        | inl taken ↦
            rw (taken, run_stmts)
              (run_stmts-Left from i t left (done ++ stmt ∷ []) s'
                (further r (stmt_runs i at (ap (λ e. (e, answer.1)) taken)))
                (put_same i (working t (done ++ stmt ∷ []) left) s.phase))
        | inr (e, failed) ↦
            rw (failed, run_stmts)
              (
                _,
                further r (stmt_fails i at (ap (λ e. (e, answer.1)) failed)),
                done,
                put_same i _ s.phase,
                refl,
              )
      ]

  Left-Ended :
      (from : System) (i t : ℕ) (r : Exit × Db) → Left from i t r → Ended from i (finish d t r)
  Left-Ended from i t (x, db) (s, r, done, at, same) = (
    _,
    further r (finishes i at),
    ap outcome (put_same i _ s.phase) ∙ ap (λ b. some (finish d t (x, b)).0) same,
    ap (λ b. (finish d t (x, b)).1) same,
  )

  -- A call of WithinTx over a repository's function that has not begun can go on to its end by steps
  -- of its own alone, from any system, and then returns what within_tx returns and leaves the database
  -- as within_tx does, where BeginTx, a statement, Rollback or Commit fails too.
  pub within_tx-Ended :
      {A : Type 0} (ctx : Context (Value A)) (s : System) (i : ℕ)
      → s.phase i ≡ asking
      → Ended s i (within_tx d ctx (repository refusal (script i)) s.db)
  unfolding begin_tx
  within_tx-Ended ctx s i at = elim (Option-cases (d.begin_error s.db)) [
    | inl started ↦
        let s' = moved s i (working s.db.next [] (script i)) (begun s.db) in
        let done =
          run_stmts-Left s i s.db.next (script i) [] s'
            (further stay (begins i at (rw (started, begin_tx) refl)))
            (put_same i (working s.db.next [] (script i)) s.phase) in
        rw
          (
            within_tx-tx d ctx s.db (λ t c. run_in refusal (script i) t),
            within_tx_begun d ctx (λ c. run_in refusal (script i) (some s.db.next)) s.db started,
          )
          (Left-Ended s i s.db.next (run_stmts refusal s.db.next (script i) (begun s.db)) done)
    | inr (e, fails) ↦ rw (within_tx_refused d ctx (repository refusal (script i)) s.db fails) (
      _,
      further stay (begin_fails i at (rw (fails, begin_tx) refl)),
      ap outcome (put_same i _ s.phase),
      refl,
    )
  ]
