-- ===== src/Tx/Concurrent/Held.antt =====
-- What holds of a call of WithinTx in each phase, and that the others' steps keep it.
use micro_services.Base.{
  ℕ, String, ◌≡◌, ◌≢◌, ◌≤◌, ◌<◌, refl, sym, ap, ◌∙◌, none, some, List, [], ◌∷◌, ◌++◌, ◌==◌, nat_eq,
  ==_iff, if◌then◌else◌, arith,
}
use micro_services.Tx.Sql.{Db, Status, active, committed, rolled_back, mark}
use micro_services.Tx.{returns}
use micro_services.Tx.Atomic.{is_committed, durable_by}
use micro_services.Tx.Concurrent.{Phase, asking, refused, working, leaving, ended, number}

-- The statements with this number, in order.
abbrev pub stmts_of : ℕ → List (ℕ × String) → List String
stmts_of t [] = []
stmts_of t (w ∷ ws) = let rest = stmts_of t ws in if w.0 == t then w.1 ∷ rest else rest

pub stmts_of-append :
    (t : ℕ) (vs ws : List (ℕ × String)) → stmts_of t (vs ++ ws) ≡ stmts_of t vs ++ stmts_of t ws
stmts_of-append t [] ws = refl
stmts_of-append t (v ∷ vs) ws = ground (arith, stmts_of-append t vs ws)

pub stmts_of-durable_by :
    (st : ℕ → Status) (t : ℕ) (ws : List (ℕ × String))
    → stmts_of t (durable_by st ws) ≡ (if is_committed (st t) then stmts_of t ws else [])
stmts_of-durable_by st t [] = ground arith
stmts_of-durable_by st t (w ∷ ws) =
    ground (arith, stmts_of-durable_by st t ws, ==_iff w.0 t, ap (λ u. is_committed (st u)))

-- From one database to the next only the transaction t has moved on.
pub record Kept (t : ℕ) (db db' : Db) : Type 0 where
  pub next_le : db.next ≤ db'.next
  pub status_ne : (u : ℕ) → u ≢ t → u < db.next → db'.status u ≡ db.status u
  pub stmts_ne : (u : ℕ) → u ≢ t → stmts_of u db'.written ≡ stmts_of u db.written

pub Kept-refl : (t : ℕ) (db : Db) → Kept t db db
Kept-refl t db = record { next_le = omega arith; status_ne = λ u _ _. refl; stmts_ne = λ u _. refl }

-- What holds of a call that is to run the statements `whole`.
abbrev pub Held : (whole : List String) → Phase → Db → Type 0
Held whole asking db = Unit
Held whole (refused e) db = Unit
Held whole (working t done left) db =
    (t < db.next)
    × (db.status t ≢ committed)
    × (stmts_of t db.written ≡ done)
    × (done ++ left ≡ whole)
Held whole (leaving t done x) db =
    (t < db.next)
    × (db.status t ≢ committed)
    × (stmts_of t db.written ≡ done)
    × (x ≡ returns none → done ≡ whole)
Held whole (ended t done body x) db =
    (t < db.next)
    × (stmts_of t db.written ≡ done)
    × (x ≡ returns none → (db.status t ≡ committed) × (done ≡ whole))
    × (body ≢ returns none → db.status t ≢ committed)

pub Held-Kept :
    (whole : List String) (p : Phase) (t : ℕ) {db db' : Db}
    → Kept t db db'
    → number p ≢ some t
    → Held whole p db
    → Held whole p db'
Held-Kept whole asking t K other h = tt
Held-Kept whole (refused e) t K other h = tt
Held-Kept whole (working u done left) t K other (lt, at, ran, rest) =
    let ne : u ≢ t = λ same. other (ap some same) in
    (omega (arith, K.next_le), λ c. at (sym (K.status_ne u ne lt) ∙ c), K.stmts_ne u ne ∙ ran, rest)
Held-Kept whole (leaving u done x) t K other (lt, at, ran, rest) =
    let ne : u ≢ t = λ same. other (ap some same) in
    (omega (arith, K.next_le), λ c. at (sym (K.status_ne u ne lt) ∙ c), K.stmts_ne u ne ∙ ran, rest)
Held-Kept whole (ended u done body x) t K other (lt, ran, won, lost) =
    let ne : u ≢ t = λ same. other (ap some same) in
    let same = K.status_ne u ne lt in
    (
      omega (arith, K.next_le),
      K.stmts_ne u ne ∙ ran,
      λ good. (same ∙ (won good).0, (won good).1),
      λ bad at. lost bad (sym same ∙ at),
    )

pub Held-lt :
    (whole : List String) (p : Phase) (t : ℕ) (db : Db)
    → number p ≡ some t
    → Held whole p db
    → t < db.next
Held-lt whole asking t db e h = cc
Held-lt whole (refused x) t db e h = cc
Held-lt whole (working u done left) t db e (lt, _, _, _) = ground (arith, lt)
Held-lt whole (leaving u done x) t db e (lt, _, _, _) = ground (arith, lt)
Held-lt whole (ended u done body x) t db e (lt, _, _, _) = ground (arith, lt)

-- A transaction in use that is rolled back because its context was cancelled.
pub Held-mark :
    (whole : List String) (p : Phase) (t : ℕ) (db : Db)
    → number p ≡ some t
    → db.status t ≡ active
    → Held whole p db
    → Held whole p (mark t rolled_back db)
Held-mark whole asking t db e on h = tt
Held-mark whole (refused x) t db e on h = tt
Held-mark whole (working u done left) t db e on (lt, at, ran, rest) =
    (lt, ground (arith, e, ==_iff u t), ran, rest)
Held-mark whole (leaving u done x) t db e on (lt, at, ran, rest) =
    (lt, ground (arith, e, ==_iff u t), ran, rest)
Held-mark whole (ended u done body x) t db e on (lt, ran, won, lost) = (
  lt,
  ran,
  λ good. absurd (ground (arith, e, on, (won good).0)),
  λ bad. ground (arith, e, ==_iff u t),
)
