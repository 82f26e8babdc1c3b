-- ===== src/Tx/Concurrent/Moves.antt =====
-- The operations of a transaction, as moves of the one transaction that they are called on.
use mathlib.Core.List.{append-nil}
use micro_services.Base.{
  ℕ, String, ◌≡◌, ◌≢◌, inl, inr, Option-cases, refl, ap, ◌∙◌, Option, none, some, List, [], ◌∷◌,
  ◌++◌, nat_eq, ==_iff, arith,
}
use micro_services.Errors.{Error, ok}
use micro_services.Tx.Sql.{
  Db, Driver, committed, begin_tx, exec_tx, commit, rollback, rollback_uncommitted, rolled_back,
  mark,
}
use micro_services.Tx.{Exit, returns, panics, finish}
use micro_services.Tx.Lifecycle.{begun, finish-status_ne}
use micro_services.Tx.Atomic.{finish-written}
use micro_services.Tx.Concurrent.Held.{stmts_of, stmts_of-append, Kept}

pub Kept-begun : (db : Db) → Kept db.next db (begun db)
Kept-begun db = record {
  next_le = omega arith;
  status_ne = λ u ne lt. ground (arith, ==_iff u db.next, ne);
  stmts_ne = λ u ne. refl;
}

pub stmts_of_new :
    (t u : ℕ) (stmt : String) (ws : List (ℕ × String))
    → (u ≢ t → stmts_of u (ws ++ (t, stmt) ∷ []) ≡ stmts_of u ws)
      × (u ≡ t → stmts_of u (ws ++ (t, stmt) ∷ []) ≡ stmts_of u ws ++ stmt ∷ [])
stmts_of_new t u stmt ws = (
  λ ne.
      stmts_of-append u ws ((t, stmt) ∷ [])
      ∙ ground (arith, ==_iff t u, ne, append-nil (stmts_of u ws)),
  λ same. stmts_of-append u ws ((t, stmt) ∷ []) ∙ ground (arith, ==_iff t u, same),
)

pub Kept-exec :
    (t : ℕ) (stmt : String) (db : Db)
    → Kept t db (record db { written = db.written ++ (t, stmt) ∷ [] })
Kept-exec t stmt db = record {
  next_le = omega arith;
  status_ne = λ u ne lt. refl;
  stmts_ne = λ u ne. (stmts_of_new t u stmt db.written).0 ne;
}

pub Kept-mark : (t : ℕ) (db : Db) → Kept t db (mark t rolled_back db)
Kept-mark t db = record {
  next_le = omega arith;
  status_ne = λ u ne lt. ground (arith, ==_iff u t, ne);
  stmts_ne = λ u ne. refl;
}

pub exec_tx-eq-none :
    (refusal : Db → ℕ → String → Option Error) (t : ℕ) (stmt : String) (db : Db) {db' : Db}
    → exec_tx refusal t stmt db ≡ (none, db')
    → db' ≡ record db { written = db.written ++ (t, stmt) ∷ [] }
unfolding exec_tx
exec_tx-eq-none refusal t stmt db h = ground (arith, h)

pub exec_tx-eq-some :
    (refusal : Db → ℕ → String → Option Error) (t : ℕ) (stmt : String) (db : Db) {e : Error}
    {db' : Db}
    → exec_tx refusal t stmt db ≡ (some e, db')
    → db' ≡ db
unfolding exec_tx
exec_tx-eq-some refusal t stmt db h = ground (arith, h)

module _ (d : Driver) where
  pub begin_tx-eq-ok :
      (db : Db) {t : ℕ} {db' : Db} → begin_tx d db ≡ ok (t, db') → (t ≡ db.next) × (db' ≡ begun db)
  unfolding begin_tx
  begin_tx-eq-ok db h = elim (Option-cases (d.begin_error db)) [
    | inl started ↦ ground (arith, rw (started, begin_tx) at h)
    | inr (e, fails) ↦ absurd (cc (rw (fails, begin_tx) at h))
  ]

  pub finish-next : (t : ℕ) (r : Exit × Db) → (finish d t r).1.next ≡ r.1.next
  unfolding finish commit rollback
  finish-next t (panics p, db) = refl
  finish-next t (returns (some e), db) = ground arith
  finish-next t (returns none, db) = ground arith

  pub Kept-finish : (t : ℕ) (x : Exit) (db : Db) → Kept t db (finish d t (x, db)).1
  Kept-finish t x db = record {
    next_le = omega (arith, finish-next t (x, db));
    status_ne = λ u ne lt. finish-status_ne d t u (x, db) ne;
    stmts_ne = λ u ne. ap (stmts_of u) (finish-written d t (x, db));
  }

  -- Where fn has not returned nil, no Commit is sent.
  pub finish_uncommitted :
      (t : ℕ) (x : Exit) (db : Db)
      → db.status t ≢ committed
      → x ≢ returns none
      → (finish d t (x, db)).1.status t ≢ committed
  unfolding finish
  finish_uncommitted t (panics p) db at h = at
  finish_uncommitted t (returns (some e)) db at h = rollback_uncommitted d t db at
  finish_uncommitted t (returns none) db at h = absurd (h refl)
