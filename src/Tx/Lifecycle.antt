-- ===== src/Tx/Lifecycle.antt =====
-- WithinTx against what its interface promises: commit on nil, roll back on an error, and no
-- transaction left in use.
use micro_services.Base.{
  String, ◌<>◌, ℕ, suc, ◌≡◌, ◌≢◌, refl, ap, ◌⊎◌, inl, inr, none, some, arith, nat_eq, Option-cases,
}
use micro_services.Errors.{Error, plain, join, error_text}
use micro_services.Context.{Context, tx_key, with_value}
use micro_services.Tx.Sql.{
  Db, Driver, unused, active, committed, begin_tx, commit-ne-active, rollback-ne-active,
  commit-eq-none, rollback-ne-committed, commit-status_ne, rollback-status_ne, mark,
}
use micro_services.Tx.{Value, sql_tx, Exit, returns, panics, Body, finish, within_tx}

-- The error e reaches the caller: alone, or joined with another.
abbrev pub Reports : Error → Exit → Type 0
Reports e (returns (some f)) = (f ≡ e) ⊎ ((g : Error) × (f ≡ join e g))
Reports e (returns none) = ⊥
Reports e (panics p) = ⊥

abbrev pub Returned : Exit → Type 0
Returned (returns e) = Unit
Returned (panics p) = ⊥

module _ (d : Driver) where
  finish-ne-active :
      (t : ℕ) (r : Exit × Db) → Returned (finish d t r).0 → (finish d t r).1.status t ≢ active
  unfolding finish
  finish-ne-active t (panics p, db) h = absurd h
  finish-ne-active t (returns (some e), db) h = rollback-ne-active d t db
  finish-ne-active t (returns none, db) h = commit-ne-active d t db

  pub finish-eq-none :
      (t : ℕ) (r : Exit × Db)
      → (finish d t r).0 ≡ returns none
      → (r.0 ≡ returns none) × ((finish d t r).1.status t ≡ committed)
  unfolding finish
  finish-eq-none t (panics p, db) h = ground arith
  finish-eq-none t (returns (some e), db) h = ground arith
  finish-eq-none t (returns none, db) h = (refl, commit-eq-none d t db (ground arith))

  finish_error :
      (t : ℕ) (r : Exit × Db) (e : Error)
      → r.0 ≡ returns (some e)
      → r.1.status t ≡ active
      → Reports e (finish d t r).0 × ((finish d t r).1.status t ≢ committed)
  unfolding finish
  finish_error t (panics p, db) e h k = cc
  finish_error t (returns (some f), db) e h k = (ground arith, rollback-ne-committed d t db k)
  finish_error t (returns none, db) e h k = cc

  finish_panic :
      (t : ℕ) (r : Exit × Db) (p : String) → r.0 ≡ panics p → finish d t r ≡ (panics p, r.1)
  unfolding finish
  finish_panic t (panics q, db) p h = cc
  finish_panic t (returns e, db) p h = cc

  pub finish-status_ne :
      (t u : ℕ) (r : Exit × Db) → u ≢ t → (finish d t r).1.status u ≡ r.1.status u
  unfolding finish
  finish-status_ne t u (panics p, db) h = refl
  finish-status_ne t u (returns (some e), db) h = rollback-status_ne d t u db h
  finish-status_ne t u (returns none, db) h = commit-status_ne d t u db h

-- The database after BeginTx.
abbrev pub begun : Db → Db
begun db = record (mark db.next active db) { next = suc db.next }

module _ (d : Driver) {A : Type 0} (ctx : Context (Value A)) (fn : Body A) (db : Db) where
  -- What fn does with the context and the database that WithinTx gives it.
  abbrev pub run : Exit × Db
  run = fn (with_value ctx tx_key (sql_tx db.next)) (begun db)

  pub within_tx_begun : d.begin_error db ≡ none → within_tx d ctx fn db ≡ finish d db.next run
  unfolding within_tx begin_tx
  within_tx_begun h = rw (h, within_tx, begin_tx)

  pub within_tx_refused :
      {e : Error}
      → d.begin_error db ≡ some e
      → within_tx d ctx fn db ≡ (returns (some (plain ("begin transaction: " <> error_text e))), db)
  unfolding within_tx begin_tx
  within_tx_refused h = rw (h, within_tx, begin_tx)

  -- WithinTx returns nil only if BeginTx succeeded and fn returned nil, and then its transaction is
  -- committed.
  pub within_tx-committed :
      (within_tx d ctx fn db).0 ≡ returns none
      → (d.begin_error db ≡ none)
        × (run.0 ≡ returns none)
        × ((within_tx d ctx fn db).1.status db.next ≡ committed)
  within_tx-committed h = elim (Option-cases (d.begin_error db)) [
    | inl started ↦ rw (within_tx_begun started) (
        let r = finish-eq-none d db.next run (rw (within_tx_begun started) at h) in
        (started, r.0, r.1))
    | inr (e, refused) ↦ cc (ap (λ (r : Exit × Db). r.0) (within_tx_refused refused))
  ]

  -- Where fn returns an error and has not ended the transaction itself, WithinTx returns that error,
  -- alone or joined with the rollback's, and its transaction is not committed.
  within_tx_error :
      (e : Error)
      → d.begin_error db ≡ none
      → run.0 ≡ returns (some e)
      → run.1.status db.next ≡ active
      → Reports e (within_tx d ctx fn db).0 × ((within_tx d ctx fn db).1.status db.next ≢ committed)
  within_tx_error e started failed kept =
      rw (within_tx_begun started) (finish_error d db.next run e failed kept)

  -- If the number of the next transaction is unused, no call of WithinTx that returns leaves that
  -- transaction in use, whether BeginTx, fn, Commit or Rollback fails or none of them.
  pub within_tx-ne-active :
      db.status db.next ≡ unused
      → Returned (within_tx d ctx fn db).0
      → (within_tx d ctx fn db).1.status db.next ≢ active
  within_tx-ne-active fresh returned = elim (Option-cases (d.begin_error db)) [
    | inl started ↦
        rw (within_tx_begun started)
          (finish-ne-active d db.next run (rw (within_tx_begun started) at returned))
    | inr (e, refused) ↦ rw (within_tx_refused refused, fresh) (ground arith)
  ]

  -- A panic of fn passes through: the transaction is neither committed nor rolled back, and stays as
  -- fn left it.
  within_tx_panic :
      (p : String)
      → d.begin_error db ≡ none
      → run.0 ≡ panics p
      → within_tx d ctx fn db ≡ (panics p, run.1)
  within_tx_panic p started panicked =
      rw (within_tx_begun started) (finish_panic d db.next run p panicked)

  -- WithinTx itself ends no other transaction: each stays as fn left it, or as it was if BeginTx failed.
  within_tx-status_ne :
      (u : ℕ)
      → u ≢ db.next
      → ((d.begin_error db ≡ none) × ((within_tx d ctx fn db).1.status u ≡ run.1.status u))
        ⊎ ((d.begin_error db ≢ none) × ((within_tx d ctx fn db).1 ≡ db))
  within_tx-status_ne u h = elim (Option-cases (d.begin_error db)) [
    | inl started ↦ inl (started, rw (within_tx_begun started) (finish-status_ne d db.next u run h))
    | inr (e, refused) ↦ inr (ground arith, rw (within_tx_refused refused))
  ]
