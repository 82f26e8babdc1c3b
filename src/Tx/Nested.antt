-- ===== src/Tx/Nested.antt =====
-- WithinTx inside WithinTx, where the outer function fails: what stays durable.
use micro_services.Base.{
  ℕ, suc, String, ◌≡◌, ◌≢◌, ◌<◌, refl, ap, ◌∙◌, none, some, List, [], ◌∷◌, ◌++◌, All, arith, nat_eq,
  ==_iff,
}
use micro_services.Errors.{Error}
use micro_services.Context.{Context, tx_key, with_value}
use micro_services.Tx.Sql.{
  Db, Driver, Status, unused, active, committed, rollback, rollback-written,
}
use micro_services.Tx.{Value, sql_tx, Exit, returns, Body, finish, within_tx}
use micro_services.Tx.Lifecycle.{begun, run, within_tx_begun, within_tx-committed, finish-status_ne}
use micro_services.Tx.Atomic.{Confined, durable, durable_by, is_committed, of_tx, durable-within_tx}

durable_by-ext :
    (st st' : ℕ → Status) (ws : List (ℕ × String))
    → ((u : ℕ) → is_committed (st u) ≡ is_committed (st' u))
    → durable_by st ws ≡ durable_by st' ws
durable_by-ext st st' [] h = refl
durable_by-ext st st' (w ∷ ws) h = ground (arith, h w.0, durable_by-ext st st' ws h)

durable-rollback :
    (d : Driver) (t : ℕ) (db : Db)
    → db.status t ≢ committed
    → durable (rollback d t db).1 ≡ durable db
unfolding rollback
durable-rollback d t db h =
    ap (durable_by (rollback d t db).1.status) (rollback-written d t db)
    ∙ durable_by-ext (rollback d t db).1.status db.status db.written
        (λ u. ground (arith, ==_iff u t, h))

durable-begun : (db : Db) → db.status db.next ≢ committed → durable (begun db) ≡ durable db
durable-begun db h =
    durable_by-ext (begun db).status db.status db.written (λ u. ground (arith, ==_iff u db.next, h))

earlier_ne :
    (n : ℕ) (ws : List (ℕ × String))
    → All (λ (w : ℕ × String). w.0 < n) ws
    → All (λ (w : ℕ × String). w.0 ≢ suc n) ws
earlier_ne n [] h = tt
earlier_ne n (w ∷ ws) (h, hs) = (omega arith, earlier_ne n ws hs)

module _ (d : Driver) {A : Type 0} where
  -- A function that calls WithinTx on its context, and then fails.
  abbrev pub then_fails : Error → Body A → Body A
  then_fails e fn c db = (returns (some e), (within_tx d c fn db).1)

  module _ (ctx : Context (Value A)) (fn : Body A) (db : Db) where
    abbrev pub inner : Context (Value A)
    inner = with_value ctx tx_key (sql_tx db.next)

    outer_begun :
        (e : Error)
        → d.begin_error db ≡ none
        → within_tx d ctx (then_fails e fn) db
          ≡ finish d db.next (returns (some e), (within_tx d inner fn (begun db)).1)
    outer_begun e started = within_tx_begun d ctx (then_fails e fn) db started

    inner-status :
        Confined d inner fn (begun db)
        → d.begin_error (begun db) ≡ none
        → (within_tx d inner fn (begun db)).1.status db.next ≡ active
    inner-status C started =
        ap (λ (r : Exit × Db). r.1.status db.next) (within_tx_begun d inner fn (begun db) started)
        ∙ finish-status_ne d (suc db.next) db.next (run d inner fn (begun db)) (omega arith)
        ∙ C.others db.next (omega arith)
        ∙ ground (arith, ==_iff db.next db.next)

    -- A transaction inside a transaction is a second one: where the inner function has returned
    -- without an error and was committed, and the outer function then returns an error, the outer
    -- WithinTx does not return nil, and yet the statements of the inner function are durable. (BeginTx
    -- succeeds, the inner function runs statements in the transaction of its context and ends no
    -- transaction, and the numbers of the transactions are given out in order.)
    pub durable-then_fails :
        (C : Confined d inner fn (begun db)) (e : Error)
        → d.begin_error db ≡ none
        → db.status db.next ≡ unused
        → All (λ (w : ℕ × String). w.0 < db.next) db.written
        → (within_tx d inner fn (begun db)).0 ≡ returns none
        → ((within_tx d ctx (then_fails e fn) db).0 ≢ returns none)
          × (durable (within_tx d ctx (then_fails e fn) db).1
              ≡ durable db ++ of_tx (suc db.next) C.stmts)
    unfolding finish
    durable-then_fails C e started fresh earlier done =
        let (begins, _, _) = within_tx-committed d inner fn (begun db) done in
        let kept = inner-status C begins in
        let s = (within_tx d inner fn (begun db)).1 in
        (
          λ h.
              let (_, nil, _) = within_tx-committed d ctx (then_fails e fn) db h in
              ground (arith, nil),
          ap (λ (r : Exit × Db). durable r.1) (outer_begun e started)
              ∙ durable-rollback d db.next s (ground (arith, kept))
              ∙ (durable-within_tx d inner fn (begun db) C
                    (earlier_ne db.next db.written earlier)).0
                  done
              ∙ ap (λ ws. ws ++ of_tx (suc db.next) C.stmts)
                  (durable-begun db (ground (arith, fresh))),
        )
