-- ===== src/Tx/Atomic.antt =====
-- WithinTx is all or nothing: which statements are durable after it.
use mathlib.Core.List.{append-nil}
use micro_services.Base.{
  ℕ, String, ◌≡◌, ◌≢◌, refl, sym, ap, ◌∙◌, ◌⊎◌, inl, inr, Bool, true, false, Option-cases, none,
  some, List, [], ◌∷◌, ◌++◌, All, arith, if◌then◌else◌,
}
use micro_services.Context.{Context}
use micro_services.Tx.Sql.{
  Db, Driver, Status, active, committed, commit-written, rollback-written, rollback-ne-committed,
}
use micro_services.Tx.{Value, Exit, returns, panics, Body, finish, within_tx}
use micro_services.Tx.Lifecycle.{
  run, within_tx_begun, within_tx_refused, within_tx-committed, finish-status_ne,
}

abbrev pub is_committed : Status → Bool
is_committed committed = true
is_committed _ = false

-- The statements of committed transactions.
abbrev pub durable_by : (ℕ → Status) → List (ℕ × String) → List (ℕ × String)
durable_by st [] = []
durable_by st (w ∷ ws) =
    let rest = durable_by st ws in if is_committed (st w.0) then w ∷ rest else rest

abbrev pub durable : Db → List (ℕ × String)
durable db = durable_by db.status db.written

durable_by-append :
    (st : ℕ → Status) (vs ws : List (ℕ × String))
    → durable_by st (vs ++ ws) ≡ durable_by st vs ++ durable_by st ws
durable_by-append st [] ws = refl
durable_by-append st (v ∷ vs) ws = ground (arith, durable_by-append st vs ws)

durable_by_same :
    (st st' : ℕ → Status) (ws : List (ℕ × String))
    → All (λ (w : ℕ × String). st w.0 ≡ st' w.0) ws
    → durable_by st ws ≡ durable_by st' ws
durable_by_same st st' [] h = refl
durable_by_same st st' (w ∷ ws) (h, hs) = ground (arith, h, durable_by_same st st' ws hs)

-- The statements of one transaction.
abbrev pub of_tx : ℕ → List String → List (ℕ × String)
of_tx t [] = []
of_tx t (s ∷ ss) = (t, s) ∷ of_tx t ss

durable_by-of_tx :
    (st : ℕ → Status) (t : ℕ) (ss : List String)
    → (st t ≡ committed → durable_by st (of_tx t ss) ≡ of_tx t ss)
      × (st t ≢ committed → durable_by st (of_tx t ss) ≡ [])
durable_by-of_tx st t [] = (λ _. refl, λ _. refl)
durable_by-of_tx st t (s ∷ ss) =
    let (yes', no') = durable_by-of_tx st t ss in ground (arith, yes', no')

module _ (d : Driver) where
  pub finish-written : (t : ℕ) (r : Exit × Db) → (finish d t r).1.written ≡ r.1.written
  unfolding finish
  finish-written t (panics p, db) = refl
  finish-written t (returns (some e), db) = rollback-written d t db
  finish-written t (returns none, db) = commit-written d t db

  finish_failed :
      (t : ℕ) (r : Exit × Db)
      → r.0 ≢ returns none
      → r.1.status t ≡ active
      → (finish d t r).1.status t ≢ committed
  unfolding finish
  finish_failed t (panics p, db) h k = ground (arith, k)
  finish_failed t (returns (some e), db) h k = rollback-ne-committed d t db k
  finish_failed t (returns none, db) h k = absurd (h refl)

module _ (d : Driver) {A : Type 0} (ctx : Context (Value A)) (fn : Body A) (db : Db) where
  -- What fn may do: run statements in the transaction of its context, without ending that transaction
  -- or another one.
  pub record Confined : Type 0 where
    pub stmts : List String
    pub own_written : (run d ctx fn db).1.written ≡ db.written ++ of_tx db.next stmts
    pub own_active : (run d ctx fn db).1.status db.next ≡ active
    pub others : (u : ℕ) → u ≢ db.next → (run d ctx fn db).1.status u ≡ db.status u

  module _ (C : Confined) (fresh : All (λ (w : ℕ × String). w.0 ≢ db.next) db.written) where
    unchanged :
        (ws : List (ℕ × String))
        → All (λ (w : ℕ × String). w.0 ≢ db.next) ws
        → All
            (λ (w : ℕ × String). (finish d db.next (run d ctx fn db)).1.status w.0 ≡ db.status w.0)
            ws
    unchanged [] h = tt
    unchanged (w ∷ ws) (h, hs) =
        (finish-status_ne d db.next w.0 (run d ctx fn db) h ∙ C.others w.0 h, unchanged ws hs)

    durable-finish :
        durable (finish d db.next (run d ctx fn db)).1
        ≡ durable db
          ++ durable_by (finish d db.next (run d ctx fn db)).1.status (of_tx db.next C.stmts)
    durable-finish =
        ap (durable_by (finish d db.next (run d ctx fn db)).1.status)
          (finish-written d db.next (run d ctx fn db) ∙ C.own_written)
        ∙ durable_by-append _ db.written (of_tx db.next C.stmts)
        ∙ ap
            (λ ws.
              ws
              ++ durable_by (finish d db.next (run d ctx fn db)).1.status (of_tx db.next C.stmts))
            (durable_by_same _ db.status db.written (unchanged db.written fresh))

    -- All or nothing, for a function that runs statements in the transaction of its context and ends
    -- no transaction, on a database where no statement has the next transaction's number: where
    -- WithinTx returns nil, all its statements are durable after what was; where BeginTx fails, or
    -- the function returns an error or panics, none of them is, and what was durable stays.
    pub durable-within_tx :
        ((within_tx d ctx fn db).0 ≡ returns none
          → durable (within_tx d ctx fn db).1 ≡ durable db ++ of_tx db.next C.stmts)
        × ((d.begin_error db ≢ none) ⊎ ((run d ctx fn db).0 ≢ returns none)
            → durable (within_tx d ctx fn db).1 ≡ durable db)
    durable-within_tx = elim (Option-cases (d.begin_error db)) [
      | inr (e, refused) ↦
          let out = within_tx_refused d ctx fn db refused in
          (λ h. cc (ap (λ (r : Exit × Db). r.0) out), λ _. ap (λ (r : Exit × Db). durable r.1) out)
      | inl started ↦
          let out = within_tx_begun d ctx fn db started in
          let own =
            durable_by-of_tx (finish d db.next (run d ctx fn db)).1.status db.next C.stmts in
          let after = ap (λ (r : Exit × Db). durable r.1) out ∙ durable-finish in
          (
            λ h.
                let (_, _, done) = within_tx-committed d ctx fn db h in
                after
                ∙ ap (λ ws. durable db ++ ws)
                    (own.0 (ap (λ (r : Exit × Db). r.1.status db.next) (sym out) ∙ done)),
            λ failed. elim failed [
              | inl refused ↦ absurd (refused started)
              | inr bad ↦
                  after
                  ∙ ap (λ ws. durable db ++ ws)
                      (own.1 (finish_failed d db.next (run d ctx fn db) bad C.own_active))
                  ∙ append-nil (durable db)
            ],
          )
    ]
