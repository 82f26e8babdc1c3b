-- ===== src/Tx/Scope.antt =====
-- Which transaction Tx(ctx) finds, inside and outside of WithinTx.
use mathlib.Core.Option
use micro_services.Base.{
  ℕ, suc, ◌≡◌, refl, sym, ap, ◌∙◌, inl, inr, Option, none, some, Option-cases,
}
use micro_services.Context.{
  Context, tx_key, background, with_value, ctx_value, ctx_value-with_value_self,
}
use micro_services.Http.Request.{ContextKey, set_context_value}
use micro_services.Tx.Sql.{Db, Driver}
use micro_services.Tx.{Value, sql_tx, tx, Body, finish, within_tx}
use micro_services.Tx.Lifecycle.{begun, within_tx_begun, within_tx_refused}

module _ {A : Type 0} where
  tx-with_value : (ctx : Context (Value A)) (t : ℕ) → tx (with_value ctx tx_key (sql_tx t)) ≡ some t
  unfolding tx Option.bind
  tx-with_value ctx t = rw (ctx_value-with_value_self ctx tx_key (sql_tx t))

  -- Outside of any transaction Tx returns nil, and a value that a handler stores under a ContextKey
  -- never changes what Tx returns.
  tx_outside :
      (ctx : Context (Value A)) (key : ContextKey) (v : Value A)
      → (tx {A = A} background ≡ none) × (tx (set_context_value ctx key v) ≡ tx ctx)
  unfolding tx set_context_value ctx_value Option.bind
  tx_outside ctx key v = (refl, refl)

module _ (d : Driver) {A : Type 0} (ctx : Context (Value A)) (db : Db) where
  -- Code inside WithinTx that asks Tx for the active transaction gets the one that this call began.
  pub within_tx-tx :
      (fn : Option ℕ → Body A)
      → within_tx d ctx (λ c. fn (tx c) c) db ≡ within_tx d ctx (fn (some db.next)) db
  within_tx-tx fn = elim (Option-cases (d.begin_error db)) [
    | inl started ↦
        rw
          (
            within_tx_begun d ctx (λ c. fn (tx c) c) db started,
            within_tx_begun d ctx (fn (some db.next)) db started,
            tx-with_value ctx db.next,
          )
          refl
    | inr (e, refused) ↦
        within_tx_refused d ctx (λ c. fn (tx c) c) db refused
        ∙ sym (within_tx_refused d ctx (fn (some db.next)) db refused)
  ]

module _ (d : Driver) {A : Type 0} where
  -- A body that calls WithinTx on the context and the database that it was given.
  abbrev pub nested : (Option ℕ → Option ℕ → Body A) → Body A
  nested fn c s = within_tx d c (λ c'. fn (tx c) (tx c') c') s

  abbrev pub nested_in : ℕ → (Option ℕ → Option ℕ → Body A) → Body A
  nested_in t fn c s = within_tx d c (fn (some t) (some (suc t))) s

  -- WithinTx inside WithinTx, on the database as the outer call gives it, begins a second transaction
  -- instead of joining the first: the inner code finds one of its own, with the number after the
  -- outer one's.
  within_tx-nested :
      (ctx : Context (Value A)) (db : Db) (fn : Option ℕ → Option ℕ → Body A)
      → within_tx d ctx (nested fn) db ≡ within_tx d ctx (nested_in db.next fn) db
  within_tx-nested ctx db fn = elim (Option-cases (d.begin_error db)) [
    | inl started ↦
        rw
          (
            within_tx_begun d ctx (nested fn) db started,
            within_tx_begun d ctx (nested_in db.next fn) db started,
            tx-with_value ctx db.next,
          )
          (ap (finish d db.next) (
            within_tx-tx d (with_value ctx tx_key (sql_tx db.next)) (begun db) (fn (some db.next))))
    | inr (e, refused) ↦
        within_tx_refused d ctx (nested fn) db refused
        ∙ sym (within_tx_refused d ctx (nested_in db.next fn) db refused)
  ]
