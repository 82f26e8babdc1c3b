-- ===== src/Auth/Main/Process/Progress.antt =====
-- That a process which a signal has reached comes to its end, and what a handler meets on the way.
use micro_services.Base.{
  ℕ, zero, suc, ◌+◌, ◌*◌, ◌≤◌, String, true, false, ◌≡◌, refl, none, some, inl, arith,
}
use micro_services.Errors.{ok, plain}
use micro_services.Cache.Server.{Redis}
use micro_services.Otel.Init.{Globals, Sdk, Shutdown}
use micro_services.Auth.Main.{Postgres, seconds}
use micro_services.Auth.Main.Process.Safety.{phase, reach_heard, reach_timed}
use micro_services.Auth.Main.Process.{
  Pc, starting, telemetry, cached, connected, waiting, woken, draining, flushing, closing_cache,
  closing_database, lingering, returned, Shared, env_error, otel, cache, database, Move, Reach,
  start, later, Step, beside, otel_done, cache_done, database_done, go_serve, wake, call_shutdown,
  timed_out, flush, close_cache, close_database, linger, interrupt, listen, request, tick,
}

le_self : (n : ℕ) → n ≤ n
le_self n = omega arith

module _ (R : Redis) (S : Postgres) (k : Sdk) (redis : R.State) (getenv : String → String)
    (g : Globals) where
  -- The main goroutine, the clock and the database server, which ends its queries, bring run to its
  -- return with nil: no handler answers its request.
  pub data Returns : Shared → Pc → Type 0 where
    done : {m : Shared} → Returns m (returned none)
    own :
        {m m' : Shared} {p p' : Pc}
        → Move R S k redis getenv g m p m' p'
        → Returns m' p'
        → Returns m p
    pass : {m : Shared} {p : Pc} (d : ℕ) → Returns (record m { now = m.now + d }) p → Returns m p
    query_over :
        {m : Shared} {p : Pc} {n : ℕ}
        → m.queries ≡ suc n
        → Returns (record m { queries = n }) p
        → Returns m p

  from_lingering : (m : Shared) {d : ℕ} → m.deadline ≡ some d → Returns m lingering
  from_lingering m {d} h = pass d (own (linger (d, (h, omega arith))) done)

  from_closing_database :
      (n : ℕ) (m : Shared) {d : ℕ}
      → m.queries ≡ n
      → m.deadline ≡ some d
      → Returns m closing_database
  from_closing_database zero m q h = own (close_database none q) (from_lingering _ h)
  from_closing_database (suc n) m q h = query_over q (from_closing_database n _ refl h)

  from_closing_cache : (m : Shared) {d : ℕ} → m.deadline ≡ some d → Returns m closing_cache
  from_closing_cache m h = own (close_cache none) (from_closing_database m.queries _ refl h)

  from_flushing : (m : Shared) (f : Shutdown) {d : ℕ} → m.deadline ≡ some d → Returns m (flushing f)
  from_flushing m f h = own flush (from_closing_cache _ h)

  from_draining : (m : Shared) (f : Shutdown) {d : ℕ} → m.deadline ≡ some d → Returns m (draining f)
  from_draining m f {d} h = pass d (
      own (timed_out (plain "context deadline exceeded") (d, (h, omega arith)))
        (from_flushing _ f h))

  from_woken : (m : Shared) (f : Shutdown) → Returns m (woken f)
  from_woken m f = own call_shutdown (from_draining _ f refl)

  come-Returns :
      (m : Shared) (p : Pc)
      → m.signal ≡ true
      → 4 ≤ phase p
      → (6 ≤ phase p → m.deadline ≡ some (m.entered + 30 * seconds))
      → Returns m p
  come-Returns m starting s h t = absurd (omega (arith, h))
  come-Returns m (telemetry f) s h t = absurd (omega (arith, h))
  come-Returns m (cached f) s h t = absurd (omega (arith, h))
  come-Returns m (connected f) s h t = absurd (omega (arith, h))
  come-Returns m (waiting f) s h t = own (wake s) (from_woken _ f)
  come-Returns m (woken f) s h t = from_woken m f
  come-Returns m (draining f) s h t = from_draining m f (t (omega arith))
  come-Returns m (flushing f) s h t = from_flushing m f (t (omega arith))
  come-Returns m closing_cache s h t = from_closing_cache m (t (omega arith))
  come-Returns m closing_database s h t = from_closing_database m.queries m refl (t (omega arith))
  come-Returns m lingering s h t = from_lingering m (t (omega arith))
  come-Returns m (returned none) s h t = done
  come-Returns m (returned (some e)) s h t = absurd (omega (arith, h))

  -- From every moment at which a signal has arrived there is a way to the return of run with nil that
  -- takes steps of the main goroutine and the clock, and ends of queries that the database server
  -- works on: a request that hangs otherwise cannot keep run from its end.
  pub interrupted-Returns :
      {m : Shared} {p : Pc} → Reach R S k redis getenv g m p → m.signal ≡ true → Returns m p
  interrupted-Returns r h =
      come-Returns _ _ h (reach_heard R S k redis getenv g r h) (reach_timed R S k redis getenv g r)

  -- Where the four stages of the start succeed, there is a run in which a handler still works on its
  -- request when the cache and the database are closed: Shutdown gives up on it at the deadline, and
  -- nothing ends it.
  pub reach_stranded :
      (f : Shutdown) (c : R.Client) (db : S.Conn)
      → env_error R S k redis getenv g ≡ none
      → otel R S k redis getenv g ≡ ok f
      → cache R S k redis getenv g ≡ ok c
      → database R S k redis getenv g ≡ ok db
      → (m : Shared) × Reach R S k redis getenv g m lingering
        × (m.active ≡ 1)
        × (m.cache_open ≡ false)
        × (m.database_open ≡ false)
  reach_stranded f c db h i j l =
      let up =
        later
          (later (later (later (start 0) (Step.own (otel_done h i))) (Step.own (cache_done j)))
            (Step.own (database_done l)))
          (Step.own go_serve) in
      let busy =
        later (later (later up (beside (listen refl))) (beside (request (inl refl))))
          (beside interrupt) in
      let late =
        later (later (later busy (Step.own (wake refl))) (Step.own call_shutdown))
          (beside (tick (30 * seconds))) in
      let gone =
        later
          (later
            (later
              (later late
                (Step.own (timed_out (plain "context deadline exceeded") (_, (refl, le_self _)))))
              (Step.own flush))
            (Step.own (close_cache none)))
          (Step.own (close_database none refl)) in
      (_, gone, refl, refl, refl)
