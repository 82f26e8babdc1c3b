-- ===== src/Auth/Main/Process/Refinement.antt =====
-- The process against the run of the main goroutine alone.
use mathlib.Core.List.{append_assoc}
use mathlib.Core.Path.{subst}
use micro_services.Base.{
  ◌*◌, String, ◌≡◌, refl, sym, ap, ◌∙◌, Option, none, some, List, [], ◌∷◌, ◌++◌, arith,
}
use micro_services.Errors.{Error, ok, err}
use micro_services.Cache.Server.{Redis}
use micro_services.Otel.Init.{Globals, Sdk, Shutdown, run_shutdown}
use micro_services.Auth.Main.{
  Postgres, Action, otel_started, cache_connected, database_connected, server_started,
  signal_received, server_shutdown, otel_shutdown, cache_closed, database_closed, timeout_awaited,
  release, seconds, Releases, shutdown, run,
}
use micro_services.Auth.Main.Process.{
  Pc, starting, telemetry, cached, connected, waiting, woken, draining, flushing, closing_cache,
  closing_database, lingering, returned, Shared, env_error, otel, cache, database, Move, Event,
  Reach, start, later, own, beside, env_fails, otel_fails, otel_done, cache_fails, cache_done,
  database_fails, database_done, go_serve, wake, call_shutdown, drained, timed_out, flush,
  close_cache, close_database, linger, interrupt, listen, listen_fails, serve_fails, request,
  respond, query_starts, query_ends, tick,
}

module _ (R : Redis) (S : Postgres) (k : Sdk) (redis : R.State) (getenv : String → String)
    (g : Globals) where
  -- The stages of the start that are over.
  abbrev Telemetry : Shutdown → Type 0
  Telemetry f = (env_error R S k redis getenv g ≡ none) × (otel R S k redis getenv g ≡ ok f)

  abbrev Cached : Shutdown → Type 0
  Cached f = Telemetry f × ((c : R.Client) × (cache R S k redis getenv g ≡ ok c))

  abbrev Connected : Shutdown → Type 0
  Connected f = Cached f × ((c : S.Conn) × (database R S k redis getenv g ≡ ok c))

  abbrev up : List Action
  up = otel_started ∷ cache_connected ∷ database_connected ∷ server_started ∷ signal_received ∷ []

  -- The actions up to the release of telemetry, of the cache and of the database.
  abbrev flushed : Releases → Shutdown → List Action
  flushed r f =
      (up ++ release server_shutdown "server shutdown failed" r.server)
      ++ release otel_shutdown "failed to shutdown otel" (run_shutdown k f)

  abbrev uncached : Releases → Shutdown → List Action
  uncached r f = flushed r f ++ release cache_closed "failed to close cache" r.cache

  abbrev unconnected : Releases → Shutdown → List Action
  unconnected r f = uncached r f ++ release database_closed "failed to close database" r.database

  abbrev ran : Releases → Option Error × List Action
  ran r = run R S k redis r getenv g

  -- What the main goroutine has done where it stands.
  abbrev Log : Pc → List Action → Type 0
  Log starting a = a ≡ []
  Log (telemetry f) a = Telemetry f × (a ≡ otel_started ∷ [])
  Log (cached f) a = Cached f × (a ≡ otel_started ∷ cache_connected ∷ [])
  Log (connected f) a = Connected f × (a ≡ otel_started ∷ cache_connected ∷ database_connected ∷ [])
  Log (waiting f) a =
      Connected f × (a ≡ otel_started ∷ cache_connected ∷ database_connected ∷ server_started ∷ [])
  Log (woken f) a = Connected f × (a ≡ up)
  Log (draining f) a = Connected f × (a ≡ up)
  Log (flushing f) a =
      Connected f
      × ((e : Option Error) × (a ≡ up ++ release server_shutdown "server shutdown failed" e))
  Log closing_cache a = (r : Releases) × ((f : Shutdown) × Connected f × (a ≡ flushed r f))
  Log closing_database a = (r : Releases) × ((f : Shutdown) × Connected f × (a ≡ uncached r f))
  Log lingering a = (r : Releases) × ((f : Shutdown) × Connected f × (a ≡ unconnected r f))
  Log (returned e) a = (r : Releases) × (ran r ≡ (e, a))

  nothing_due : Releases
  nothing_due = record { server = none; cache = none; database = none }

  ran_env :
      (r : Releases) (e : Error) → env_error R S k redis getenv g ≡ some e → ran r ≡ (some e, [])
  unfolding run
  ran_env r e h = ground (arith, h)

  ran_otel :
      (r : Releases) (e : Error)
      → env_error R S k redis getenv g ≡ none
      → otel R S k redis getenv g ≡ err e
      → ran r ≡ (some e, [])
  unfolding run
  ran_otel r e h i = ground (arith, h, i)

  ran_cache :
      (r : Releases) (e : Error) (f : Shutdown)
      → Telemetry f
      → cache R S k redis getenv g ≡ err e
      → ran r ≡ (some e, otel_started ∷ [])
  unfolding run
  ran_cache r e f t h = ground (arith, h)

  ran_database :
      (r : Releases) (e : Error) (f : Shutdown)
      → Cached f
      → database R S k redis getenv g ≡ err e
      → ran r ≡ (some e, otel_started ∷ cache_connected ∷ [])
  unfolding run
  ran_database r e f (t, c) h = ground (arith, h)

  -- The releases one after the other, bracketed to the left.
  shutdown_lem :
      (r : Releases) (f : Shutdown)
      → up ++ shutdown r (run_shutdown k f) ≡ unconnected r f ++ timeout_awaited (30 * seconds) ∷ []
  unfolding shutdown
  shutdown_lem r f = sym (
      append_assoc (uncached r f) _ _
      ∙ append_assoc (flushed r f) _ _
      ∙ append_assoc (up ++ release server_shutdown "server shutdown failed" r.server) _ _)

  ran_later :
      (r : Releases) (f : Shutdown)
      → Connected f
      → ran r ≡ (none, up ++ shutdown r (run_shutdown k f))
  unfolding run
  ran_later r f ((t, c), d) = ground (arith, t, c, d)

  ran_served :
      (r : Releases) (f : Shutdown)
      → Connected f
      → ran r ≡ (none, unconnected r f ++ timeout_awaited (30 * seconds) ∷ [])
  ran_served r f d = ran_later r f d ∙ ap (λ a. (none, a)) (shutdown_lem r f)

  Log-did :
      {m m' : Shared} {p p' : Pc}
      → Move R S k redis getenv g m p m' p'
      → Log p m.actions
      → Log p' m'.actions
  Log-did (env_fails {e = e} h) l = (nothing_due, ran_env _ _ h ∙ ap (λ a. (some e, a)) (sym l))
  Log-did (otel_fails {e = e} h i) l =
      (nothing_due, ran_otel _ _ h i ∙ ap (λ a. (some e, a)) (sym l))
  Log-did (otel_done h i) l = ((h, i), ap (λ a. a ++ otel_started ∷ []) l)
  Log-did (cache_fails {e = e} h) (t, l) =
      (nothing_due, ran_cache _ _ _ t h ∙ ap (λ a. (some e, a)) (sym l))
  Log-did (cache_done h) (t, l) = ((t, (_, h)), ap (λ a. a ++ cache_connected ∷ []) l)
  Log-did (database_fails {e = e} h) (t, l) =
      (nothing_due, ran_database _ _ _ t h ∙ ap (λ a. (some e, a)) (sym l))
  Log-did (database_done h) (t, l) = ((t, (_, h)), ap (λ a. a ++ database_connected ∷ []) l)
  Log-did go_serve (t, l) = (t, ap (λ a. a ++ server_started ∷ []) l)
  Log-did (wake h) (t, l) = (t, ap (λ a. a ++ signal_received ∷ []) l)
  Log-did call_shutdown l = l
  Log-did (drained e h) (t, l) =
      (t, (e, ap (λ a. a ++ release server_shutdown "server shutdown failed" e) l))
  Log-did (timed_out e h) (t, l) =
      (t, (some e, ap (λ a. a ++ release server_shutdown "server shutdown failed" (some e)) l))
  Log-did (flush {f = f}) (t, (e, l)) = (
    record { server = e; cache = none; database = none },
    (f, t, ap (λ a. a ++ release otel_shutdown "failed to shutdown otel" (run_shutdown k f)) l),
  )
  Log-did (close_cache e) (r, (f, t, l)) = (
    record r { cache = e },
    (f, t, ap (λ a. a ++ release cache_closed "failed to close cache" e) l),
  )
  Log-did (close_database e h) (r, (f, t, l)) = (
    record r { database = e },
    (f, t, ap (λ a. a ++ release database_closed "failed to close database" e) l),
  )
  Log-did (linger h) (r, (f, t, l)) = (
    r,
    ran_served r f t
        ∙ ap (λ a. (none, a)) (ap (λ a. a ++ timeout_awaited (30 * seconds) ∷ []) (sym l)),
  )

  Event-actions :
      {m m' : Shared} {p : Pc} → Event R S k redis getenv g m p m' → m'.actions ≡ m.actions
  Event-actions interrupt = refl
  Event-actions (listen h) = refl
  Event-actions (listen_fails h) = refl
  Event-actions (serve_fails h) = refl
  Event-actions (request h) = refl
  Event-actions (respond h q) = refl
  Event-actions (query_starts h q) = refl
  Event-actions (query_ends h) = refl
  Event-actions (tick d) = refl

  Reach-Log : {m : Shared} {p : Pc} → Reach R S k redis getenv g m p → Log p m.actions
  Reach-Log (start now) = refl
  Reach-Log (later r (own v)) = Log-did v (Reach-Log r)
  Reach-Log (later {p = p} r (beside v)) = subst (Log p) (sym (Event-actions v)) (Reach-Log r)

  -- The process refines run: however the handlers, the signal and the clock interleave with the main
  -- goroutine, where it has returned, the error and the actions are those of run for what the
  -- releases then reported.
  pub returned-ran :
      {m : Shared} {e : Option Error}
      → Reach R S k redis getenv g m (returned e)
      → (r : Releases) × (run R S k redis r getenv g ≡ (e, m.actions))
  returned-ran r = Reach-Log r
