-- ===== src/Auth/Main/Process.antt =====
-- The run of modules/auth/src/cmd/api/main.go as a process: the main goroutine, the HTTP server with
-- its handlers, the signal and the clock, interleaved in any order. net/http's Server is written out
-- from its documentation. The log and the main goroutine's own time are left out.
pub mod Safety
pub mod Refinement
pub mod Progress
pub mod Flushing
mod Tests
use micro_services.Base.{
  ℕ, suc, ◌+◌, ◌*◌, ◌≤◌, ◌<◌, String, Bool, true, false, Option, none, some, List, [], ◌∷◌, ◌++◌,
  ◌≡◌, ◌⊎◌,
}
use micro_services.Errors.{Error, Result, ok, err}
use micro_services.Cache.{new_client}
use micro_services.Cache.Server.{Redis}
use micro_services.Otel.Init.{Globals, Sdk, Shutdown, run_shutdown, init}
use micro_services.Auth.Env.{new_env, validate_env}
use micro_services.Auth.Main.{
  Postgres, new_db, Action, otel_started, cache_connected, database_connected, server_started,
  signal_received, server_shutdown, otel_shutdown, cache_closed, database_closed, timeout_awaited,
  release, seconds,
}

-- Where the main goroutine stands, with otelShutdown once Init has returned it.
pub data Pc : Type 0 where
  starting : Pc  -- head of `run`
  telemetry : Shutdown → Pc  -- before utilcache.NewClient
  cached : Shutdown → Pc  -- before database.NewDB
  connected : Shutdown → Pc  -- before the goroutine of the server
  waiting : Shutdown → Pc  -- `<-ctx.Done()` in `run`
  woken : Shutdown → Pc  -- head of `shutdown`
  draining : Shutdown → Pc  -- inside `srv.Shutdown`
  flushing : Shutdown → Pc  -- before `otelShutdown`
  closing_cache : Pc  -- before `rds.Close`
  closing_database : Pc  -- before `connDB.Close`
  lingering : Pc  -- `<-shutdownCtx.Done()`
  returned : Option Error → Pc  -- `run` has returned

-- The http.Server: its goroutine is not there yet; there, but not listening; serving; ended by an
-- error of Listen; ended by another error, with the connections that were open; shut down.
pub data Server : Type 0 where
  off spawned serving refused broken shut : Server

-- What the goroutines share with each other and with the world. The clock counts nanoseconds.
pub record Shared : Type 0 where
  pub signal : Bool  -- an interrupt or SIGTERM has arrived
  pub server : Server
  pub active : ℕ  -- the requests that handlers work on
  pub cache_open : Bool
  pub database_open : Bool
  pub now : ℕ
  pub entered : ℕ  -- when `shutdown` made its context
  pub deadline : Option ℕ  -- the deadline of that context, once `shutdown` has made it
  pub queries : ℕ  -- the queries of handlers that the database server works on
  pub flush_call : Option (ℕ × Option ℕ)  -- when `otelShutdown` was called, with which deadline
  pub actions : List Action  -- what the main goroutine has done

abbrev pub idle : ℕ → Shared
idle now = record {
  signal = false;
  server = off;
  active = 0;
  cache_open = false;
  database_open = false;
  now = now;
  entered = 0;
  deadline = none;
  queries = 0;
  flush_call = none;
  actions = [];
}

-- The deadline of the shutdown's context has passed.
abbrev pub Expired : Shared → Type 0
Expired m = (d : ℕ) × ((m.deadline ≡ some d) × (d ≤ m.now))

abbrev did : List Action → Shared → Shared
did steps m = record m { actions = m.actions ++ steps }

module _ (R : Redis) (S : Postgres) (k : Sdk) (redis : R.State) (getenv : String → String)
    (g : Globals) where
  abbrev pub env_error : Option Error
  env_error = validate_env (new_env getenv)

  abbrev pub otel : Result Shutdown
  otel = (init k "auth-api" getenv g).0

  abbrev pub cache : Result R.Client
  cache = new_client R (new_env getenv).cache_addr (new_env getenv).cache_prefix redis

  abbrev pub database : Result S.Conn
  database = new_db S (new_env getenv).db_url

  -- A step of the main goroutine. Shutdown returns once no connection is active, with what closing
  -- the listeners reported, or with the error of its context.
  pub data Move (m : Shared) : Pc → Shared → Pc → Type 0 where
    env_fails : {e : Error} → env_error ≡ some e → Move m starting m (returned (some e))
    otel_fails :
        {e : Error} → env_error ≡ none → otel ≡ err e → Move m starting m (returned (some e))
    otel_done :
        {f : Shutdown}
        → env_error ≡ none
        → otel ≡ ok f
        → Move m starting (did (otel_started ∷ []) m) (telemetry f)
    cache_fails :
        {f : Shutdown} {e : Error} → cache ≡ err e → Move m (telemetry f) m (returned (some e))
    cache_done :
        {f : Shutdown} {rds : R.Client}
        → cache ≡ ok rds
        → Move m
            (telemetry f)
            (did (cache_connected ∷ []) (record m { cache_open = true }))
            (cached f)
    database_fails :
        {f : Shutdown} {e : Error} → database ≡ err e → Move m (cached f) m (returned (some e))
    database_done :
        {f : Shutdown} {db : S.Conn}
        → database ≡ ok db
        → Move m
            (cached f)
            (did (database_connected ∷ []) (record m { database_open = true }))
            (connected f)
    go_serve :
        {f : Shutdown}
        → Move m
            (connected f)
            (did (server_started ∷ []) (record m { server = spawned }))
            (waiting f)
    wake :
        {f : Shutdown}
        → m.signal ≡ true
        → Move m (waiting f) (did (signal_received ∷ []) m) (woken f)
    call_shutdown :
        {f : Shutdown}
        → Move m
            (woken f)
            (record m { server = shut; entered = m.now; deadline = some (m.now + 30 * seconds) })
            (draining f)
    drained :
        {f : Shutdown} (e : Option Error)
        → m.active ≡ 0
        → Move m
            (draining f)
            (did (release server_shutdown "server shutdown failed" e) m)
            (flushing f)
    timed_out :
        {f : Shutdown} (e : Error)
        → Expired m
        → Move m
            (draining f)
            (did (release server_shutdown "server shutdown failed" (some e)) m)
            (flushing f)
    -- `otelShutdown(shutdownCtx)`
    flush :
        {f : Shutdown}
        → Move m
            (flushing f)
            (did
              (release otel_shutdown "failed to shutdown otel" (run_shutdown k f))
              (record m { flush_call = some (m.now, m.deadline) }))
            closing_cache
    close_cache :
        (e : Option Error)
        → Move m closing_cache
            (did (release cache_closed "failed to close cache" e) (record m { cache_open = false }))
            closing_database
    -- Close of *sql.DB waits for the queries that the server works on.
    close_database :
        (e : Option Error)
        → m.queries ≡ 0
        → Move m closing_database
            (did
              (release database_closed "failed to close database" e)
              (record m { database_open = false }))
            lingering
    linger :
        Expired m → Move m lingering (did (timeout_awaited (30 * seconds) ∷ []) m) (returned none)

  -- A step beside the main goroutine. A handler that waits for a query does not answer. ListenAndServe takes no connection once Shutdown was called; an
  -- error of Accept ends it, and the connections that are open go on.
  pub data Event (m : Shared) : Pc → Shared → Type 0 where
    interrupt : {f : Shutdown} → Event m (waiting f) (record m { signal = true })
    listen : {p : Pc} → m.server ≡ spawned → Event m p (record m { server = serving })
    listen_fails : {p : Pc} → m.server ≡ spawned → Event m p (record m { server = refused })
    serve_fails : {p : Pc} → m.server ≡ serving → Event m p (record m { server = broken })
    request :
        {p : Pc}
        → (m.server ≡ serving) ⊎ (m.server ≡ broken)
        → Event m p (record m { active = suc m.active })
    respond :
        {p : Pc} {n : ℕ} → m.active ≡ suc n → m.queries ≤ n → Event m p (record m { active = n })
    query_starts :
        {p : Pc}
        → m.database_open ≡ true
        → m.queries < m.active
        → Event m p (record m { queries = suc m.queries })
    query_ends : {p : Pc} {n : ℕ} → m.queries ≡ suc n → Event m p (record m { queries = n })
    tick : {p : Pc} (d : ℕ) → Event m p (record m { now = m.now + d })

  pub data Step (m : Shared) (p : Pc) : Shared → Pc → Type 0 where
    own : {m' : Shared} {p' : Pc} → Move m p m' p' → Step m p m' p'
    beside : {m' : Shared} → Event m p m' → Step m p m' p

  pub data Reach : Shared → Pc → Type 0 where
    start : (now : ℕ) → Reach (idle now) starting
    later : {m m' : Shared} {p p' : Pc} → Reach m p → Step m p m' p' → Reach m' p'
