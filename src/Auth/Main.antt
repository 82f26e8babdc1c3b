-- ===== src/Auth/Main.antt =====
-- modules/auth/src/cmd/api/main.go and modules/auth/src/infra/database/database.go: how the
-- service starts and stops. The signal is taken to arrive; the log is left out.
pub mod Lifetime
pub mod Process
mod Examples
mod Tests
use micro_services.Base.{ℕ, String, Option, none, some, List, [], ◌∷◌, ◌++◌, ◌*◌}
use micro_services.Errors.{Error, Result, ok, err}
use micro_services.Cache.{new_client}
use micro_services.Cache.Server.{Redis}
use micro_services.Otel.Init.{Globals, Sdk, Shutdown, run_shutdown, init}
use micro_services.Auth.Env.{Env, new_env, validate_env}

-- database/sql over lib/pq: Open gives a pool, Ping connects.
pub record Postgres : Type 1 where
  pub Conn : Type 0
  pub open_db : String → Result Conn
  pub ping : Conn → Option Error

-- NewDB
unfoldable pub new_db : (S : Postgres) → String → Result S.Conn
new_db S uri = elim (S.open_db uri) [
  | err e ↦ err e
  | ok db ↦ elim (S.ping db) [ some e ↦ err e | none ↦ ok db ]
]

-- What run and shutdown do, in order.
pub data Action : Type 0 where
  otel_started cache_connected database_connected server_started signal_received : Action
  server_shutdown otel_shutdown cache_closed database_closed : Action
  -- The message of a release that failed.
  release_failed : String → Error → Action
  -- `<-shutdownCtx.Done()`
  timeout_awaited : ℕ → Action

-- What the releases but that of telemetry report.
pub record Releases : Type 0 where
  pub server : Option Error
  pub cache : Option Error
  pub database : Option Error

abbrev release : Action → String → Option Error → List Action
release a message none = a ∷ []
release a message (some e) = a ∷ release_failed message e ∷ []

abbrev pub seconds : ℕ
seconds = 1000000000

unfoldable pub shutdown : Releases → (otel : Option Error) → List Action
shutdown r otel =
    release server_shutdown "server shutdown failed" r.server
    ++ (release otel_shutdown "failed to shutdown otel" otel
        ++ (release cache_closed "failed to close cache" r.cache
            ++ (release database_closed "failed to close database" r.database
                ++ timeout_awaited (30 * seconds) ∷ [])))

module _ (R : Redis) (S : Postgres) (k : Sdk) (redis : R.State) (releases : Releases) where
  abbrev serve : Shutdown → List Action
  serve s =
      otel_started
      ∷ cache_connected
      ∷ database_connected
      ∷ server_started
      ∷ signal_received
      ∷ shutdown releases (run_shutdown k s)

  abbrev with_database : Shutdown → Result S.Conn → Option Error × List Action
  with_database s (err e) = (some e, otel_started ∷ cache_connected ∷ [])
  with_database s (ok db) = (none, serve s)

  abbrev with_cache : Env → Shutdown → Result R.Client → Option Error × List Action
  with_cache e s (err x) = (some x, otel_started ∷ [])
  with_cache e s (ok rds) = with_database s (new_db S e.db_url)

  abbrev with_otel : Env → Result Shutdown → Option Error × List Action
  with_otel e (err x) = (some x, [])
  with_otel e (ok s) = with_cache e s (new_client R e.cache_addr e.cache_prefix redis)

  abbrev with_env : (String → String) → Globals → Env → Option Error → Option Error × List Action
  with_env getenv g e (some x) = (some x, [])
  with_env getenv g e none = with_otel e (init k "auth-api" getenv g).0

  -- The error that run returns, and what it did.
  unfoldable pub run : (String → String) → Globals → Option Error × List Action
  run getenv g = with_env getenv g (new_env getenv) (validate_env (new_env getenv))
