-- ===== src/GrpcMain.antt =====
-- The main of a gRPC service, modules/audit/src/cmd/api/main.go and modules/queue/src/cmd/api/main.go,
-- which differ in the service's name only: the main goroutine, the goroutine that serves, the one
-- that drains, the signal and the deadline, interleaved in any order. The log is left out.
pub mod Safety
pub mod Progress
mod Tests
use micro_services.Base.{ℕ, suc, String, Bool, true, false, Option, none, some, ◌≡◌}
use micro_services.Errors.{Error, Result, ok, err}
use micro_services.Otel.Init.{Globals, Sdk, Shutdown, init}

-- What run finds outside: the SDK of utilotel.Init, and what Listen on port 8080 reports.
pub record Outside : Type 0 where
  pub sdk : Sdk
  pub getenv : String → String
  pub globals : Globals
  pub listen_error : Option Error

-- Where the main goroutine stands, with otelShutdown once Init has returned it.
pub data Pc : Type 0 where
  starting : Pc  -- head of `run`
  built : Shutdown → Pc  -- the server is assembled
  listening : Shutdown → Pc
  waiting : Shutdown → Pc  -- `<-ctx.Done()` in `run`
  woken : Shutdown → Pc  -- head of `shutdown`
  selecting : Shutdown → Pc  -- the `select`
  expired_at : Shutdown → Pc  -- before `srv.Stop()`
  flushing : Shutdown → Pc  -- before `otelShutdown`
  returned : Option Error → Pc  -- `run` has returned

-- What the goroutines share with each other and with the world.
pub record Shared : Type 0 where
  pub signal : Bool  -- an interrupt or SIGTERM has arrived
  pub serving : Bool  -- `srv.Serve` runs
  pub draining : Bool  -- GracefulStop was started, and the 30 seconds run
  pub drained : Bool  -- `done` is closed
  pub expired : Bool  -- shutdownCtx is done
  pub forced : Bool  -- `srv.Stop` was called
  pub flushes : ℕ  -- calls of `otelShutdown`

abbrev pub idle : Shared
idle = record {
  signal = false;
  serving = false;
  draining = false;
  drained = false;
  expired = false;
  forced = false;
  flushes = 0;
}

module _ (service : String) (o : Outside) where
  abbrev pub initialised : Result Shutdown
  initialised = (init o.sdk service o.getenv o.globals).0

  -- A step of the main goroutine. `select` may take either case where both are ready.
  pub data Move (m : Shared) : Pc → Shared → Pc → Type 0 where
    init_fails : {e : Error} → initialised ≡ err e → Move m starting m (returned (some e))
    init_done : {f : Shutdown} → initialised ≡ ok f → Move m starting m (built f)
    listen_fails :
        {f : Shutdown} {e : Error}
        → o.listen_error ≡ some e
        → Move m (built f) m (returned (some e))
    listen_done : {f : Shutdown} → o.listen_error ≡ none → Move m (built f) m (listening f)
    go_serve : {f : Shutdown} → Move m (listening f) (record m { serving = true }) (waiting f)
    wake : {f : Shutdown} → m.signal ≡ true → Move m (waiting f) m (woken f)
    go_drain : {f : Shutdown} → Move m (woken f) (record m { draining = true }) (selecting f)
    select_done : {f : Shutdown} → m.drained ≡ true → Move m (selecting f) m (flushing f)
    select_timeout : {f : Shutdown} → m.expired ≡ true → Move m (selecting f) m (expired_at f)
    stop :
        {f : Shutdown}
        → Move m (expired_at f) (record m { serving = false; forced = true }) (flushing f)
    -- An error of `otelShutdown` is logged only.
    flush :
        {f : Shutdown} → Move m (flushing f) (record m { flushes = suc m.flushes }) (returned none)

  -- A step beside the main goroutine, which stays where it is: the signal, after NotifyContext; an
  -- error of Serve, which is logged only; the end of GracefulStop; the deadline.
  pub data Event (m : Shared) : Pc → Shared → Type 0 where
    interrupt : {f : Shutdown} → Event m (waiting f) (record m { signal = true })
    serve_fails : {p : Pc} → m.serving ≡ true → Event m p (record m { serving = false })
    drain : {p : Pc} → m.draining ≡ true → Event m p (record m { serving = false; drained = true })
    deadline : {p : Pc} → m.draining ≡ true → Event m p (record m { expired = true })

  pub data Step (m : Shared) (p : Pc) : Shared → Pc → Type 0 where
    own : {m' : Shared} {p' : Pc} → Move m p m' p' → Step m p m' p'
    beside : {m' : Shared} → Event m p m' → Step m p m' p

  pub data Reach : Shared → Pc → Type 0 where
    start : Reach idle starting
    later : {m m' : Shared} {p p' : Pc} → Reach m p → Step m p m' p' → Reach m' p'
