-- ===== src/Audit/Worker.antt =====
-- modules/audit/src/cmd/worker/main.go: a process that waits for its signal. The log is left out.
use micro_services.Base.{String, Option, none, some, List, [], ◌∷◌, string_eq}
use micro_services.Errors.{Error, Result, ok, err}
use micro_services.Otel.Init.{Globals, Sdk, Shutdown, init, run_shutdown}

pub data Action : Type 0 where
  signal_received : Action
  -- `otelShutdown`, with the error that is logged only.
  otel_shutdown : Option Error → Action

module _ (k : Sdk) (getenv : String → String) (g : Globals) where
  abbrev after_init : Result Shutdown → Option Error × List Action
  after_init (err e) = (some e, [])
  after_init (ok f) = (none, signal_received ∷ otel_shutdown (run_shutdown k f) ∷ [])

  -- The error that run returns, and what it did.
  unfoldable pub run : Option Error × List Action
  run = after_init (init k "audit-worker" getenv g).0
