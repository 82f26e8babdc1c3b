-- ===== src/GrpcMain/Tests.antt =====
-- Runs of the main of the audit service.
use micro_services.GrpcMain.Safety.{reach-Patient, Patient}
use micro_services.Base.{true, false, ◌≡◌, ◌≤◌, refl, none, some}
use micro_services.Errors.{plain}
use micro_services.Otel.Init.{unset, do_nothing, init}
use micro_services.GrpcMain.{
  Outside, Shared, idle, waiting, returned, init_done, listen_fails, listen_done, go_serve, wake,
  go_drain, select_done, flush, interrupt, drain, own, beside, Reach, start, later,
}
use micro_services.GrpcMain.Safety.{Stopped, Failed, returned_none-Stopped, returned_some-Failed}
use micro_services.GrpcMain.Progress.{Returns, signal-Returns}

-- Telemetry is off, and the port is free.
abbrev quiet : Outside
quiet = record {
  sdk = record {
    resource_error = none;
    trace_exporter_error = none;
    metric_exporter_error = none;
    runtime_error = none;
    tracer_shutdown = none;
    meter_shutdown = none;
  };
  getenv = λ key. "";
  globals = record {
    propagator = false;
    tracer_provider = unset;
    meter_provider = unset;
    runtime_metrics = false;
  };
  listen_error = none;
}

abbrev taken : Outside
taken = record quiet { listen_error = some (plain "address already in use") }

abbrev signalled : Shared
signalled = record idle { serving = true; signal = true }

-- Up to the signal.
up : Reach "audit-api" quiet signalled (waiting do_nothing)
unfolding init
up =
    later
      (later (later (later start (own (init_done refl))) (own (listen_done refl))) (own go_serve))
      (beside interrupt)

abbrev ended : Shared
ended = record idle { signal = true; draining = true; drained = true; flushes = 1 }

-- A run in which the server drains in time.
down : Reach "audit-api" quiet ended (returned none)
unfolding up
down =
    later
      (later (later (later (later up (own (wake refl))) (own go_drain)) (beside (drain refl)))
        (own (select_done refl)))
      (own flush)

refused : Reach "audit-api" taken idle (returned (some (plain "address already in use")))
unfolding init
refused = later (later start (own (init_done refl))) (own (listen_fails refl))

returned_none-Stopped_example : Stopped ended × (ended.flushes ≡ 1)
returned_none-Stopped_example = returned_none-Stopped "audit-api" quiet down

returned_some-Failed_example :
    Failed "audit-api" taken (plain "address already in use")
    × (idle.serving ≡ false)
    × (idle.flushes ≡ 0)
returned_some-Failed_example = returned_some-Failed "audit-api" taken refused

signal-Returns_example : Returns "audit-api" quiet signalled (waiting do_nothing)
signal-Returns_example = signal-Returns "audit-api" quiet up refl

reach-Patient_example : Patient ended × (ended.flushes ≤ 1)
reach-Patient_example = reach-Patient "audit-api" quiet down
