-- ===== src/Otel/Init.antt =====
-- modules/shared/src/utilotel/init.go. The SDK of OpenTelemetry is a parameter: which of its
-- constructors fail, and what the two shutdowns report. Phases that only build values are left out.
use micro_services.Base.{
  String, Bool, true, Option, none, some, ◌<>◌, ◌==◌, string_eq, if◌then◌else◌,
}
use micro_services.Errors.{Error, plain, join, error_text, Result, ok, err}

pub data Provider : Type 0 where
  unset noop : Provider
  -- Exports with a resource built for the service of this name, which the environment may override.
  exporting : String → Provider

-- The process-wide settings of the otel package, and whether runtime metrics are collected.
pub record Globals : Type 0 where
  pub propagator : Bool
  pub tracer_provider : Provider
  pub meter_provider : Provider
  pub runtime_metrics : Bool

pub record Sdk : Type 0 where
  pub resource_error : Option Error
  pub trace_exporter_error : Option Error
  pub metric_exporter_error : Option Error
  pub runtime_error : Option Error
  pub tracer_shutdown : Option Error
  pub meter_shutdown : Option Error

-- The function that Init returns.
pub data Shutdown : Type 0 where
  do_nothing flush : Shutdown

-- errors.Join of two errors, either of which may be nil.
unfoldable pub errors_join : Option Error → Option Error → Option Error
errors_join none none = none
errors_join (some e) none = some (plain (error_text e))
errors_join none (some f) = some (plain (error_text f))
errors_join (some e) (some f) = some (join e f)

unfoldable pub run_shutdown : Sdk → Shutdown → Option Error
unfolding errors_join
run_shutdown k do_nothing = none
run_shutdown k flush = errors_join k.tracer_shutdown k.meter_shutdown

abbrev pub env_otlp_endpoint : String
env_otlp_endpoint = "OTEL_EXPORTER_OTLP_ENDPOINT"

module _ (k : Sdk) (service_name : String) where
  abbrev failed : String → Error → Globals → Result Shutdown × Globals
  failed stage e g = (err (plain ("utilotel: " <> stage <> ": " <> error_text e)), g)

  -- The stages of Init behind the test of the endpoint, from the last one up.
  start_runtime : Globals → Result Shutdown × Globals
  start_runtime g = elim k.runtime_error [
    | some e ↦ failed "start runtime metrics" e g
    | none ↦ (ok flush, record g { runtime_metrics = true })
  ]

  start_metrics : Globals → Result Shutdown × Globals
  unfolding start_runtime
  start_metrics g = elim k.metric_exporter_error [
    | some e ↦ failed "otlp metric exporter" e g
    | none ↦ start_runtime (record g { meter_provider = exporting service_name })
  ]

  start_traces : Globals → Result Shutdown × Globals
  unfolding start_metrics
  start_traces g = elim k.trace_exporter_error [
    | some e ↦ failed "otlp trace exporter" e g
    | none ↦ start_metrics (record g { tracer_provider = exporting service_name })
  ]

  start_exporting : Globals → Result Shutdown × Globals
  unfolding start_traces
  start_exporting g = elim k.resource_error [
    | some e ↦ failed "build resource" e g
    | none ↦ start_traces g
  ]

  unfoldable pub init : (getenv : String → String) → Globals → Result Shutdown × Globals
  unfolding start_exporting
  init getenv g =
      let g' = record g { propagator = true } in
      if getenv env_otlp_endpoint == ""
      then (ok do_nothing, record g' { tracer_provider = noop; meter_provider = noop })
      else start_exporting g'
