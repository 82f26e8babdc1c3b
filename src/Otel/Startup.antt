-- ===== src/Otel/Startup.antt =====
-- What Init guarantees of the global settings, and of the shutdown that it returns.
use micro_services.Base.{String, true, ◌≡◌, ◌≢◌, ◌↔◌, ◌⊎◌, none, some, ==_iff, string_eq, arith}
use micro_services.Errors.{Error, Result, ok}
use micro_services.Otel.Init.{
  noop, exporting, Globals, Sdk, Shutdown, do_nothing, flush, run_shutdown, env_otlp_endpoint, init,
}

-- Init fails at no stage.
abbrev pub Succeeds : Sdk → Type 0
Succeeds k =
    (k.resource_error ≡ none)
    × (k.trace_exporter_error ≡ none)
    × (k.metric_exporter_error ≡ none)
    × (k.runtime_error ≡ none)

module _ (k : Sdk) (service_name : String) (getenv : String → String) (g : Globals) where
  abbrev pub started : Result Shutdown × Globals
  started = init k service_name getenv g

  -- The propagator is installed whether Init succeeds or fails, with and without an endpoint.
  init-propagator : started.1.propagator ≡ true
  unfolding init
  init-propagator = ground arith

  -- Without an endpoint Init succeeds whatever the SDK would report, installs providers that do
  -- nothing, leaves the runtime metrics off as they were, and its shutdown reports no error.
  init_noop :
      getenv env_otlp_endpoint ≡ ""
      → (started ≡ (
        ok do_nothing,
        record {
          propagator = true;
          tracer_provider = noop;
          meter_provider = noop;
          runtime_metrics = g.runtime_metrics;
        },
      ))
        × (run_shutdown k do_nothing ≡ none)
  unfolding init run_shutdown
  init_noop h = ground (arith, ==_iff (getenv env_otlp_endpoint) "")

  -- With an endpoint Init succeeds exactly when no stage fails, and both providers then export with
  -- the resource built for the given service name, with the runtime metrics on.
  init_exporting :
      getenv env_otlp_endpoint ≢ ""
      → (started ≡ (
        ok flush,
        record {
          propagator = true;
          tracer_provider = exporting service_name;
          meter_provider = exporting service_name;
          runtime_metrics = true;
        },
      ))
        ↔ Succeeds k
  unfolding init
  init_exporting h = ground (arith, ==_iff (getenv env_otlp_endpoint) "")

  -- If the metric exporter or the runtime metrics fail to start, Init reports an error and yet the
  -- tracer provider that it installed stays in place, with no shutdown returned to flush it.
  init_partial :
      (e : Error) (f : Shutdown)
      → getenv env_otlp_endpoint ≢ ""
      → k.resource_error ≡ none
      → k.trace_exporter_error ≡ none
      → (k.metric_exporter_error ≡ some e)
        ⊎ ((k.metric_exporter_error ≡ none) × (k.runtime_error ≡ some e))
      → (started.1.tracer_provider ≡ exporting service_name) × (started.0 ≢ ok f)
  unfolding init
  init_partial e f h = ground (arith, ==_iff (getenv env_otlp_endpoint) "")

-- The shutdown of exporting providers runs both shutdowns: it reports no error exactly when neither
-- of them does.
run_shutdown_flush :
    (k : Sdk)
    → (run_shutdown k flush ≡ none) ↔ ((k.tracer_shutdown ≡ none) × (k.meter_shutdown ≡ none))
unfolding run_shutdown
run_shutdown_flush k = ground arith
