-- ===== src/Otel/Tests.antt =====
-- Init and the middleware at concrete data.
use micro_services.Base.{
  ◌+◌, ◌≤◌, leb, Option, List, ◌∷◌, ◌==◌, if◌then◌else◌, ap, sym, ◌∙◌, String, Bool, true, false,
  ◌≡◌, ◌≢◌, refl, [], none, some, ==_iff, string_eq, arith,
}
use micro_services.Errors.{plain, ok, err}
use micro_services.Otel.Init.{unset, Globals, Sdk}
use micro_services.Otel.Flush.{TimedSdk, IsPrompt, flush_at, flush_at_lem, shutdown_timeout}
use micro_services.Otel.Resource.{Resources, IsMerged, last_found}
use micro_services.Otel.Middleware.{Request}

abbrev fresh : Globals
fresh = record {
  propagator = false;
  tracer_provider = unset;
  meter_provider = unset;
  runtime_metrics = false;
}

abbrev sound : Sdk
sound = record {
  resource_error = none;
  trace_exporter_error = none;
  metric_exporter_error = none;
  runtime_error = none;
  tracer_shutdown = none;
  meter_shutdown = none;
}

-- The metric exporter cannot be built, and neither provider shuts down.
abbrev broken : Sdk
broken = record sound {
  metric_exporter_error = some (plain "dial");
  tracer_shutdown = some (plain "spans");
  meter_shutdown = some (plain "metrics");
}

abbrev bare : String → String
bare key = ""

abbrev collector : String → String
collector key = "localhost:4317"

collector_ne : collector "OTEL_EXPORTER_OTLP_ENDPOINT" ≢ ""
collector_ne = ground (arith, ==_iff {T = String} "localhost:4317" "")

abbrev login : Request
login = record { method = "POST"; path = "/login"; pattern = "/login" }

abbrev traced : Request → Bool
traced r = true

-- The traces take three seconds, and the metrics as long as they may.
abbrev slow : TimedSdk
slow = record {
  tracer_shutdown = λ deadline now.
      if leb (now + 3000000000) deadline
      then (none, now + 3000000000)
      else (some (plain "context deadline exceeded"), if leb now deadline then deadline else now);
  meter_shutdown = λ deadline now.
      (some (plain "context deadline exceeded"), if leb now deadline then deadline else now);
}

slow-IsPrompt : IsPrompt slow
slow-IsPrompt = record {
  tracer_after = λ deadline now. ground arith;
  tracer_before = λ deadline now. ground arith;
  meter_after = λ deadline now. ground arith;
  meter_before = λ deadline now. ground arith;
}

flush_at_lem_example :
    (10 ≤ (flush_at slow 9 10).1)
    × ((flush_at slow 9 10).1 ≤ 10 + shutdown_timeout)
    × (10 ≤ 9 → (flush_at slow 9 10).1 ≤ 9)
    × (9 ≤ 10 → (flush_at slow 9 10).1 ≡ 10)
flush_at_lem_example = flush_at_lem slow slow-IsPrompt 9 10

-- Detectors as the attributes that they find; the last one wins.
abbrev Found : Type 0
Found = String → Option String

abbrev only : String → String → Found
only key value k = if k == key then some value else none

abbrev nothing : Found
nothing k = none

abbrev merged : List Found → Found
merged [] k = none
merged (d ∷ ds) k = elim (merged ds k) [ some v ↦ some v | none ↦ d k ]

abbrev resources : Resources
resources = record {
  Resource = Found;
  Detector = Found;
  service_name = λ s. ("service.name", s);
  with_attributes = λ (k, v). only k v;
  with_process = only "process.pid" "1";
  with_telemetry_sdk = only "telemetry.sdk.language" "go";
  with_from_env = only "service.name" "auth-blue";
  new = λ ds. ok (merged ds);
  attribute = λ r k. r k;
  found = λ d k. d k;
}

merged-last_found : (ds : List Found) (key : String) → merged ds key ≡ last_found resources key ds
merged-last_found [] key = refl
merged-last_found (d ∷ ds) key =
    ap (λ x. elim x [ some v ↦ some v | none ↦ d key ]) (merged-last_found ds key)

resources-IsMerged : IsMerged resources
resources-IsMerged = record {
  attribute-new = λ ds r key made.
      ap (λ x. elim x [ ok r ↦ r key | err e ↦ none ]) (sym made) ∙ merged-last_found ds key;
  found-attributes = λ value. refl;
  found-process = refl;
  found-telemetry_sdk = refl;
}
