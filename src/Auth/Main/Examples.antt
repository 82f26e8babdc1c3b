-- ===== src/Auth/Main/Examples.antt =====
-- A Redis, a PostgreSQL and an environment in which the service starts.
use micro_services.Base.{ℕ, String, false, none, some, ◌==◌, string_eq, if◌then◌else◌}
use micro_services.Errors.{plain, Result, ok, err}
use micro_services.Cache.Server.{Redis}
use micro_services.Otel.Init.{Globals, Sdk, unset}
use micro_services.Auth.Main.{Postgres, Releases}

-- A Redis whose clients are known by their passwords, and that asks for none.
abbrev pub open_redis : Redis
open_redis = record {
  State = ℕ;
  elapse = λ d s. s;
  Any = String;
  Reply = Result String;
  Client = String;
  new_client = λ addr password db. password;
  ping = λ c s. if c == "" then none else some (plain "ERR AUTH called without any password");
  set = λ c k v ttl s. (none, s);
  get = λ c k s. err (plain "redis: nil");
  scan = λ r. r;
  del = λ c k s. (none, s);
  redis_nil = plain "redis: nil";
}

abbrev pub postgres : Postgres
postgres = record { Conn = String; open_db = λ uri. ok uri; ping = λ c. none }

abbrev pub noop_sdk : Sdk
noop_sdk = record {
  resource_error = none;
  trace_exporter_error = none;
  metric_exporter_error = none;
  runtime_error = none;
  tracer_shutdown = none;
  meter_shutdown = none;
}

abbrev pub fresh : Globals
fresh = record {
  propagator = false;
  tracer_provider = unset;
  meter_provider = unset;
  runtime_metrics = false;
}

-- Telemetry is off; every other variable is set.
abbrev pub getenv : String → String
getenv key = if key == "OTEL_EXPORTER_OTLP_ENDPOINT" then "" else "auth:"

-- The cache does not close.
abbrev pub stuck : Releases
stuck = record { server = none; cache = some (plain "closed"); database = none }
