-- ===== src/Auth/Main/Tests.antt =====
-- Starting and stopping at concrete data.
use micro_services.Base.{◌≡◌, ◌↔◌, none, string_eq}
use micro_services.Auth.Main.{run}
use micro_services.Auth.Main.Examples.{open_redis, postgres, noop_sdk, fresh, getenv, stuck}
use micro_services.Auth.Main.Lifetime.{
  released, Starts, releases_due, run-eq-none_iff, run-released,
}

run-eq-none_iff_example :
    ((run open_redis postgres noop_sdk 0 stuck getenv fresh).0 ≡ none)
    ↔ Starts open_redis postgres noop_sdk 0 stuck getenv fresh
run-eq-none_iff_example = run-eq-none_iff open_redis postgres noop_sdk 0 stuck getenv fresh

run-released_example :
    released (run open_redis postgres noop_sdk 0 stuck getenv fresh).1
    ≡ releases_due open_redis postgres noop_sdk 0 stuck getenv fresh
        (run open_redis postgres noop_sdk 0 stuck getenv fresh).0
run-released_example = run-released open_redis postgres noop_sdk 0 stuck getenv fresh
