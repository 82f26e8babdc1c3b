-- ===== src/Auth/Main/Process/Tests.antt =====
-- Runs of the process at concrete data.
use micro_services.Base.{
  Option, some, ℕ, String, ◌+◌, ◌*◌, ◌≤◌, ◌≡◌, ◌⊎◌, refl, true, false, none, inl, inr, [], ◌∷◌,
  arith,
}
use micro_services.Errors.{plain}
use micro_services.Otel.Init.{Shutdown, do_nothing, init, run_shutdown}
use micro_services.Auth.Env.{validate_env}
use micro_services.Cache.{new_client}
use micro_services.Cache.Server.{Redis}
use micro_services.Auth.Main.{
  release_failed, otel_started, cache_connected, database_connected, server_started,
  signal_received, server_shutdown, otel_shutdown, cache_closed, database_closed, timeout_awaited,
  new_db, Releases, run, seconds,
}
use micro_services.Auth.Main.Examples.{open_redis, postgres, noop_sdk, fresh, getenv}
use micro_services.Otel.Flush.{TimedSdk, IsPrompt, flush_at}
use micro_services.Auth.Main.Process.Flushing.{overdue-flush_at}
use micro_services.Auth.Main.Process.{
  Move, timed_out, flushing, lingering, waiting, cache_done, database_done, go_serve, listen,
  request, respond, wake, call_shutdown, drained, flush, close_cache, close_database, tick, linger,
  Shared, shut, serving, Reach, start, later, own, beside, otel_done, returned, interrupt, idle,
}
use micro_services.Auth.Main.Process.Refinement.{returned-ran}
use micro_services.Auth.Main.Process.Safety.{reach-Provided, returned_none-late}
use micro_services.Auth.Main.Process.Progress.{Returns, interrupted-Returns, reach_stranded}

-- A Redis that takes any password.
abbrev redis : Redis
redis = record open_redis { ping = λ c s. none }

-- Up to a request, at the time 7.
busy :
    Reach redis postgres noop_sdk 0 getenv fresh
      (record (idle 7) {
        server = serving;
        active = 1;
        cache_open = true;
        database_open = true;
        actions = otel_started ∷ cache_connected ∷ database_connected ∷ server_started ∷ [];
      })
      (waiting do_nothing)
unfolding validate_env init new_client new_db
busy =
    later
      (later
        (later
          (later (later (later (start 7) (own (otel_done refl refl))) (own (cache_done refl)))
            (own (database_done refl)))
          (own go_serve))
        (beside (listen refl)))
      (beside (request (inl refl)))

abbrev at_signal : Shared
at_signal = record (idle 7) {
  signal = true;
  server = serving;
  active = 0;
  cache_open = true;
  database_open = true;
  actions = otel_started ∷ cache_connected ∷ database_connected ∷ server_started ∷ [];
}

answered : Reach redis postgres noop_sdk 0 getenv fresh at_signal (waiting do_nothing)
answered = later (later busy (beside (respond refl (omega arith)))) (beside interrupt)

abbrev at_end : Shared
at_end = record at_signal {
  server = shut;
  cache_open = false;
  database_open = false;
  now = 7 + 30 * seconds;
  entered = 7;
  deadline = some (7 + 30 * seconds);
  flush_call = some (7, some (7 + 30 * seconds));
  actions =
      otel_started
      ∷ cache_connected
      ∷ database_connected
      ∷ server_started
      ∷ signal_received
      ∷ server_shutdown
      ∷ otel_shutdown
      ∷ cache_closed
      ∷ database_closed
      ∷ timeout_awaited (30 * seconds)
      ∷ [];
}

le_self : (n : ℕ) → n ≤ n
le_self n = omega arith

whole : Reach redis postgres noop_sdk 0 getenv fresh at_end (returned none)
unfolding run_shutdown
whole =
    later
      (later
        (later
          (later
            (later
              (later (later (later answered (own (wake refl))) (own call_shutdown))
                (own (drained none refl)))
              (own flush))
            (own (close_cache none)))
          (own (close_database none refl)))
        (beside (tick (30 * seconds))))
      (own (linger (7 + 30 * seconds, (refl, le_self (7 + 30 * seconds)))))

returned-ran_example :
    (r : Releases) × (run redis postgres noop_sdk 0 r getenv fresh ≡ (none, at_end.actions))
returned-ran_example = returned-ran redis postgres noop_sdk 0 getenv fresh whole

returned_none-late_example :
    (at_end.server ≡ shut)
    × (at_end.cache_open ≡ false)
    × (at_end.database_open ≡ false)
    × (7 + 30 * seconds ≤ 7 + 30 * seconds)
returned_none-late_example = returned_none-late redis postgres noop_sdk 0 getenv fresh whole

interrupted-Returns_example :
    Returns redis postgres noop_sdk 0 getenv fresh at_signal (waiting do_nothing)
interrupted-Returns_example =
    interrupted-Returns redis postgres noop_sdk 0 getenv fresh answered refl

reach-Provided_example : ((true ≡ true) × (true ≡ true)) ⊎ ((d : ℕ) × ((none ≡ some d) × (d ≤ 7)))
reach-Provided_example = reach-Provided redis postgres noop_sdk 0 getenv fresh busy (omega arith)

reach_stranded_example :
    (m : Shared) × Reach redis postgres noop_sdk 0 getenv fresh m lingering
    × (m.active ≡ 1)
    × (m.cache_open ≡ false)
    × (m.database_open ≡ false)
unfolding validate_env init new_client new_db
reach_stranded_example =
    reach_stranded redis postgres noop_sdk 0 getenv fresh do_nothing "auth:" "auth:" refl refl refl
      refl

-- Every variable is set, that of the collector too.
abbrev all_set : String → String
all_set key = "auth:"

-- The request goes on for 30 seconds.
abbrev at_timeout : Shared
at_timeout = record at_signal {
  server = shut;
  active = 1;
  now = 7 + 30 * seconds;
  entered = 7;
  deadline = some (7 + 30 * seconds);
  actions =
      otel_started
      ∷ cache_connected
      ∷ database_connected
      ∷ server_started
      ∷ signal_received
      ∷ server_shutdown
      ∷ release_failed "server shutdown failed" (plain "context deadline exceeded")
      ∷ [];
}

overdue : Reach redis postgres noop_sdk 0 all_set fresh at_timeout (flushing Shutdown.flush)
unfolding validate_env init new_client new_db
overdue =
    let r1 = later (start 7) (own (otel_done refl refl)) in
    let r2 = later r1 (own (cache_done refl)) in
    let r3 = later r2 (own (database_done refl)) in
    let r4 = later r3 (own go_serve) in
    let r5 = later r4 (beside (listen refl)) in
    let r6 = later r5 (beside (request (inl refl))) in
    let r7 = later r6 (beside interrupt) in
    let r8 = later r7 (own (wake refl)) in
    let r9 = later r8 (own call_shutdown) in
    let r10 = later r9 (beside (tick (30 * seconds))) in
    later r10 (
      own (
        timed_out (plain "context deadline exceeded")
          (7 + 30 * seconds, (refl, le_self (7 + 30 * seconds)))))

-- Providers with nothing to send.
abbrev instant : TimedSdk
instant = record {
  tracer_shutdown = λ deadline now. (none, now);
  meter_shutdown = λ deadline now. (none, now);
}

instant-IsPrompt : IsPrompt instant
instant-IsPrompt = record {
  tracer_after = λ deadline now. omega arith;
  tracer_before = λ deadline now. inr refl;
  meter_after = λ deadline now. omega arith;
  meter_before = λ deadline now. inr refl;
}

overdue-flush_at_example :
    (called deadline : ℕ) × ((◌≡◌ {A = Option (ℕ × Option ℕ)}
        (some (7 + 30 * seconds, some (7 + 30 * seconds)))
        (some (called, some deadline)))
      × (deadline ≤ called)
      × ((flush_at instant deadline called).1 ≡ called))
overdue-flush_at_example =
    overdue-flush_at redis postgres noop_sdk 0 all_set fresh instant instant-IsPrompt overdue
      (omega arith) Move.flush
