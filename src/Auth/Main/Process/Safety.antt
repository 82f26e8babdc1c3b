-- ===== src/Auth/Main/Process/Safety.antt =====
-- What holds of the process wherever it stands.
use micro_services.Base.{ℕ, ◌+◌, ◌*◌, ◌≤◌, ◌<◌, String, true, false, ◌≡◌, ◌⊎◌, none, some, arith}
use micro_services.Cache.Server.{Redis}
use micro_services.Otel.Init.{Globals, Sdk, Shutdown}
use micro_services.Auth.Main.{Postgres, seconds}
use micro_services.Auth.Main.Process.{
  Pc, starting, telemetry, cached, connected, waiting, woken, draining, flushing, closing_cache,
  closing_database, lingering, returned, off, shut, Shared, Move, Event, Reach, start, later, own,
  beside, env_fails, otel_fails, otel_done, cache_fails, cache_done, database_fails, database_done,
  go_serve, wake, call_shutdown, drained, timed_out, flush, close_cache, close_database, linger,
  interrupt, listen, listen_fails, serve_fails, request, respond, query_starts, query_ends, tick,
  Expired,
}

-- How far the main goroutine has come; an early return counts as the start.
abbrev pub phase : Pc → ℕ
phase starting = 0
phase (telemetry f) = 1
phase (cached f) = 2
phase (connected f) = 3
phase (waiting f) = 4
phase (woken f) = 5
phase (draining f) = 6
phase (flushing f) = 7
phase closing_cache = 8
phase closing_database = 9
phase lingering = 10
phase (returned none) = 11
phase (returned (some e)) = 0

record Inv (m : Shared) (p : Pc) : Type 0 where
  heard : m.signal ≡ true → 4 ≤ phase p
  unserved : phase p < 4 → (m.server ≡ off) × (m.active ≡ 0)
  shut_down : 6 ≤ phase p → m.server ≡ shut
  cache_held : 2 ≤ phase p → phase p ≤ 8 → m.cache_open ≡ true
  database_held : 3 ≤ phase p → phase p ≤ 9 → m.database_open ≡ true
  cache_released : 9 ≤ phase p → m.cache_open ≡ false
  database_released : 10 ≤ phase p → m.database_open ≡ false
  settled : 7 ≤ phase p → (m.active ≡ 0) ⊎ Expired m
  timed : 6 ≤ phase p → m.deadline ≡ some (m.entered + 30 * seconds)
  untimed : phase p < 6 → m.deadline ≡ none
  waited : 11 ≤ phase p → Expired m

module _ (R : Redis) (S : Postgres) (k : Sdk) (redis : R.State) (getenv : String → String)
    (g : Globals) where
  Event-Inv : {m m' : Shared} {p : Pc} → Event R S k redis getenv g m p m' → Inv m p → Inv m' p
  Event-Inv interrupt v = ground arith
  Event-Inv (listen h) v = ground arith
  Event-Inv (listen_fails h) v = ground arith
  Event-Inv (serve_fails h) v = ground arith
  Event-Inv (request h) v = ground arith
  Event-Inv (respond h q) v = ground arith
  Event-Inv (query_starts h q) v = ground arith
  Event-Inv (query_ends h) v = ground arith
  Event-Inv (tick d) v = ground arith

  Move-Inv : {m m' : Shared} {p p' : Pc} → Move R S k redis getenv g m p m' p' → Inv m p → Inv m' p'
  Move-Inv (env_fails h) v = ground arith
  Move-Inv (otel_fails h i) v = ground arith
  Move-Inv (otel_done h i) v = ground arith
  Move-Inv (cache_fails h) v = ground arith
  Move-Inv (cache_done h) v = ground arith
  Move-Inv (database_fails h) v = ground arith
  Move-Inv (database_done h) v = ground arith
  Move-Inv go_serve v = ground arith
  Move-Inv (wake h) v = ground arith
  Move-Inv call_shutdown v = ground arith
  Move-Inv (drained e h) v = ground arith
  Move-Inv (timed_out e h) v = ground arith
  Move-Inv flush v = ground arith
  Move-Inv (close_cache e) v = ground arith
  Move-Inv (close_database e h) v = ground arith
  Move-Inv (linger h) v = ground arith

  Reach-Inv : {m : Shared} {p : Pc} → Reach R S k redis getenv g m p → Inv m p
  Reach-Inv (start now) = ground arith
  Reach-Inv (later r (own v)) = Move-Inv v (Reach-Inv r)
  Reach-Inv (later r (beside v)) = Event-Inv v (Reach-Inv r)

  -- The cache and the database of a handler are open.
  abbrev pub Provided : Shared → Type 0
  Provided m = (m.cache_open ≡ true) × (m.database_open ≡ true)

  provided : (m : Shared) (p : Pc) → Inv m p → 0 < m.active → Provided m ⊎ Expired m
  provided m p v busy = ground (arith, v)

  -- At every moment of every run: while a handler works on a request, the cache and the database are
  -- open, unless shutdown has made its context and the deadline of that has passed.
  pub reach-Provided :
      {m : Shared} {p : Pc} → Reach R S k redis getenv g m p → 0 < m.active → Provided m ⊎ Expired m
  reach-Provided r = provided _ _ (Reach-Inv r)

  -- A run that returns nil does so with a server that is shut down and with the cache and the
  -- database closed, and no earlier than 30 seconds after shutdown was entered, however soon the
  -- last request was answered.
  pub returned_none-late :
      {m : Shared}
      → Reach R S k redis getenv g m (returned none)
      → (m.server ≡ shut)
        × (m.cache_open ≡ false)
        × (m.database_open ≡ false)
        × (m.entered + 30 * seconds ≤ m.now)
  returned_none-late r = let v = Reach-Inv r in ground (arith, v)

  pub reach_heard :
      {m : Shared} {p : Pc} → Reach R S k redis getenv g m p → m.signal ≡ true → 4 ≤ phase p
  reach_heard r h = let v = Reach-Inv r in ground (arith, v, h)

  pub reach_timed :
      {m : Shared} {p : Pc}
      → Reach R S k redis getenv g m p
      → 6 ≤ phase p
      → m.deadline ≡ some (m.entered + 30 * seconds)
  reach_timed r h = let v = Reach-Inv r in v.timed h

  -- A request that is not answered when telemetry is flushed has kept Shutdown up to the deadline.
  pub reach_overdue :
      {m : Shared} {f : Shutdown}
      → Reach R S k redis getenv g m (flushing f)
      → 0 < m.active
      → Expired m
  reach_overdue r busy = let v = Reach-Inv r in ground (arith, v, busy)
