-- ===== src/Auth/Main/Process/Flushing.antt =====
-- How long the flush of telemetry may take in the shutdown of the service.
use micro_services.Base.{ℕ, ◌<◌, ◌≤◌, String, ◌≡◌, ap, some}
use micro_services.Cache.Server.{Redis}
use micro_services.Otel.Init.{Globals, Sdk, Shutdown}
use micro_services.Otel.Flush.{TimedSdk, IsPrompt, flush_at, flush_at_lem}
use micro_services.Auth.Main.{Postgres}
use micro_services.Auth.Main.Process.{Pc, Shared, Move, Reach, flushing, flush}
use micro_services.Auth.Main.Process.Safety.{reach_overdue}

module _ (R : Redis) (S : Postgres) (k : Sdk) (redis : R.State) (getenv : String → String)
    (g : Globals) where
  -- In a process that exports telemetry, where a request is not answered when Shutdown gives up: the
  -- step of the main goroutine that follows calls otelShutdown with a deadline that has passed, and
  -- for providers that heed their context the flush under that deadline returns when it was called.
  pub overdue-flush_at :
      (t : TimedSdk) {m m' : Shared} {p : Pc}
      → IsPrompt t
      → Reach R S k redis getenv g m (flushing Shutdown.flush)
      → 0 < m.active
      → Move R S k redis getenv g m (flushing Shutdown.flush) m' p
      → (called deadline : ℕ) × ((m'.flush_call ≡ some (called, some deadline))
          × (deadline ≤ called)
          × ((flush_at t deadline called).1 ≡ called))
  overdue-flush_at t {m} L r busy flush =
      let (d, (at, passed)) = reach_overdue R S k redis getenv g r busy in
      let (_, _, _, late) = flush_at_lem t L d m.now in
      (m.now, d, (ap (λ o. some (m.now, o)) at, passed, late passed))
