-- ===== src/Otel/Flush.antt =====
-- The shutdown that Init of modules/shared/src/utilotel/init.go returns, with the clock: how long it
-- may take under the deadline of its caller.
use micro_services.Base.{ℕ, ◌+◌, ◌*◌, ◌≤◌, ◌≡◌, ◌⊎◌, Option, leb, if◌then◌else◌, arith}
use micro_services.Errors.{Error}
use micro_services.Otel.Init.{errors_join}

abbrev pub shutdown_timeout : ℕ
shutdown_timeout = 5 * 1000000000

-- context.WithTimeout: the deadline is the parent's where that is the earlier one.
abbrev pub with_timeout : (parent now timeout : ℕ) → ℕ
with_timeout parent now timeout = if leb parent (now + timeout) then parent else now + timeout

-- Shutdown of the two providers under a deadline, from a time on: the error and the time of return.
pub record TimedSdk : Type 0 where
  pub tracer_shutdown : (deadline now : ℕ) → Option Error × ℕ
  pub meter_shutdown : (deadline now : ℕ) → Option Error × ℕ

module _ (k : TimedSdk) where
  -- The function that Init returns; the second shutdown starts when the first one has returned.
  unfoldable pub flush_at : (parent now : ℕ) → Option Error × ℕ
  flush_at parent now =
      let deadline = with_timeout parent now shutdown_timeout in
      let (e, t) = k.tracer_shutdown deadline now in
      let (f, t') = k.meter_shutdown deadline t in (errors_join e f, t')

  -- Shutdown heeds its context: it returns at once where the deadline has passed, and else no later
  -- than at the deadline.
  pub record IsPrompt : Type 0 where
    pub tracer_after : (deadline now : ℕ) → now ≤ (k.tracer_shutdown deadline now).1
    pub tracer_before :
        (deadline now : ℕ)
        → ((k.tracer_shutdown deadline now).1 ≤ deadline)
          ⊎ ((k.tracer_shutdown deadline now).1 ≡ now)
    pub meter_after : (deadline now : ℕ) → now ≤ (k.meter_shutdown deadline now).1
    pub meter_before :
        (deadline now : ℕ)
        → ((k.meter_shutdown deadline now).1 ≤ deadline) ⊎ ((k.meter_shutdown deadline now).1 ≡ now)

  module _ (L : IsPrompt) (parent now : ℕ) where
    -- The shutdown returns within 5 seconds and by the deadline of its caller, if that is still to
    -- come; where it has passed, the shutdown returns when it was called.
    pub flush_at_lem :
        (now ≤ (flush_at parent now).1)
        × ((flush_at parent now).1 ≤ now + shutdown_timeout)
        × (now ≤ parent → (flush_at parent now).1 ≤ parent)
        × (parent ≤ now → (flush_at parent now).1 ≡ now)
    unfolding flush_at
    flush_at_lem =
        let deadline = with_timeout parent now shutdown_timeout in
        let t = (k.tracer_shutdown deadline now).1 in
        ground (
          arith,
          L.tracer_after deadline now,
          L.tracer_before deadline now,
          L.meter_after deadline t,
          L.meter_before deadline t,
        )
