-- ===== src/GrpcMain/Progress.antt =====
-- That a main which a signal has reached comes to its end.
use micro_services.Base.{ℕ, suc, ◌+◌, ◌<◌, ◌≤◌, arith, String, true, ◌≡◌, refl, none, some}
use micro_services.Otel.Init.{Shutdown}
use micro_services.GrpcMain.{
  Outside, Pc, starting, built, listening, waiting, woken, selecting, expired_at, flushing,
  returned, Shared, Move, wake, go_drain, select_timeout, stop, flush, Reach, start, later, Step,
  beside, init_fails, init_done, listen_fails, listen_done, go_serve, select_done,
}
use micro_services.GrpcMain.Safety.{SignalSeen, reach-draining, reach-SignalSeen}

module _ (service : String) (o : Outside) where
  -- The main goroutine and the clock alone bring run to its return with nil: the server never drains.
  pub data Returns : Shared → Pc → Type 0 where
    done : {m : Shared} → Returns m (returned none)
    own : {m m' : Shared} {p p' : Pc} → Move service o m p m' p' → Returns m' p' → Returns m p
    tick :
        {m : Shared} {p : Pc}
        → m.draining ≡ true
        → Returns (record m { expired = true }) p
        → Returns m p

  from_flushing : (m : Shared) (f : Shutdown) → Returns m (flushing f)
  from_flushing m f = own flush done

  from_expired : (m : Shared) (f : Shutdown) → Returns m (expired_at f)
  from_expired m f = own stop (from_flushing _ f)

  from_selecting : (m : Shared) (f : Shutdown) → m.draining ≡ true → Returns m (selecting f)
  from_selecting m f h = tick h (own (select_timeout refl) (from_expired _ f))

  from_woken : (m : Shared) (f : Shutdown) → Returns m (woken f)
  from_woken m f = own go_drain (from_selecting _ f refl)

  from_waiting : (m : Shared) (f : Shutdown) → m.signal ≡ true → Returns m (waiting f)
  from_waiting m f h = own (wake h) (from_woken m f)

  seen-Returns :
      (m : Shared) (p : Pc)
      → Reach service o m p
      → m.signal ≡ true
      → SignalSeen service o p
      → Returns m p
  seen-Returns m starting r h seen = absurd seen
  seen-Returns m (built f) r h seen = absurd seen
  seen-Returns m (listening f) r h seen = absurd seen
  seen-Returns m (waiting f) r h seen = from_waiting m f h
  seen-Returns m (woken f) r h seen = from_woken m f
  seen-Returns m (selecting f) r h seen = from_selecting m f (reach-draining service o r)
  seen-Returns m (expired_at f) r h seen = from_expired m f
  seen-Returns m (flushing f) r h seen = from_flushing m f
  seen-Returns m (returned none) r h seen = done
  seen-Returns m (returned (some e)) r h seen = absurd seen

  -- From every moment at which a signal has arrived there is a way to the return of run with nil
  -- that takes steps of the main goroutine and the clock only: no call that hangs can keep run from
  -- its end, even if the server never finishes draining.
  pub signal-Returns : {m : Shared} {p : Pc} → Reach service o m p → m.signal ≡ true → Returns m p
  signal-Returns r h = seen-Returns _ _ r h (reach-SignalSeen service o r h)

  -- The most steps that the main goroutine still takes.
  abbrev pub steps_left : Pc → ℕ
  steps_left starting = 8
  steps_left (built f) = 7
  steps_left (listening f) = 6
  steps_left (waiting f) = 5
  steps_left (woken f) = 4
  steps_left (selecting f) = 3
  steps_left (expired_at f) = 2
  steps_left (flushing f) = 1
  steps_left (returned e) = 0

  steps_left-lt :
      {m m' : Shared} {p p' : Pc} → Move service o m p m' p' → steps_left p' < steps_left p
  steps_left-lt (init_fails h) = omega arith
  steps_left-lt (init_done h) = omega arith
  steps_left-lt (listen_fails h) = omega arith
  steps_left-lt (listen_done h) = omega arith
  steps_left-lt go_serve = omega arith
  steps_left-lt (wake h) = omega arith
  steps_left-lt go_drain = omega arith
  steps_left-lt (select_done h) = omega arith
  steps_left-lt (select_timeout h) = omega arith
  steps_left-lt stop = omega arith
  steps_left-lt flush = omega arith

  -- The steps of the main goroutine in a run.
  abbrev pub own_steps : {m : Shared} {p : Pc} → Reach service o m p → ℕ
  own_steps start = 0
  own_steps (later r (Step.own k)) = suc (own_steps r)
  own_steps (later r (beside e)) = own_steps r

  -- In every run, however long the other goroutines and the world go on, the main goroutine has taken
  -- at most 8 steps, less those that `steps_left` counts for where it stands: it never loops.
  own_steps-le : {m : Shared} {p : Pc} (r : Reach service o m p) → own_steps r + steps_left p ≤ 8
  own_steps-le start = omega arith
  own_steps-le (later r (Step.own k)) = omega (arith, own_steps-le r, steps_left-lt k)
  own_steps-le (later r (beside e)) = own_steps-le r
