-- ===== src/GrpcMain/Safety.antt =====
-- What holds of a main wherever it stands.
use micro_services.Base.{String, true, false, ◌≡◌, ◌⊎◌, inl, inr, none, some, arith, ◌≤◌}
use micro_services.Errors.{Error, err}
use micro_services.Otel.Init.{Shutdown}
use micro_services.GrpcMain.{
  Outside, Pc, starting, built, listening, waiting, woken, selecting, expired_at, flushing,
  returned, Shared, initialised, Move, init_fails, init_done, listen_fails, listen_done, go_serve,
  wake, go_drain, select_done, select_timeout, stop, flush, Event, interrupt, serve_fails, drain,
  deadline, own, beside, Reach, start, later,
}

-- Before the server serves.
abbrev Quiet : Shared → Type 0
Quiet m =
    (m.signal ≡ false)
    × (m.serving ≡ false)
    × (m.draining ≡ false)
    × (m.flushes ≡ 0)
    × (m.drained ≡ false)
    × (m.forced ≡ false)

-- The server is stopped: drained, or by force after the deadline.
abbrev pub Stopped : Shared → Type 0
Stopped m =
    (m.signal ≡ true)
    × (m.serving ≡ false)
    × ((m.drained ≡ true) ⊎ ((m.expired ≡ true) × (m.forced ≡ true)))

-- No stop by force before the deadline.
abbrev pub Patient : Shared → Type 0
Patient m = (m.forced ≡ false) ⊎ (m.expired ≡ true)

-- While the server drains: it serves until it has drained.
abbrev Draining : Shared → Type 0
Draining m =
    (m.signal ≡ true)
    × (m.draining ≡ true)
    × (m.flushes ≡ 0)
    × ((m.drained ≡ false) ⊎ (m.serving ≡ false))

module _ (service : String) (o : Outside) where
  -- Which error an early return carries.
  abbrev pub Failed : Error → Type 0
  Failed e = (initialised service o ≡ err e) ⊎ (o.listen_error ≡ some e)

  abbrev IsSound : Pc → Shared → Type 0
  IsSound starting m = Quiet m
  IsSound (built f) m = Quiet m
  IsSound (listening f) m = Quiet m
  IsSound (waiting f) m =
      (m.draining ≡ false) × (m.flushes ≡ 0) × (m.drained ≡ false) × (m.forced ≡ false)
  IsSound (woken f) m =
      (m.signal ≡ true)
      × (m.draining ≡ false)
      × (m.flushes ≡ 0)
      × (m.drained ≡ false)
      × (m.forced ≡ false)
  IsSound (selecting f) m = Draining m × (m.forced ≡ false)
  IsSound (expired_at f) m = Draining m × (m.expired ≡ true)
  IsSound (flushing f) m = Stopped m × (m.flushes ≡ 0) × Patient m
  IsSound (returned none) m = Stopped m × (m.flushes ≡ 1) × Patient m
  IsSound (returned (some e)) m = Quiet m × Failed e

  Move-IsSound :
      {m m' : Shared} {p p' : Pc} → Move service o m p m' p' → IsSound p m → IsSound p' m'
  Move-IsSound (init_fails h) s = (s, inl h)
  Move-IsSound (init_done h) s = s
  Move-IsSound (listen_fails h) s = (s, inr h)
  Move-IsSound (listen_done h) s = s
  Move-IsSound go_serve s = ground arith
  Move-IsSound (wake h) s = ground arith
  Move-IsSound go_drain s = ground arith
  Move-IsSound (select_done h) s = ground arith
  Move-IsSound (select_timeout h) s = ground arith
  Move-IsSound stop s = ground arith
  Move-IsSound flush s = ground arith

  unserved : (m : Shared) (p : Pc) → IsSound p m → IsSound p (record m { serving = false })
  unserved m starting s = ground arith
  unserved m (built f) s = ground arith
  unserved m (listening f) s = ground arith
  unserved m (waiting f) s = ground arith
  unserved m (woken f) s = ground arith
  unserved m (selecting f) s = ground arith
  unserved m (expired_at f) s = ground arith
  unserved m (flushing f) s = ground arith
  unserved m (returned none) s = ground arith
  unserved m (returned (some e)) s = ground arith

  drained_now :
      (m : Shared) (p : Pc)
      → m.draining ≡ true
      → IsSound p m
      → IsSound p (record m { serving = false; drained = true })
  drained_now m starting h s = ground arith
  drained_now m (built f) h s = ground arith
  drained_now m (listening f) h s = ground arith
  drained_now m (waiting f) h s = ground arith
  drained_now m (woken f) h s = ground arith
  drained_now m (selecting f) h s = ground arith
  drained_now m (expired_at f) h s = ground arith
  drained_now m (flushing f) h s = ground arith
  drained_now m (returned none) h s = ground arith
  drained_now m (returned (some e)) h s = ground arith

  expired_now :
      (m : Shared) (p : Pc)
      → m.draining ≡ true
      → IsSound p m
      → IsSound p (record m { expired = true })
  expired_now m starting h s = ground arith
  expired_now m (built f) h s = ground arith
  expired_now m (listening f) h s = ground arith
  expired_now m (waiting f) h s = ground arith
  expired_now m (woken f) h s = ground arith
  expired_now m (selecting f) h s = ground arith
  expired_now m (expired_at f) h s = ground arith
  expired_now m (flushing f) h s = ground arith
  expired_now m (returned none) h s = ground arith
  expired_now m (returned (some e)) h s = ground arith

  Event-IsSound : {m m' : Shared} {p : Pc} → Event service o m p m' → IsSound p m → IsSound p m'
  Event-IsSound interrupt s = ground arith
  Event-IsSound (serve_fails h) s = unserved _ _ s
  Event-IsSound (drain h) s = drained_now _ _ h s
  Event-IsSound (deadline h) s = expired_now _ _ h s

  Reach-IsSound : {m : Shared} {p : Pc} → Reach service o m p → IsSound p m
  Reach-IsSound start = ground arith
  Reach-IsSound (later r (own v)) = Move-IsSound v (Reach-IsSound r)
  Reach-IsSound (later r (beside v)) = Event-IsSound v (Reach-IsSound r)

  sound-Bounded : (m : Shared) (p : Pc) → IsSound p m → Patient m × (m.flushes ≤ 1)
  sound-Bounded m starting s = ground arith
  sound-Bounded m (built f) s = ground arith
  sound-Bounded m (listening f) s = ground arith
  sound-Bounded m (waiting f) s = ground arith
  sound-Bounded m (woken f) s = ground arith
  sound-Bounded m (selecting f) s = ground arith
  sound-Bounded m (expired_at f) s = ground arith
  sound-Bounded m (flushing f) s = ground arith
  sound-Bounded m (returned none) s = ground arith
  sound-Bounded m (returned (some e)) s = ground arith

  -- A main that a signal has reached stands at the wait for the signal, or further on.
  abbrev pub SignalSeen : Pc → Type 0
  SignalSeen starting = ⊥
  SignalSeen (built f) = ⊥
  SignalSeen (listening f) = ⊥
  SignalSeen (returned (some e)) = ⊥
  SignalSeen p = Unit

  sound-SignalSeen : (m : Shared) (p : Pc) → IsSound p m → m.signal ≡ true → SignalSeen p
  sound-SignalSeen m starting s h = ground arith
  sound-SignalSeen m (built f) s h = ground arith
  sound-SignalSeen m (listening f) s h = ground arith
  sound-SignalSeen m (waiting f) s h = ground arith
  sound-SignalSeen m (woken f) s h = ground arith
  sound-SignalSeen m (selecting f) s h = ground arith
  sound-SignalSeen m (expired_at f) s h = ground arith
  sound-SignalSeen m (flushing f) s h = ground arith
  sound-SignalSeen m (returned none) s h = ground arith
  sound-SignalSeen m (returned (some e)) s h = ground arith

  pub reach-SignalSeen :
      {m : Shared} {p : Pc} → Reach service o m p → m.signal ≡ true → SignalSeen p
  reach-SignalSeen r = sound-SignalSeen _ _ (Reach-IsSound r)

  -- While main selects, the server drains and the deadline runs.
  pub reach-draining :
      {m : Shared} {f : Shutdown} → Reach service o m (selecting f) → m.draining ≡ true
  reach-draining r = ground (arith, Reach-IsSound r)

  -- At every moment of every run: the server was not stopped by force before the deadline, and
  -- telemetry was flushed at most once.
  pub reach-Patient : {m : Shared} {p : Pc} → Reach service o m p → Patient m × (m.flushes ≤ 1)
  reach-Patient r = sound-Bounded _ _ (Reach-IsSound r)

  -- However the goroutines, the signal and the deadline interleave: where run has returned nil, a
  -- signal has arrived, the server no longer serves and was drained or else stopped after the
  -- deadline, and telemetry was flushed exactly once.
  pub returned_none-Stopped :
      {m : Shared} → Reach service o m (returned none) → Stopped m × (m.flushes ≡ 1)
  returned_none-Stopped r = let (stopped, once, _) = Reach-IsSound r in (stopped, once)

  -- Where run has returned an error, it is the one of Init or of Listen, the server never served, and
  -- telemetry was not flushed, not even where Init had started it.
  pub returned_some-Failed :
      {m : Shared} {e : Error}
      → Reach service o m (returned (some e))
      → Failed e × (m.serving ≡ false) × (m.flushes ≡ 0)
  returned_some-Failed r = ground (arith, Reach-IsSound r)
