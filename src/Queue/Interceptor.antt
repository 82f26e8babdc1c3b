-- ===== src/Queue/Interceptor.antt =====
-- modules/queue/src/route/interceptor
pub mod Same
use micro_services.Base.{ℕ, String, ◌-◌, ◌/◌, Option, none, some, [], ◌∷◌}
use micro_services.Grpc.{
  Grpc, info, error, text, number, stack, LogRecord, Attr, World, emit, Outcome, returned, panicked,
  UnaryHandler, Interceptor,
}

module _ (G : Grpc) where
  -- The line of a finished call; the clock's readings are in nanoseconds.
  abbrev pub call_record : String → Option G.Err → (start end_ : ℕ) → LogRecord
  call_record method err start end_ = record {
    level = info;
    msg = "grpc call";
    attrs =
        ("method", text method)
        ∷ ("code", text (G.code_string (G.code_of err)))
        ∷ ("duration_ms", number ((end_ - start) / 1000000))
        ∷ [];
  }

  abbrev pub panic_record : String → Attr → LogRecord
  panic_record method r = record {
    level = error;
    msg = "panic recovered";
    attrs = ("method", text method) ∷ ("panic", r) ∷ ("stack", stack) ∷ [];
  }

module _ (G : Grpc) {Resp App : Type 0} where
  abbrev pub log_call : String → ℕ → Outcome G.Err Resp × World App → Outcome G.Err Resp × World App
  log_call method start (returned resp err, w) =
      (returned resp err, emit (call_record G method err start w.now) w)
  log_call method start (panicked p, w) = (panicked p, w)

  -- The deferred function.
  abbrev pub recover : String → Outcome G.Err Resp × World App → Outcome G.Err Resp × World App
  recover method (returned resp err, w) = (returned resp err, w)
  recover method (panicked r, w) = (
    returned none (some (G.status_error G.code_internal "internal server error")),
    emit (panic_record G method r) w,
  )

module _ (G : Grpc) {Ctx Req Resp App : Type 0} where
  unfoldable pub logging : Interceptor G Ctx Req Resp App
  logging ctx req method handler w = log_call G method w.now (handler ctx req w)

  unfoldable pub recovery : Interceptor G Ctx Req Resp App
  recovery ctx req method handler w = recover G method (handler ctx req w)
