-- ===== src/GrpcClient/Logging.antt =====
-- modules/shared/src/utilgrpc/interceptor.go
use micro_services.Base.{ℕ, String, ◌-◌, ◌/◌, ◌≡◌, ap, Option, [], ◌∷◌}
use micro_services.Grpc.{
  Grpc, info, text, number, LogRecord, World, emit, Outcome, returned, panicked,
}

-- A UnaryInvoker fills the reply and returns an error; the reply is the result here. `target` is what
-- the connection's Target gives.
abbrev pub Invoker : Grpc → (Ctx Req Reply App : Type 0) → Type 0
Invoker G Ctx Req Reply App = Ctx → String → Req → World App → Outcome G.Err Reply × World App

module _ (G : Grpc) where
  abbrev pub out_record : (method target : String) → Option G.Err → (start end_ : ℕ) → LogRecord
  out_record method target err start end_ = record {
    level = info;
    msg = "grpc call";
    attrs =
        ("direction", text "out")
        ∷ ("method", text method)
        ∷ ("target", text target)
        ∷ ("code", text (G.code_string (G.code_of err)))
        ∷ ("duration_ms", number ((end_ - start) / 1000000))
        ∷ [];
  }

  abbrev log_out :
      {Reply App : Type 0}
      → (method target : String) → ℕ
      → Outcome G.Err Reply × World App
      → Outcome G.Err Reply × World App
  log_out method target start (returned reply err, w) =
      (returned reply err, emit (out_record method target err start w.now) w)
  log_out method target start (panicked p, w) = (panicked p, w)

  unfoldable pub logging_interceptor :
      {Ctx Req Reply App : Type 0}
      → (target : String) → Invoker G Ctx Req Reply App
      → Invoker G Ctx Req Reply App
  logging_interceptor target invoker ctx method req w =
      log_out method target w.now (invoker ctx method req w)

  -- The client's interceptor changes neither the reply nor the error nor the caller's state of a call
  -- that returns, and adds exactly one line to the log, with the code of the error.
  logging_interceptor_lem :
      {Ctx Req Reply App : Type 0} (target : String) (invoker : Invoker G Ctx Req Reply App)
      (ctx : Ctx) (method : String) (req : Req) (w w' : World App) (reply : Option Reply)
      (err : Option G.Err)
      → invoker ctx method req w ≡ (returned reply err, w')
      → logging_interceptor target invoker ctx method req w
        ≡ (returned reply err, emit (out_record method target err w.now w'.now) w')
  unfolding logging_interceptor
  logging_interceptor_lem target invoker ctx method req w w' reply err h =
      ap (log_out method target w.now) h
