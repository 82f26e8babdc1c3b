-- ===== src/Grpc/Examples.antt =====
-- Concrete status codes and a concrete chain of interceptors, for the runs of both services.
pub mod Process
use micro_services.Base.{ℕ, String, refl, Option, none, some, List, [], ◌∷◌}
use micro_services.Grpc.{
  Grpc, World, text, panicked, UnaryHandler, Interceptor, IsChain, IsWire, Protobuf,
}

pub data Code : Type 0 where
  code_ok code_internal code_unimplemented code_unavailable : Code

abbrev shown : Code → String
shown code_ok = "OK"
shown code_internal = "Internal"
shown code_unimplemented = "Unimplemented"
shown code_unavailable = "Unavailable"

abbrev status_code : Option (Code × String) → Code
status_code none = code_ok
status_code (some (c, m)) = c

-- A status is its code with its message.
abbrev pub statuses : Grpc
statuses = record {
  Err = Code × String;
  Code = Code;
  code_ok = code_ok;
  code_internal = code_internal;
  code_unimplemented = code_unimplemented;
  code_string = shown;
  status_error = λ c m. (c, m);
  code_of = status_code;
  transmitted = λ e. e;
}

-- Here every error is a status.
pub statuses-IsWire : IsWire statuses
statuses-IsWire = record {
  internal_ne_ok = λ e. cc;
  unimplemented_ne_ok = λ e. cc;
  transmitted-status_error = λ c m ne. refl;
}

module _ {Ctx Req Resp App : Type 0} where
  abbrev pub nest :
      List (Interceptor statuses Ctx Req Resp App) → Interceptor statuses Ctx Req Resp App
  nest [] ctx req method h w = h ctx req w
  nest (i ∷ rest) ctx req method h w = i ctx req method (λ c r. nest rest c r method h) w

  pub nest-IsChain : IsChain statuses Ctx Req Resp App nest
  nest-IsChain = record {
    chain-nil = λ ctx req method h w. refl;
    chain-cons = λ i rest ctx req method h w. refl;
  }

-- Seconds for the well-known types.
abbrev pub seconds : Protobuf
seconds = record { Timestamp = ℕ; Duration = ℕ }

-- The clock at the start, with an empty log; the state of the application counts its calls.
abbrev pub morning : World ℕ
morning = record { now = 5000000; log = []; app = 0 }

-- A handler that takes two milliseconds, and then panics.
abbrev pub crash : {Req Resp : Type 0} → UnaryHandler statuses String Req Resp ℕ
crash ctx req w = (panicked (text "nil map"), record w { now = 7000000; app = 1 })
