-- ===== src/Grpc.antt =====
-- google.golang.org/grpc and log/slog, as the services use them: errors and codes are a parameter,
-- handlers and interceptors are functions on a world that holds the clock and the log.
pub mod Serving
pub mod Examples
use micro_services.Base.{ℕ, String, ◌≡◌, ◌≢◌, Option, none, some, List, [], ◌∷◌, ◌++◌}

-- Errors with their status codes: packages status and codes.
pub record Grpc : Type 1 where
  pub Err : Type 0
  pub Code : Type 0
  pub code_ok : Code
  pub code_internal : Code
  pub code_unimplemented : Code
  pub code_string : Code → String
  -- status.Error
  pub status_error : Code → String → Err
  -- The code of the status that status.FromError gives for an error or for nil.
  pub code_of : Option Err → Code
  -- What a client gets of an error that a handler returned: a status made of what was sent; an error
  -- without a status becomes one.
  pub transmitted : Err → Err

-- A status other than OK arrives as it is.
pub record IsWire (G : Grpc) : Type 0 where
  pub internal_ne_ok : G.code_internal ≢ G.code_ok
  pub unimplemented_ne_ok : G.code_unimplemented ≢ G.code_ok
  pub transmitted-status_error :
      (c : G.Code) (m : String)
      → c ≢ G.code_ok
      → G.transmitted (G.status_error c m) ≡ G.status_error c m

pub data Level : Type 0 where
  info warn error : Level

-- The values of log attributes: a text, a number, a goroutine's stack, and a value of any other type.
pub data Attr : Type 0 where
  text : String → Attr
  number : ℕ → Attr
  stack : Attr
  go_value : (type_name shown : String) → Attr

pub record LogRecord : Type 0 where
  pub level : Level
  pub msg : String
  pub attrs : List (String × Attr)

-- The clock counts nanoseconds; `app` is the state of the code that handles the calls.
pub record World (App : Type 0) : Type 0 where
  pub now : ℕ
  pub log : List LogRecord
  pub app : App

abbrev pub emit : {App : Type 0} → LogRecord → World App → World App
emit r w = record w { log = w.log ++ r ∷ [] }

-- How a call of a Go function with the results (R, error) ends; nil is `none`. A panic
-- carries any value, which is kept as the log takes it.
pub data Outcome (E R : Type 0) : Type 0 where
  returned : Option R → Option E → Outcome E R
  panicked : Attr → Outcome E R

-- UnaryHandler and UnaryServerInterceptor. Of UnaryServerInfo only FullMethod is used.
module _ (G : Grpc) (Ctx Req Resp App : Type 0) where
  abbrev pub UnaryHandler : Type 0
  UnaryHandler = Ctx → Req → World App → Outcome G.Err Resp × World App

  abbrev pub Interceptor : Type 0
  Interceptor = Ctx → Req → String → UnaryHandler → World App → Outcome G.Err Resp × World App

  -- ChainUnaryInterceptor: the first interceptor is the outermost, the last one wraps the real call.
  pub record IsChain (chain : List Interceptor → Interceptor) : Type 0 where
    pub chain-nil :
        (ctx : Ctx) (req : Req) (method : String) (h : UnaryHandler) (w : World App)
        → chain [] ctx req method h w ≡ h ctx req w
    pub chain-cons :
        (i : Interceptor) (rest : List Interceptor) (ctx : Ctx) (req : Req) (method : String)
        (h : UnaryHandler) (w : World App)
        → chain (i ∷ rest) ctx req method h w ≡ i ctx req method (λ c r. chain rest c r method h) w

-- google.golang.org/protobuf: the well-known types that the messages hold.
pub record Protobuf : Type 1 where
  pub Timestamp : Type 0
  pub Duration : Type 0
