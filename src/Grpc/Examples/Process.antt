-- ===== src/Grpc/Examples/Process.antt =====
-- A server inside the process: a list of methods, and the interceptors.
use micro_services.Base.{String, refl, Option, none, some, List, [], ◌∷◌, ◌++◌}
use micro_services.Grpc.{World, Outcome, returned, Interceptor}
use micro_services.Grpc.Serving.{Bound, ServerLib, IsServer, find_method}
use micro_services.Grpc.Examples.{code_unimplemented, statuses, nest, nest-IsChain}

module _ (Ctx Decode Req Resp App : Type 0) where
  pub data ServerOption : Type 0 where
    stats : ServerOption
    chained : List (Interceptor statuses Ctx Req Resp App) → ServerOption

  pub record Server : Type 0 where
    pub methods : List (String × Bound statuses Ctx Decode Req Resp App)
    pub interceptors : List (Interceptor statuses Ctx Req Resp App)

module _ {Ctx Decode Req Resp App : Type 0} where
  abbrev all_chained :
      List (ServerOption Ctx Decode Req Resp App) → List (Interceptor statuses Ctx Req Resp App)
  all_chained [] = []
  all_chained (stats ∷ os) = all_chained os
  all_chained (chained is ∷ os) = is ++ all_chained os

  abbrev add :
      List (String × Bound statuses Ctx Decode Req Resp App)
      → Server Ctx Decode Req Resp App
      → Server Ctx Decode Req Resp App
  add ms s = record s { methods = s.methods ++ ms }

  abbrev healthy : List (String × Bound statuses Ctx Decode Req Resp App)
  healthy = ("/grpc.health.v1.Health/Check", λ ctx dec i w. (returned none none, w)) ∷ []

  abbrev answer :
      Option (Bound statuses Ctx Decode Req Resp App)
      → Ctx
      → Decode
      → Interceptor statuses Ctx Req Resp App
      → World App
      → Outcome statuses.Err Resp × World App
  answer none ctx dec i w = (returned none (some (code_unimplemented, "unknown method")), w)
  answer (some b) ctx dec i w = b ctx dec (some i) w

abbrev pub process : (Ctx Decode Req Resp App : Type 0) → ServerLib statuses Ctx Decode Req Resp App
process Ctx Decode Req Resp App = record {
  ServerOption = ServerOption Ctx Decode Req Resp App;
  Server = Server Ctx Decode Req Resp App;
  stats_handler = stats;
  chain_unary_interceptor = chained;
  new_server = λ os. record { methods = []; interceptors = all_chained os };
  register = add;
  register_health = add healthy;
  register_reflection = add [];
  call = λ s name ctx dec w. answer (find_method name s.methods) ctx dec (nest s.interceptors) w;
}

abbrev pub process-IsServer :
    (Ctx Decode Req Resp App : Type 0) → IsServer (process Ctx Decode Req Resp App)
process-IsServer Ctx Decode Req Resp App = record {
  methods = λ s. s.methods;
  interceptors = λ s. s.interceptors;
  chain = nest;
  chain-IsChain = nest-IsChain;
  health = healthy;
  reflection = [];
  methods-new_server = λ os. refl;
  interceptors_nil = refl;
  interceptors-stats_handler = λ os. refl;
  interceptors-chain = λ is os. refl;
  methods-register = λ ms s. refl;
  methods-register_health = λ s. refl;
  methods-register_reflection = λ s. refl;
  interceptors-register = λ ms s. refl;
  interceptors-register_health = λ s. refl;
  interceptors-register_reflection = λ s. refl;
  call_method = λ s name b ctx dec w h. rw h refl;
}
