-- ===== src/Queue/Route.antt =====
-- modules/queue/src/route/server.go, with the registration of queue_grpc.pb.go and GRPCServerOption of
-- modules/shared/src/utilotel/grpc.go.
pub mod Calls
use micro_services.Base.{String, List, [], ◌∷◌, map}
use micro_services.Grpc.{Grpc, Protobuf, Interceptor}
use micro_services.Grpc.Serving.{Bound, ServerLib}
use micro_services.Queue.Interceptor.{logging, recovery}
use micro_services.Queue.Wire.{QueueRequest, QueueReply}
use micro_services.Queue.Server.{QueueServer, Decoder, MethodDesc, service_methods}

module _ {G : Grpc} {P : Protobuf} {Ctx App : Type 0}
    (L : ServerLib G Ctx (Decoder G P Ctx App) (QueueRequest P) (QueueReply P) App) where
  abbrev pub grpc_server_option : L.ServerOption
  grpc_server_option = L.stats_handler

  abbrev pub interceptors : List (Interceptor G Ctx (QueueRequest P) (QueueReply P) App)
  interceptors = logging G ∷ recovery G ∷ []

  -- The methods of the description with an implementation.
  abbrev pub bound_methods :
      QueueServer G P Ctx App
      → List (String × Bound G Ctx (Decoder G P Ctx App) (QueueRequest P) (QueueReply P) App)
  bound_methods srv =
      map (λ (d : MethodDesc G P Ctx App). (d.full_method_name, d.handler srv)) (service_methods G)

  abbrev pub register_queue_server : L.Server → QueueServer G P Ctx App → L.Server
  register_queue_server s srv = L.register (bound_methods srv) s

  -- NewServer
  unfoldable pub new_server : QueueServer G P Ctx App → L.Server
  new_server h =
      let s = L.new_server (grpc_server_option ∷ L.chain_unary_interceptor interceptors ∷ []) in
      let s' = register_queue_server s h in L.register_reflection (L.register_health s')
