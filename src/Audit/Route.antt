-- ===== src/Audit/Route.antt =====
-- modules/audit/src/route/server.go, with the registration of audit_grpc.pb.go and GRPCServerOption of
-- modules/shared/src/utilotel/grpc.go.
pub mod Calls
use micro_services.Base.{String, List, [], ◌∷◌, map}
use micro_services.Grpc.{Grpc, Protobuf, Interceptor}
use micro_services.Grpc.Serving.{Bound, ServerLib}
use micro_services.Audit.Interceptor.{logging, recovery}
use micro_services.Audit.Wire.{AuditRequest, AuditReply}
use micro_services.Audit.Server.{AuditServer, Decoder, MethodDesc, service_methods}

module _ {G : Grpc} {P : Protobuf} {Ctx App : Type 0}
    (L : ServerLib G Ctx (Decoder G P Ctx App) (AuditRequest P) (AuditReply P) App) where
  abbrev pub grpc_server_option : L.ServerOption
  grpc_server_option = L.stats_handler

  abbrev pub interceptors : List (Interceptor G Ctx (AuditRequest P) (AuditReply P) App)
  interceptors = logging G ∷ recovery G ∷ []

  -- The methods of the description with an implementation.
  abbrev pub bound_methods :
      AuditServer G P Ctx App
      → List (String × Bound G Ctx (Decoder G P Ctx App) (AuditRequest P) (AuditReply P) App)
  bound_methods srv =
      map (λ (d : MethodDesc G P Ctx App). (d.full_method_name, d.handler srv)) (service_methods G)

  abbrev pub register_audit_server : L.Server → AuditServer G P Ctx App → L.Server
  register_audit_server s srv = L.register (bound_methods srv) s

  -- NewServer
  unfoldable pub new_server : AuditServer G P Ctx App → L.Server
  new_server h =
      let s = L.new_server (grpc_server_option ∷ L.chain_unary_interceptor interceptors ∷ []) in
      let s' = register_audit_server s h in L.register_reflection (L.register_health s')
