-- ===== src/Audit/Main.antt =====
-- modules/audit/src/cmd/api/main.go: the run of the main, and the server that it serves.
use micro_services.Grpc.{Grpc, Protobuf}
use micro_services.Grpc.Serving.{ServerLib}
use micro_services.GrpcMain.{Outside, Shared, Pc, Reach}
use micro_services.Audit.Wire.{AuditRequest, AuditReply}
use micro_services.Audit.Server.{Decoder, new_handler}
use micro_services.Audit.Route.{new_server}

-- Where the main and what it shares can be.
abbrev pub AuditRun : Outside → Shared → Pc → Type 0
AuditRun = Reach "audit-api"

module _ {G : Grpc} {P : Protobuf} {Ctx App : Type 0}
    (L : ServerLib G Ctx (Decoder G P Ctx App) (AuditRequest P) (AuditReply P) App) where
  abbrev pub audit_server : L.Server
  audit_server = new_server L (new_handler G P)
