-- ===== src/Queue/Main.antt =====
-- modules/queue/src/cmd/api/main.go: the run of the main, and the server that it serves.
use micro_services.Grpc.{Grpc, Protobuf}
use micro_services.Grpc.Serving.{ServerLib}
use micro_services.GrpcMain.{Outside, Shared, Pc, Reach}
use micro_services.Queue.Wire.{QueueRequest, QueueReply}
use micro_services.Queue.Server.{Decoder, new_handler}
use micro_services.Queue.Route.{new_server}

-- Where the main and what it shares can be.
abbrev pub QueueRun : Outside → Shared → Pc → Type 0
QueueRun = Reach "queue-api"

module _ {G : Grpc} {P : Protobuf} {Ctx App : Type 0}
    (L : ServerLib G Ctx (Decoder G P Ctx App) (QueueRequest P) (QueueReply P) App) where
  abbrev pub queue_server : L.Server
  queue_server = new_server L (new_handler G P)
