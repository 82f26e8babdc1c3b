-- ===== src/Audit/QueueClient.antt =====
-- modules/audit/src/infra/queueclient/client.go, with GRPCClientOption of
-- modules/shared/src/utilotel/grpc.go.
pub mod Connection
pub mod Connected
pub mod EndToEnd
mod Tests
use micro_services.Base.{String, Option, [], List, ◌∷◌}
use micro_services.Errors.{Result, ok, err}
use micro_services.Grpc.{Grpc, Protobuf, World}
use micro_services.GrpcClient.{Dialer, DialSetting, with_dial_option, dial}
use micro_services.Queue.Client.{
  ClientConn, create_topic as stub_create_topic, publish as stub_publish, consume as stub_consume,
  ack as stub_ack,
}
use micro_services.Queue.Messages.Topic.{Topic}
use micro_services.Queue.Messages.CreateTopicRequest.{CreateTopicRequest}
use micro_services.Queue.Messages.PublishRequest.{PublishRequest}
use micro_services.Queue.Messages.PublishResponse.{PublishResponse}
use micro_services.Queue.Messages.ConsumeRequest.{ConsumeRequest}
use micro_services.Queue.Messages.ConsumeResponse.{ConsumeResponse}
use micro_services.Queue.Messages.AckRequest.{AckRequest}

-- The gRPC library on the client's side: its connections, as the generated stub uses them and with
-- Close, and the option WithStatsHandler(otelgrpc.NewClientHandler()).
pub record Connector (G : Grpc) (P : Protobuf) (Ctx App : Type 0) : Type 1 where
  pub dialer : Dialer
  pub connection : dialer.ClientConn → ClientConn G P Ctx App
  pub close : dialer.ClientConn → World App → Option G.Err × World App
  pub stats_handler : dialer.DialOption

module _ {G : Grpc} {P : Protobuf} {Ctx App : Type 0} (N : Connector G P Ctx App) where
  abbrev pub grpc_client_option : DialSetting N.dialer
  grpc_client_option = with_dial_option N.dialer (N.stats_handler ∷ [])

  -- The stub is the connection itself.
  pub record Client : Type 0 where
    pub conn : N.dialer.ClientConn

  abbrev pub connected : Result N.dialer.ClientConn → Result Client
  connected (err e) = err e
  connected (ok conn) = ok (record { conn = conn })

  unfoldable pub new : String → List (DialSetting N.dialer) → Result Client
  new addr opts = connected (dial N.dialer addr (grpc_client_option ∷ opts))

  unfoldable pub close : Client → World App → Option G.Err × World App
  close c = N.close c.conn

  unfoldable pub create_topic :
      Client
      → Ctx
      → CreateTopicRequest P
      → World App
      → (Option (Topic P) × Option G.Err) × World App
  create_topic c ctx req = stub_create_topic G (N.connection c.conn) ctx req []

  unfoldable pub publish :
      Client
      → Ctx
      → PublishRequest P
      → World App
      → (Option (PublishResponse) × Option G.Err) × World App
  publish c ctx req = stub_publish G (N.connection c.conn) ctx req []

  unfoldable pub consume :
      Client
      → Ctx
      → ConsumeRequest P
      → World App
      → (Option (ConsumeResponse P) × Option G.Err) × World App
  consume c ctx req = stub_consume G (N.connection c.conn) ctx req []

  -- The empty reply is dropped.
  unfoldable pub ack : Client → Ctx → AckRequest → World App → Option G.Err × World App
  ack c ctx req w = let ((reply, e), w') = stub_ack G (N.connection c.conn) ctx req [] w in (e, w')
