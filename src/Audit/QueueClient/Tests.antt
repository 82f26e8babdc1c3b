-- ===== src/Audit/QueueClient/Tests.antt =====
-- A client of the queue over a connection that is lost, and over one inside the process.
use micro_services.Base.{ℕ, String, ◌≡◌, refl, none, some, List, []}
use micro_services.Errors.{ok}
use micro_services.Grpc.{returned}
use micro_services.Grpc.Examples.{
  code_unavailable, code_internal, statuses, statuses-IsWire, seconds, morning, crash,
}
use micro_services.Grpc.Examples.Process.{process, process-IsServer}
use micro_services.Grpc.Serving.{ServerLib, IsServer}
use micro_services.GrpcClient.{Dialer}
use micro_services.Queue.Client.{ClientConn, ack as stub_ack}
use micro_services.Queue.Messages.CreateTopicRequest
use micro_services.Queue.Messages.CreateTopicRequest.{CreateTopicRequest}
use micro_services.Queue.Messages.Topic
use micro_services.Queue.Messages.PublishRequest
use micro_services.Queue.Messages.ConsumeRequest
use micro_services.Queue.Wire.{QueueRequest, QueueReply}
use micro_services.Queue.Server.{
  QueueServer, Decoder, new_handler, create_topic_full_method_name, publish_full_method_name,
  consume_full_method_name, ack_full_method_name,
}
use micro_services.Queue.Route.{new_server}
use micro_services.Audit.QueueClient.{Connector, Client, create_topic, publish, consume, ack}
use micro_services.Audit.QueueClient.Connected.{decoder_of, delivered, seen}
use micro_services.Audit.QueueClient.EndToEnd.{client_calls-seen}

data Named : Type 0 where
  insecure stats : Named
  chained : List String → Named

abbrev dialer : Dialer
dialer = record {
  UnaryInterceptor = String;
  StreamInterceptor = String;
  DialOption = Named;
  ClientConn = String × List Named;
  insecure_transport = insecure;
  with_chain_unary = chained;
  with_chain_stream = chained;
  new_client = λ addr opts. ok (addr, opts);
}

abbrev lost : ClientConn statuses seconds String ℕ
lost = record {
  CallOption = ℕ;
  static_method = 0;
  invoke = λ ctx method req out opts w. ((some (code_unavailable, "no connection"), out), w);
}

abbrev connector : Connector statuses seconds String ℕ
connector = record {
  dialer = dialer;
  connection = λ conn. lost;
  close = λ conn w. (none, w);
  stats_handler = stats;
}

ack_lost :
    ack connector (record { conn = ("queue:8080", []) }) "ctx" (record { lease_id = "l1" }) morning
    ≡ (some (code_unavailable, "no connection"), morning)
unfolding ack stub_ack
ack_lost = refl

abbrev Reply : Type 0
Reply = QueueReply seconds

abbrev QueueDecoder : Type 0
QueueDecoder = Decoder statuses seconds String ℕ

abbrev in_process : ServerLib statuses String QueueDecoder (QueueRequest seconds) Reply ℕ
in_process = process String QueueDecoder (QueueRequest seconds) Reply ℕ

abbrev in_process-IsServer : IsServer in_process
in_process-IsServer = process-IsServer String QueueDecoder (QueueRequest seconds) Reply ℕ

-- A connection inside the process, to the server of an implementation.
abbrev inside : QueueServer statuses seconds String ℕ → ClientConn statuses seconds String ℕ
inside srv = record {
  CallOption = ℕ;
  static_method = 0;
  invoke = λ ctx name req out opts w.
      delivered statuses out
        (in_process.call (new_server in_process srv) name ctx (decoder_of req) w);
}

abbrev scaffold : QueueServer statuses seconds String ℕ
scaffold = new_handler statuses seconds

-- Creates every topic, and panics on Ack.
abbrev half_done : QueueServer statuses seconds String ℕ
half_done = record scaffold {
  create_topic = λ ctx req w.
      (returned (some (record Topic.zero_value { name = req.name })) none, record w { app = 1 });
  ack = crash;
}

abbrev to : QueueServer statuses seconds String ℕ → Connector statuses seconds String ℕ
to srv = record connector { connection = λ conn. inside srv }

abbrev client : (srv : QueueServer statuses seconds String ℕ) → Client (to srv)
client srv = record { conn = ("queue:8080", []) }

abbrev orders : CreateTopicRequest seconds
orders = record CreateTopicRequest.zero_value { name = "orders" }

client_calls-seen_example :
    (create_topic (to half_done) (client half_done) "ctx" orders morning
      ≡ seen statuses create_topic_full_method_name 5000000
          (half_done.create_topic "ctx" orders morning))
    × (publish (to half_done) (client half_done) "ctx" PublishRequest.zero_value morning
        ≡ seen statuses publish_full_method_name 5000000
            (half_done.publish "ctx" PublishRequest.zero_value morning))
    × (consume (to half_done) (client half_done) "ctx" ConsumeRequest.zero_value morning
        ≡ seen statuses consume_full_method_name 5000000
            (half_done.consume "ctx" ConsumeRequest.zero_value morning))
    × (ack (to half_done) (client half_done) "ctx" (record { lease_id = "l1" }) morning ≡ (
      some (code_internal, "internal server error"),
      (seen statuses ack_full_method_name 5000000
          (half_done.ack "ctx" (record { lease_id = "l1" }) morning)).1,
    ))
unfolding new_handler
client_calls-seen_example =
    client_calls-seen (to half_done) (client half_done) statuses-IsWire in_process
      in_process-IsServer half_done (λ name ctx req out opts w h. refl) "ctx" morning orders
      PublishRequest.zero_value ConsumeRequest.zero_value (record { lease_id = "l1" }) tt tt tt tt
