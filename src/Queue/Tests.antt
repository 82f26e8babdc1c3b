-- ===== src/Queue/Tests.antt =====
-- Calls of the queue service through its interceptors, and the theorems at concrete data.
use micro_services.Base.{none}
use micro_services.Audit.Interceptor.Chain.{observed}
use micro_services.Grpc.Examples.{morning}
use micro_services.Queue.Route.Calls.{EachCall, queue_server-observed}
use micro_services.Grpc.Examples.{crash}
use micro_services.Grpc.Serving.{ServerLib, IsServer}
use micro_services.Grpc.Examples.Process.{process, process-IsServer}
use micro_services.Queue.Wire.{QueueRequest, QueueReply}
use micro_services.Base.{ℕ, String, refl, List, [], ◌∷◌}
use micro_services.Grpc.{Interceptor}
use micro_services.Grpc.Examples.{code_unavailable, statuses, seconds}
use micro_services.Queue.Interceptor.{logging, recovery}
use micro_services.Queue.Messages.CreateTopicRequest
use micro_services.Queue.Messages.PublishRequest
use micro_services.Queue.Messages.ConsumeRequest
use micro_services.Queue.Messages.AckRequest
use micro_services.Queue.Server.{QueueServer, Decoder, decoded, malformed, new_handler}
use micro_services.Queue.Server.Calls.{Decodes}

abbrev installed : {Req Resp : Type 0} → List (Interceptor statuses String Req Resp ℕ)
installed = logging statuses ∷ recovery statuses ∷ []

abbrev good : Decoder statuses seconds String ℕ
good = record {
  create_topic = decoded CreateTopicRequest.zero_value;
  publish = decoded PublishRequest.zero_value;
  consume = decoded ConsumeRequest.zero_value;
  ack = decoded AckRequest.zero_value;
}

abbrev good_decodes : Decodes good
good_decodes = record {
  create_topic_request = CreateTopicRequest.zero_value;
  create_topic_decoded = refl;
  publish_request = PublishRequest.zero_value;
  publish_decoded = refl;
  consume_request = ConsumeRequest.zero_value;
  consume_decoded = refl;
  ack_request = AckRequest.zero_value;
  ack_decoded = refl;
}

abbrev cut : Decoder statuses seconds String ℕ
cut = record {
  create_topic = malformed (code_unavailable, "cut off");
  publish = malformed (code_unavailable, "cut off");
  consume = malformed (code_unavailable, "cut off");
  ack = malformed (code_unavailable, "cut off");
}

abbrev server : QueueServer statuses seconds String ℕ
server = new_handler statuses seconds

-- An implementation of one method, which panics.
abbrev half_done : QueueServer statuses seconds String ℕ
half_done = record server { ack = crash }

abbrev in_process :
    ServerLib statuses String
      (Decoder statuses seconds String ℕ)
      (QueueRequest seconds)
      (QueueReply seconds)
      ℕ
in_process =
    process String (Decoder statuses seconds String ℕ) (QueueRequest seconds) (QueueReply seconds) ℕ

abbrev in_process-IsServer : IsServer in_process
in_process-IsServer =
    process-IsServer String (Decoder statuses seconds String ℕ) (QueueRequest seconds)
      (QueueReply seconds) ℕ

queue_server-observed_example :
    EachCall in_process in_process-IsServer "ctx" good morning half_done (λ d.
      observed statuses d.full_method_name 5000000 (d.handler half_done "ctx" good none morning))
queue_server-observed_example =
    queue_server-observed in_process in_process-IsServer "ctx" good morning half_done good_decodes
