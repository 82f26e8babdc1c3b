-- ===== src/Queue/Wire.antt =====
-- The values of the types `any` and proto.Message that pass between modules/queue/src/route/grpc/queue_grpc.pb.go and
-- the grpc library: one constructor for each message type of the service.
use micro_services.Grpc.{Protobuf}
use micro_services.Queue.Messages.AckRequest.{AckRequest}
use micro_services.Queue.Messages.ConsumeRequest.{ConsumeRequest}
use micro_services.Queue.Messages.ConsumeResponse.{ConsumeResponse}
use micro_services.Queue.Messages.CreateTopicRequest.{CreateTopicRequest}
use micro_services.Queue.Messages.PublishRequest.{PublishRequest}
use micro_services.Queue.Messages.PublishResponse.{PublishResponse}
use micro_services.Queue.Messages.Topic.{Topic}

pub data QueueRequest (P : Protobuf) : Type 0 where
  create_topic_request : CreateTopicRequest P → QueueRequest P
  publish_request : PublishRequest P → QueueRequest P
  consume_request : ConsumeRequest P → QueueRequest P
  ack_request : AckRequest → QueueRequest P

pub data QueueReply (P : Protobuf) : Type 0 where
  topic_reply : Topic P → QueueReply P
  publish_response_reply : PublishResponse → QueueReply P
  consume_response_reply : ConsumeResponse P → QueueReply P
  empty_reply : Unit {0} → QueueReply P
