-- ===== src/Queue/Client.antt =====
-- modules/queue/src/route/grpc/queue_grpc.pb.go: the client side.
use micro_services.Base.{String, Option, none, some, List, ◌∷◌}
use micro_services.Grpc.{Grpc, Protobuf, World}
use micro_services.Queue.Messages.AckRequest.{AckRequest}
use micro_services.Queue.Messages.ConsumeRequest.{ConsumeRequest}
use micro_services.Queue.Messages.ConsumeResponse.{ConsumeResponse}
use micro_services.Queue.Messages.CreateTopicRequest.{CreateTopicRequest}
use micro_services.Queue.Messages.PublishRequest.{PublishRequest}
use micro_services.Queue.Messages.PublishResponse.{PublishResponse}
use micro_services.Queue.Messages.Topic.{Topic}
use micro_services.Queue.Wire.{
  QueueRequest, QueueReply, create_topic_request, publish_request, consume_request, ack_request,
  topic_reply, publish_response_reply, consume_response_reply, empty_reply,
}
use micro_services.Queue.Server.{
  create_topic_full_method_name, publish_full_method_name, consume_full_method_name,
  ack_full_method_name,
}
use micro_services.Queue.Messages.ConsumeResponse
use micro_services.Queue.Messages.PublishResponse
use micro_services.Queue.Messages.Topic

-- grpc.ClientConnInterface. Invoke fills the message that it is given, and keeps its type.
pub record ClientConn (G : Grpc) (P : Protobuf) (Ctx App : Type 0) : Type 1 where
  pub CallOption : Type 0
  pub static_method : CallOption
  pub invoke :
      Ctx
      → String
      → QueueRequest P
      → QueueReply P
      → List CallOption
      → World App
      → (Option G.Err × QueueReply P) × World App

abbrev pub as_topic : {P : Protobuf} → QueueReply P → Option (Topic P)
as_topic (topic_reply x) = some x
as_topic _ = none

abbrev pub as_publish_response : {P : Protobuf} → QueueReply P → Option (PublishResponse)
as_publish_response (publish_response_reply x) = some x
as_publish_response _ = none

abbrev pub as_consume_response : {P : Protobuf} → QueueReply P → Option (ConsumeResponse P)
as_consume_response (consume_response_reply x) = some x
as_consume_response _ = none

abbrev pub as_empty : {P : Protobuf} → QueueReply P → Option (Unit {0})
as_empty (empty_reply x) = some x
as_empty _ = none

module _ (G : Grpc) {P : Protobuf} {App : Type 0} where
  -- The error discards the message.
  abbrev pub answered :
      {B : Type 0}
      → (QueueReply P → Option B)
      → (Option G.Err × QueueReply P) × World App
      → (Option B × Option G.Err) × World App
  answered from_reply ((some err, out), w) = ((none, some err), w)
  answered from_reply ((none, out), w) = ((from_reply out, none), w)

module _ (G : Grpc) {P : Protobuf} {Ctx App : Type 0} where
  unfoldable pub create_topic :
      (cc : ClientConn G P Ctx App)
      → Ctx
      → CreateTopicRequest P
      → List cc.CallOption
      → World App
      → (Option (Topic P) × Option G.Err) × World App
  create_topic cc ctx req opts w = answered G as_topic (
      cc.invoke ctx create_topic_full_method_name (create_topic_request req)
        (topic_reply Topic.zero_value) (cc.static_method ∷ opts) w)

  unfoldable pub publish :
      (cc : ClientConn G P Ctx App)
      → Ctx
      → PublishRequest P
      → List cc.CallOption
      → World App
      → (Option (PublishResponse) × Option G.Err) × World App
  publish cc ctx req opts w = answered G as_publish_response (
      cc.invoke ctx publish_full_method_name (publish_request req)
        (publish_response_reply PublishResponse.zero_value) (cc.static_method ∷ opts) w)

  unfoldable pub consume :
      (cc : ClientConn G P Ctx App)
      → Ctx
      → ConsumeRequest P
      → List cc.CallOption
      → World App
      → (Option (ConsumeResponse P) × Option G.Err) × World App
  consume cc ctx req opts w = answered G as_consume_response (
      cc.invoke ctx consume_full_method_name (consume_request req)
        (consume_response_reply ConsumeResponse.zero_value) (cc.static_method ∷ opts) w)

  unfoldable pub ack :
      (cc : ClientConn G P Ctx App)
      → Ctx
      → AckRequest
      → List cc.CallOption
      → World App
      → (Option (Unit {0}) × Option G.Err) × World App
  ack cc ctx req opts w = answered G as_empty (
      cc.invoke ctx ack_full_method_name (ack_request req) (empty_reply tt)
        (cc.static_method ∷ opts) w)
