-- ===== src/Queue/Server.antt =====
-- modules/queue/src/route/grpc/queue_grpc.pb.go: the server side, with
-- modules/queue/src/route/handler.go. The streams of the description are empty.
pub mod Calls
use mathlib.Core.Option
use micro_services.Base.{String, Option, none, some, List, [], ◌∷◌, ◌<>◌}
use micro_services.Grpc.{
  text, Grpc, Protobuf, World, Outcome, returned, panicked, Interceptor, UnaryHandler,
}
use micro_services.Queue.Messages.AckRequest.{AckRequest}
use micro_services.Queue.Messages.ConsumeRequest.{ConsumeRequest}
use micro_services.Queue.Messages.ConsumeResponse.{ConsumeResponse}
use micro_services.Queue.Messages.CreateTopicRequest.{CreateTopicRequest}
use micro_services.Queue.Messages.PublishRequest.{PublishRequest}
use micro_services.Queue.Messages.PublishResponse.{PublishResponse}
use micro_services.Queue.Messages.Topic.{Topic}
use micro_services.Queue.Wire.{
  QueueRequest, QueueReply, create_topic_request, publish_request, consume_request, ack_request,
  topic_reply, publish_response_reply, consume_response_reply, empty_reply,
}

abbrev pub create_topic_full_method_name : String
create_topic_full_method_name = "/queue.v1.Queue/CreateTopic"

abbrev pub publish_full_method_name : String
publish_full_method_name = "/queue.v1.Queue/Publish"

abbrev pub consume_full_method_name : String
consume_full_method_name = "/queue.v1.Queue/Consume"

abbrev pub ack_full_method_name : String
ack_full_method_name = "/queue.v1.Queue/Ack"

-- What decoding a request gives: an error, or the message.
pub data Decoded (E A : Type 0) : Type 0 where
  malformed : E → Decoded E A
  decoded : A → Decoded E A

module _ (G : Grpc) (P : Protobuf) (Ctx App : Type 0) where
  abbrev pub Method : Type 0 → Type 0 → Type 0
  Method A B = Ctx → A → World App → Outcome G.Err B × World App

  pub record QueueServer : Type 0 where
    pub create_topic : Method (CreateTopicRequest P) (Topic P)
    pub publish : Method (PublishRequest P) (PublishResponse)
    pub consume : Method (ConsumeRequest P) (ConsumeResponse P)
    pub ack : Method (AckRequest) (Unit {0})

  -- The function dec of a call, at the type of the message that it is given.
  pub record Decoder : Type 0 where
    pub create_topic : Decoded G.Err (CreateTopicRequest P)
    pub publish : Decoded G.Err (PublishRequest P)
    pub consume : Decoded G.Err (ConsumeRequest P)
    pub ack : Decoded G.Err (AckRequest)

  -- A function of the description; `none` is the nil interceptor.
  abbrev pub MethodHandler : Type 0
  MethodHandler =
      QueueServer
      → Ctx
      → Decoder
      → Option (Interceptor G Ctx (QueueRequest P) (QueueReply P) App)
      → World App
      → Outcome G.Err (QueueReply P) × World App

  pub record MethodDesc : Type 0 where
    pub method_name : String
    pub full_method_name : String
    pub handler : MethodHandler

module _ (G : Grpc) {App : Type 0} where
  -- status.Errorf(codes.Unimplemented, …)
  abbrev pub unimplemented : {B : Type 0} → String → World App → Outcome G.Err B × World App
  unimplemented method w = (
    returned none
        (some (G.status_error G.code_unimplemented ("method " <> method <> " not implemented"))),
    w,
  )

module _ (G : Grpc) {P : Protobuf} {App : Type 0} where
  -- The result as `any`; a nil pointer stays `none`.
  abbrev pub as_reply :
      {B : Type 0}
      → (B → QueueReply P)
      → Outcome G.Err B × World App
      → Outcome G.Err (QueueReply P) × World App
  as_reply f (returned resp err, w) = (returned (Option.map f resp) err, w)
  as_reply f (panicked p, w) = (panicked p, w)

module _ (G : Grpc) (P : Protobuf) {Ctx App : Type 0} where
  unimplemented_create_topic : Method G P Ctx App (CreateTopicRequest P) (Topic P)
  unimplemented_create_topic ctx req w = unimplemented G "CreateTopic" w

  unimplemented_publish : Method G P Ctx App (PublishRequest P) (PublishResponse)
  unimplemented_publish ctx req w = unimplemented G "Publish" w

  unimplemented_consume : Method G P Ctx App (ConsumeRequest P) (ConsumeResponse P)
  unimplemented_consume ctx req w = unimplemented G "Consume" w

  unimplemented_ack : Method G P Ctx App (AckRequest) (Unit {0})
  unimplemented_ack ctx req w = unimplemented G "Ack" w

  -- The handler embeds UnimplementedQueueServer and adds no method.
  unfoldable pub new_handler : QueueServer G P Ctx App
  unfolding unimplemented_create_topic unimplemented_publish unimplemented_consume unimplemented_ack
  new_handler = record {
    create_topic = unimplemented_create_topic;
    publish = unimplemented_publish;
    consume = unimplemented_consume;
    ack = unimplemented_ack;
  }

module _ (G : Grpc) {P : Protobuf} {Ctx App : Type 0} where
  -- The closure `handler`: the type assertion on the request, and the call.
  abbrev pub create_topic_call :
      QueueServer G P Ctx App → UnaryHandler G Ctx (QueueRequest P) (QueueReply P) App
  create_topic_call srv ctx req w = elim req [
    | create_topic_request x ↦ as_reply G topic_reply (srv.create_topic ctx x w)
    | _ ↦ (panicked (text "interface conversion"), w)
  ]

  abbrev create_topic_intercepted :
      QueueServer G P Ctx App
      → Ctx
      → CreateTopicRequest P
      → Option (Interceptor G Ctx (QueueRequest P) (QueueReply P) App)
      → World App
      → Outcome G.Err (QueueReply P) × World App
  create_topic_intercepted srv ctx req none w = as_reply G topic_reply (srv.create_topic ctx req w)
  create_topic_intercepted srv ctx req (some interceptor) w =
      interceptor ctx (create_topic_request req) create_topic_full_method_name
        (create_topic_call srv) w

  unfoldable pub create_topic_handler : MethodHandler G P Ctx App
  create_topic_handler srv ctx dec interceptor w = elim dec.create_topic [
    | malformed err ↦ (returned none (some err), w)
    | decoded req ↦ create_topic_intercepted srv ctx req interceptor w
  ]

  -- The closure `handler`: the type assertion on the request, and the call.
  abbrev pub publish_call :
      QueueServer G P Ctx App → UnaryHandler G Ctx (QueueRequest P) (QueueReply P) App
  publish_call srv ctx req w = elim req [
    | publish_request x ↦ as_reply G publish_response_reply (srv.publish ctx x w)
    | _ ↦ (panicked (text "interface conversion"), w)
  ]

  abbrev publish_intercepted :
      QueueServer G P Ctx App
      → Ctx
      → PublishRequest P
      → Option (Interceptor G Ctx (QueueRequest P) (QueueReply P) App)
      → World App
      → Outcome G.Err (QueueReply P) × World App
  publish_intercepted srv ctx req none w = as_reply G publish_response_reply (srv.publish ctx req w)
  publish_intercepted srv ctx req (some interceptor) w =
      interceptor ctx (publish_request req) publish_full_method_name (publish_call srv) w

  unfoldable pub publish_handler : MethodHandler G P Ctx App
  publish_handler srv ctx dec interceptor w = elim dec.publish [
    | malformed err ↦ (returned none (some err), w)
    | decoded req ↦ publish_intercepted srv ctx req interceptor w
  ]

  -- The closure `handler`: the type assertion on the request, and the call.
  abbrev pub consume_call :
      QueueServer G P Ctx App → UnaryHandler G Ctx (QueueRequest P) (QueueReply P) App
  consume_call srv ctx req w = elim req [
    | consume_request x ↦ as_reply G consume_response_reply (srv.consume ctx x w)
    | _ ↦ (panicked (text "interface conversion"), w)
  ]

  abbrev consume_intercepted :
      QueueServer G P Ctx App
      → Ctx
      → ConsumeRequest P
      → Option (Interceptor G Ctx (QueueRequest P) (QueueReply P) App)
      → World App
      → Outcome G.Err (QueueReply P) × World App
  consume_intercepted srv ctx req none w = as_reply G consume_response_reply (srv.consume ctx req w)
  consume_intercepted srv ctx req (some interceptor) w =
      interceptor ctx (consume_request req) consume_full_method_name (consume_call srv) w

  unfoldable pub consume_handler : MethodHandler G P Ctx App
  consume_handler srv ctx dec interceptor w = elim dec.consume [
    | malformed err ↦ (returned none (some err), w)
    | decoded req ↦ consume_intercepted srv ctx req interceptor w
  ]

  -- The closure `handler`: the type assertion on the request, and the call.
  abbrev pub ack_call :
      QueueServer G P Ctx App → UnaryHandler G Ctx (QueueRequest P) (QueueReply P) App
  ack_call srv ctx req w = elim req [
    | ack_request x ↦ as_reply G empty_reply (srv.ack ctx x w)
    | _ ↦ (panicked (text "interface conversion"), w)
  ]

  abbrev ack_intercepted :
      QueueServer G P Ctx App
      → Ctx
      → AckRequest
      → Option (Interceptor G Ctx (QueueRequest P) (QueueReply P) App)
      → World App
      → Outcome G.Err (QueueReply P) × World App
  ack_intercepted srv ctx req none w = as_reply G empty_reply (srv.ack ctx req w)
  ack_intercepted srv ctx req (some interceptor) w =
      interceptor ctx (ack_request req) ack_full_method_name (ack_call srv) w

  unfoldable pub ack_handler : MethodHandler G P Ctx App
  ack_handler srv ctx dec interceptor w = elim dec.ack [
    | malformed err ↦ (returned none (some err), w)
    | decoded req ↦ ack_intercepted srv ctx req interceptor w
  ]

  -- Queue_ServiceDesc.Methods
  unfoldable pub service_methods : List (MethodDesc G P Ctx App)
  unfolding create_topic_handler publish_handler consume_handler ack_handler
  service_methods =
      record {
        method_name = "CreateTopic";
        full_method_name = create_topic_full_method_name;
        handler = create_topic_handler;
      }
      ∷ record {
        method_name = "Publish";
        full_method_name = publish_full_method_name;
        handler = publish_handler;
      }
      ∷ record {
        method_name = "Consume";
        full_method_name = consume_full_method_name;
        handler = consume_handler;
      }
      ∷ record {
        method_name = "Ack";
        full_method_name = ack_full_method_name;
        handler = ack_handler;
      }
      ∷ []
