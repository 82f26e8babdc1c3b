-- ===== src/Queue/Server/Calls.antt =====
-- Calls of the methods in the description of the service, through the interceptors that the server
-- installs.
use micro_services.Base.{◌≡◌, Option, none, some, List, [], ◌∷◌, ◌<>◌, All}
use micro_services.Grpc.{Grpc, Protobuf, World, emit, Outcome, returned, Interceptor, IsChain}
use micro_services.Audit.Interceptor.{call_record}
use micro_services.Audit.Interceptor.Chain.{observed}
use micro_services.Queue.Interceptor.Same.{queue_chain-observed}
use micro_services.Queue.Interceptor.{logging, recovery}
use micro_services.Queue.Messages.AckRequest.{AckRequest}
use micro_services.Queue.Messages.ConsumeRequest.{ConsumeRequest}
use micro_services.Queue.Messages.CreateTopicRequest.{CreateTopicRequest}
use micro_services.Queue.Messages.PublishRequest.{PublishRequest}
use micro_services.Queue.Wire.{
  QueueRequest, QueueReply, ack_request, consume_request, create_topic_request, publish_request,
}
use micro_services.Queue.Server.{
  QueueServer, Decoder, decoded, malformed, MethodDesc, new_handler, service_methods,
  create_topic_handler, create_topic_call, create_topic_full_method_name, publish_handler,
  publish_call, publish_full_method_name, consume_handler, consume_call, consume_full_method_name,
  ack_handler, ack_call, ack_full_method_name,
}

module _ {G : Grpc} {P : Protobuf} {Ctx App : Type 0} where
  -- Every request decodes.
  pub record Decodes (dec : Decoder G P Ctx App) : Type 0 where
    pub create_topic_request : CreateTopicRequest P
    pub create_topic_decoded : dec.create_topic ≡ decoded create_topic_request
    pub publish_request : PublishRequest P
    pub publish_decoded : dec.publish ≡ decoded publish_request
    pub consume_request : ConsumeRequest P
    pub consume_decoded : dec.consume ≡ decoded consume_request
    pub ack_request : AckRequest
    pub ack_decoded : dec.ack ≡ decoded ack_request

  -- No request decodes.
  abbrev pub IsGarbled : Decoder G P Ctx App → G.Err → Type 0
  IsGarbled dec e =
      (dec.create_topic ≡ malformed e)
      × (dec.publish ≡ malformed e)
      × (dec.consume ≡ malformed e)
      × (dec.ack ≡ malformed e)

module _ (G : Grpc) (P : Protobuf) {Ctx App : Type 0} where
  -- A request that does not decode is answered with the decoding error by every method of the
  -- service, whatever server and interceptor are installed: neither is called, and nothing is logged.
  pub queue_garbled :
      (srv : QueueServer G P Ctx App) (ctx : Ctx) (dec : Decoder G P Ctx App) (e : G.Err)
      (interceptor : Option (Interceptor G Ctx (QueueRequest P) (QueueReply P) App)) (w : World App)
      → IsGarbled dec e
      → All
          (λ (d : MethodDesc G P Ctx App).
            d.handler srv ctx dec interceptor w ≡ (returned none (some e), w))
          (service_methods G)
  unfolding service_methods
  queue_garbled srv ctx dec e interceptor w (h0, h1, h2, h3) = (
    rw (h0, create_topic_handler),
    (rw (h1, publish_handler), (rw (h2, consume_handler), (rw (h3, ack_handler), tt))),
  )

module _ (G : Grpc) (P : Protobuf) {Ctx App : Type 0}
    (chain : List (Interceptor G Ctx (QueueRequest P) (QueueReply P) App)
      → Interceptor G Ctx (QueueRequest P) (QueueReply P) App)
    (C : IsChain G Ctx (QueueRequest P) (QueueReply P) App chain) where
  -- A call through the interceptors, against the bare call of the same method.
  abbrev pub IsObserved : QueueServer G P Ctx App → Ctx → Decoder G P Ctx App → World App → Type 0
  IsObserved srv ctx dec w =
      All
        (λ (d : MethodDesc G P Ctx App).
          d.handler srv ctx dec (some (chain (logging G ∷ recovery G ∷ []))) w
          ≡ observed G d.full_method_name w.now (d.handler srv ctx dec none w))
        (service_methods G)

  -- For every implementation of the service and every method of its description, a call of a request
  -- that decodes, through logging and recovery, is the bare call with the line of the method's own
  -- full name added to the log, and with a panic turned into a logged Internal error.
  pub queue_calls-IsObserved :
      (srv : QueueServer G P Ctx App) (ctx : Ctx) (dec : Decoder G P Ctx App) (w : World App)
      → Decodes dec
      → IsObserved srv ctx dec w
  unfolding service_methods
  queue_calls-IsObserved srv ctx dec w D = (
    rw (D.create_topic_decoded, create_topic_handler)
        (queue_chain-observed G chain C ctx (create_topic_request D.create_topic_request)
          create_topic_full_method_name (create_topic_call G srv) w),
    (
      rw (D.publish_decoded, publish_handler)
          (queue_chain-observed G chain C ctx (publish_request D.publish_request)
            publish_full_method_name (publish_call G srv) w),
      (
        rw (D.consume_decoded, consume_handler)
            (queue_chain-observed G chain C ctx (consume_request D.consume_request)
              consume_full_method_name (consume_call G srv) w),
        (
          rw (D.ack_decoded, ack_handler)
              (queue_chain-observed G chain C ctx (ack_request D.ack_request) ack_full_method_name
                (ack_call G srv) w),
          tt,
        ),
      ),
    ),
  )

  -- What the scaffold answers: the Unimplemented status, and one line in the log.
  abbrev pub scaffold :
      MethodDesc G P Ctx App → World App → Outcome G.Err (QueueReply P) × World App
  scaffold d w =
      let e =
        G.status_error G.code_unimplemented ("method " <> d.method_name <> " not implemented") in
      (returned none (some e), emit (call_record G d.full_method_name (some e) w.now w.now) w)

  -- Every method of the service, called on the handler of this repository through its interceptors
  -- with a request that decodes, returns no response and the Unimplemented status naming the method,
  -- and logs exactly one line.
  pub queue_scaffold :
      (ctx : Ctx) (dec : Decoder G P Ctx App) (w : World App)
      → Decodes dec
      → All
          (λ (d : MethodDesc G P Ctx App).
            d.handler (new_handler G P) ctx dec (some (chain (logging G ∷ recovery G ∷ []))) w
            ≡ scaffold d w)
          (service_methods G)
  unfolding service_methods new_handler
  queue_scaffold ctx dec w D = (
    rw (D.create_topic_decoded, create_topic_handler)
        (queue_chain-observed G chain C ctx (create_topic_request D.create_topic_request)
          create_topic_full_method_name (create_topic_call G (new_handler G P)) w),
    (
      rw (D.publish_decoded, publish_handler)
          (queue_chain-observed G chain C ctx (publish_request D.publish_request)
            publish_full_method_name (publish_call G (new_handler G P)) w),
      (
        rw (D.consume_decoded, consume_handler)
            (queue_chain-observed G chain C ctx (consume_request D.consume_request)
              consume_full_method_name (consume_call G (new_handler G P)) w),
        (
          rw (D.ack_decoded, ack_handler)
              (queue_chain-observed G chain C ctx (ack_request D.ack_request) ack_full_method_name
                (ack_call G (new_handler G P)) w),
          tt,
        ),
      ),
    ),
  )
