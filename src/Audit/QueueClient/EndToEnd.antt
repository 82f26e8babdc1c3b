-- ===== src/Audit/QueueClient/EndToEnd.antt =====
-- The calls of the audit service's client of the queue, through the queue's server.
use micro_services.Base.{String, ◌≡◌, refl, sym, ◌∙◌, ap, Option, none, some, List, ◌<>◌}
use mathlib.Core.Path.{subst}
use micro_services.Grpc.{IsWire, Grpc, Protobuf, World, emit, Outcome}
use micro_services.Grpc.Serving.{ServerLib, IsServer}
use micro_services.Audit.Interceptor.{call_record}
use micro_services.Audit.Interceptor.Chain.{observed}
use micro_services.Queue.Messages.CreateTopicRequest.{CreateTopicRequest}
use micro_services.Queue.Messages.PublishRequest.{PublishRequest}
use micro_services.Queue.Messages.ConsumeRequest.{ConsumeRequest}
use micro_services.Queue.Messages.AckRequest.{AckRequest}
use micro_services.Queue.Wire.{
  QueueRequest, QueueReply, create_topic_request, publish_request, consume_request, ack_request,
  topic_reply, publish_response_reply, consume_response_reply, empty_reply,
}
use micro_services.Queue.Server.{
  QueueServer, Decoder, as_reply, new_handler, service_methods, create_topic_handler,
  publish_handler, consume_handler, ack_handler, create_topic_full_method_name,
  publish_full_method_name, consume_full_method_name, ack_full_method_name,
}
use micro_services.Queue.Route.{new_server}
use micro_services.Queue.Route.Calls.{queue_server-observed}
use micro_services.Queue.Client.{
  answered, as_topic, as_publish_response, as_consume_response, as_empty,
  create_topic as stub_create_topic, publish as stub_publish, consume as stub_consume,
  ack as stub_ack,
}
use micro_services.Audit.QueueClient.{Connector, Client, create_topic, publish, consume, ack}
use micro_services.Audit.QueueClient.Connected.{
  IsAnswer, IsReply, delivered, decoder_of, decodes, IsConnected, seen, observed-IsReply,
  answered-seen,
}

module _ {G : Grpc} {P : Protobuf} {Ctx App : Type 0} (N : Connector G P Ctx App) (c : Client N)
    (W : IsWire G) (L : ServerLib G Ctx (Decoder G P Ctx App) (QueueRequest P) (QueueReply P) App)
    (K : IsServer L) (srv : QueueServer G P Ctx App)
    (joined : IsConnected L srv (N.connection c.conn)) (ctx : Ctx) (w : World App) where
  invoked :
      {B : Type 0} (wrap : B → QueueReply P) (unwrap : QueueReply P → Option B)
      → ((b : B) → unwrap (wrap b) ≡ some b)
      → (name : String) (req : QueueRequest P) (out : QueueReply P)
        (opts : List (N.connection c.conn).CallOption) (o : Outcome G.Err B × World App)
      → L.call (new_server L srv) name ctx (decoder_of req) w
        ≡ observed G name w.now (as_reply G wrap o)
      → IsAnswer o
      → answered G unwrap ((N.connection c.conn).invoke ctx name req out opts w)
        ≡ seen G name w.now o
  invoked wrap unwrap inv name req out opts o called h =
      ap (answered G unwrap) (
        joined name ctx req out opts w
          (subst IsReply (sym called) (observed-IsReply G wrap unwrap name w.now W o h))
        ∙ ap (delivered G out) called)
      ∙ answered-seen G wrap unwrap name w.now W inv out o h

  -- Each call of the queue's client is seen, through the connection and the queue's server, as the
  -- implementation's own call ended: its answer unchanged, or its error as the status that gRPC makes
  -- of it for the client, with one line in the log that has the error's own code, or the Internal
  -- status for a panic, with two lines. Ack keeps the error only. No handler may return nil for both
  -- its results.
  pub client_calls-seen :
      (topic : CreateTopicRequest P) (message : PublishRequest P) (want : ConsumeRequest P)
      (lease : AckRequest)
      → IsAnswer (srv.create_topic ctx topic w)
      → IsAnswer (srv.publish ctx message w)
      → IsAnswer (srv.consume ctx want w)
      → IsAnswer (srv.ack ctx lease w)
      → (create_topic N c ctx topic w
          ≡ seen G create_topic_full_method_name w.now (srv.create_topic ctx topic w))
        × (publish N c ctx message w
            ≡ seen G publish_full_method_name w.now (srv.publish ctx message w))
        × (consume N c ctx want w ≡ seen G consume_full_method_name w.now (srv.consume ctx want w))
        × (ack N c ctx lease w ≡ (
          (seen G ack_full_method_name w.now (srv.ack ctx lease w)).0.1,
          (seen G ack_full_method_name w.now (srv.ack ctx lease w)).1,
        ))
  unfolding create_topic publish consume ack stub_create_topic stub_publish stub_consume stub_ack
      service_methods create_topic_handler publish_handler consume_handler ack_handler
  client_calls-seen topic message want lease h0 h1 h2 h3 =
      let call : (req : QueueRequest P) → _ =
        λ req. queue_server-observed L K ctx (decoder_of req) w srv (decodes req) in
      (
        invoked topic_reply as_topic (λ b. refl) _ (create_topic_request topic) _ _ _
            (call (create_topic_request topic)).0 h0,
        invoked publish_response_reply as_publish_response (λ b. refl) _ (publish_request message) _
            _ _ (call (publish_request message)).1.0 h1,
        invoked consume_response_reply as_consume_response (λ b. refl) _ (consume_request want) _ _
            _ (call (consume_request want)).1.1.0 h2,
        ap (λ (r : (Option (Unit {0}) × Option G.Err) × World App). (r.0.1, r.1))
            (invoked empty_reply as_empty (λ b. refl) _ (ack_request lease) _ _ _
              (call (ack_request lease)).1.1.1.0 h3),
      )

module _ (G : Grpc) where
  abbrev unimplemented_error : String → G.Err
  unimplemented_error method =
      G.status_error G.code_unimplemented ("method " <> method <> " not implemented")

  -- The error that the client sees of a method that is not implemented, and the server's line.
  abbrev pub refused :
      {App : Type 0} → (method full_name : String) → World App → Option G.Err × World App
  refused method full_name w = (
    some (unimplemented_error method),
    emit (call_record G full_name (some (unimplemented_error method)) w.now w.now) w,
  )

  abbrev pub no_reply :
      {B App : Type 0} → Option G.Err × World App → (Option B × Option G.Err) × World App
  no_reply (e, w) = ((none, e), w)

module _ {G : Grpc} {P : Protobuf} {Ctx App : Type 0} (N : Connector G P Ctx App) (c : Client N)
    (W : IsWire G) (L : ServerLib G Ctx (Decoder G P Ctx App) (QueueRequest P) (QueueReply P) App)
    (K : IsServer L) (joined : IsConnected L (new_handler G P) (N.connection c.conn)) (ctx : Ctx)
    (w : World App) where
  -- Against the queue's server as its main makes it, with NewHandler, every call of the queue's
  -- client returns no reply and the Unimplemented status that names the method, and leaves one line
  -- in the server's log.
  client_calls_refused :
      (topic : CreateTopicRequest P) (message : PublishRequest P) (want : ConsumeRequest P)
      (lease : AckRequest)
      → (create_topic N c ctx topic w
          ≡ no_reply G (refused G "CreateTopic" create_topic_full_method_name w))
        × (publish N c ctx message w ≡ no_reply G (refused G "Publish" publish_full_method_name w))
        × (consume N c ctx want w ≡ no_reply G (refused G "Consume" consume_full_method_name w))
        × (ack N c ctx lease w ≡ refused G "Ack" ack_full_method_name w)
  unfolding new_handler
  client_calls_refused topic message want lease =
      let arrives = λ (method : String).
        W.transmitted-status_error G.code_unimplemented ("method " <> method <> " not implemented")
          W.unimplemented_ne_ok in
      let (a, b, c', d) =
        client_calls-seen N c W L K (new_handler G P) joined ctx w topic message want lease tt tt tt
          tt in
      (
        rw (arrives "CreateTopic") at a,
        rw (arrives "Publish") at b,
        rw (arrives "Consume") at c',
        rw (arrives "Ack") at d,
      )
