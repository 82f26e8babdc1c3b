-- ===== src/Audit/QueueClient/Connected.antt =====
-- A connection of the queue's client to the server that the queue service assembles.
use micro_services.Base.{ℕ, String, ◌≡◌, refl, Option, none, some, List}
use micro_services.Grpc.{IsWire, Grpc, Protobuf, World, emit, Outcome, returned, panicked}
use micro_services.Grpc.Serving.{ServerLib}
use micro_services.Audit.Interceptor.{call_record, panic_record}
use micro_services.Audit.Interceptor.Chain.{observed}
use micro_services.Queue.Messages.CreateTopicRequest
use micro_services.Queue.Messages.PublishRequest
use micro_services.Queue.Messages.ConsumeRequest
use micro_services.Queue.Messages.AckRequest
use micro_services.Queue.Wire.{
  QueueRequest, QueueReply, create_topic_request, publish_request, consume_request, ack_request,
}
use micro_services.Queue.Server.{QueueServer, Decoder, decoded, as_reply}
use micro_services.Queue.Server.Calls.{Decodes}
use micro_services.Queue.Route.{new_server}
use micro_services.Queue.Client.{ClientConn, answered}

-- A handler that returned nil for both its results has given no answer that can be sent.
abbrev pub IsAnswer : {E B App : Type 0} → Outcome E B × World App → Type 0
IsAnswer (returned none none, w) = ⊥
IsAnswer _ = Unit

-- The call has returned an answer or an error.
abbrev pub IsReply : {E B App : Type 0} → Outcome E B × World App → Type 0
IsReply (returned none none, w) = ⊥
IsReply (panicked p, w) = ⊥
IsReply _ = Unit

-- What a call that has returned leaves in the client's reply, with its error as it arrives.
abbrev pub delivered :
    (G : Grpc) {B App : Type 0} → B → Outcome G.Err B × World App → (Option G.Err × B) × World App
delivered G out (returned (some reply) none, w) = ((none, reply), w)
delivered G out (returned reply (some e), w) = ((some (G.transmitted e), out), w)
delivered G out (_, w) = ((none, out), w)

module _ {G : Grpc} {P : Protobuf} {Ctx App : Type 0} where
  abbrev nothing : Decoder G P Ctx App
  nothing = record {
    create_topic = decoded CreateTopicRequest.zero_value;
    publish = decoded PublishRequest.zero_value;
    consume = decoded ConsumeRequest.zero_value;
    ack = decoded AckRequest.zero_value;
  }

  -- What a server decodes of a request; a method only asks for a message of its own type.
  abbrev pub decoder_of : QueueRequest P → Decoder G P Ctx App
  decoder_of (create_topic_request r) = record nothing { create_topic = decoded r }
  decoder_of (publish_request r) = record nothing { publish = decoded r }
  decoder_of (consume_request r) = record nothing { consume = decoded r }
  decoder_of (ack_request r) = record nothing { ack = decoded r }

  pub decodes : (req : QueueRequest P) → Decodes (decoder_of req)
  decodes (create_topic_request r) = record {
    create_topic_request = r;
    create_topic_decoded = refl;
    publish_request = PublishRequest.zero_value;
    publish_decoded = refl;
    consume_request = ConsumeRequest.zero_value;
    consume_decoded = refl;
    ack_request = AckRequest.zero_value;
    ack_decoded = refl;
  }
  decodes (publish_request r) = record {
    create_topic_request = CreateTopicRequest.zero_value;
    create_topic_decoded = refl;
    publish_request = r;
    publish_decoded = refl;
    consume_request = ConsumeRequest.zero_value;
    consume_decoded = refl;
    ack_request = AckRequest.zero_value;
    ack_decoded = refl;
  }
  decodes (consume_request r) = record {
    create_topic_request = CreateTopicRequest.zero_value;
    create_topic_decoded = refl;
    publish_request = PublishRequest.zero_value;
    publish_decoded = refl;
    consume_request = r;
    consume_decoded = refl;
    ack_request = AckRequest.zero_value;
    ack_decoded = refl;
  }
  decodes (ack_request r) = record {
    create_topic_request = CreateTopicRequest.zero_value;
    create_topic_decoded = refl;
    publish_request = PublishRequest.zero_value;
    publish_decoded = refl;
    consume_request = ConsumeRequest.zero_value;
    consume_decoded = refl;
    ack_request = r;
    ack_decoded = refl;
  }

  -- A call by a method's full name fills in the server's reply, or returns its error as the status
  -- that is made of it.
  abbrev pub IsConnected :
      (L : ServerLib G Ctx (Decoder G P Ctx App) (QueueRequest P) (QueueReply P) App)
      → QueueServer G P Ctx App
      → ClientConn G P Ctx App
      → Type 0
  IsConnected L srv cc =
      (name : String) (ctx : Ctx) (req : QueueRequest P) (out : QueueReply P)
      (opts : List cc.CallOption) (w : World App)
      → IsReply (L.call (new_server L srv) name ctx (decoder_of req) w)
      → cc.invoke ctx name req out opts w
        ≡ delivered G out (L.call (new_server L srv) name ctx (decoder_of req) w)

module _ (G : Grpc) {App : Type 0} where
  -- What the client sees of a call that the implementation ended in this way, and what the server
  -- has logged by then: an answer as it is and an error as it arrives, with one line, and a panic as the
  -- Internal status with two lines.
  abbrev pub seen :
      {B : Type 0}
      → String
      → ℕ
      → Outcome G.Err B × World App
      → (Option B × Option G.Err) × World App
  seen name start (returned reply none, w) =
      ((reply, none), emit (call_record G name none start w.now) w)
  seen name start (returned reply (some e), w) =
      ((none, some (G.transmitted e)), emit (call_record G name (some e) start w.now) w)
  seen name start (panicked p, w) =
      let e = some (G.status_error G.code_internal "internal server error") in
      ((none, e), emit (call_record G name e start w.now) (emit (panic_record G name p) w))

module _ (G : Grpc) {P : Protobuf} {App B : Type 0} (wrap : B → QueueReply P)
    (unwrap : QueueReply P → Option B) (name : String) (start : ℕ) (W : IsWire G) where
  pub observed-IsReply :
      (o : Outcome G.Err B × World App)
      → IsAnswer o
      → IsReply (observed G name start (as_reply G wrap o))
  observed-IsReply (returned none none, w) h = h
  observed-IsReply (returned (some r) none, w) h = tt
  observed-IsReply (returned none (some e), w) h = tt
  observed-IsReply (returned (some r) (some e), w) h = tt
  observed-IsReply (panicked p, w) h = tt

  pub answered-seen :
      ((b : B) → unwrap (wrap b) ≡ some b)
      → (out : QueueReply P) (o : Outcome G.Err B × World App) → IsAnswer o
      → answered G unwrap (delivered G out (observed G name start (as_reply G wrap o)))
        ≡ seen G name start o
  answered-seen inv out (returned none none, w) h = absurd h
  answered-seen inv out (returned (some r) none, w) h = rw (inv r) refl
  answered-seen inv out (returned none (some e), w) h = refl
  answered-seen inv out (returned (some r) (some e), w) h = refl
  answered-seen inv out (panicked p, w) h =
      rw (W.transmitted-status_error G.code_internal "internal server error" W.internal_ne_ok) refl
