-- ===== src/Audit/Server.antt =====
-- modules/audit/src/route/grpc/audit_grpc.pb.go: the server side, with
-- modules/audit/src/route/handler.go. The streams of the description are empty.
pub mod Calls
use mathlib.Core.Option
use micro_services.Base.{String, Option, none, some, List, [], ◌∷◌, ◌<>◌}
use micro_services.Grpc.{
  text, Grpc, Protobuf, World, Outcome, returned, panicked, Interceptor, UnaryHandler,
}
use micro_services.Audit.Messages.Event.{Event}
use micro_services.Audit.Messages.GetEventRequest.{GetEventRequest}
use micro_services.Audit.Messages.IngestRequest.{IngestRequest}
use micro_services.Audit.Messages.IngestResponse.{IngestResponse}
use micro_services.Audit.Messages.ListEventsRequest.{ListEventsRequest}
use micro_services.Audit.Messages.ListEventsResponse.{ListEventsResponse}
use micro_services.Audit.Wire.{
  AuditRequest, AuditReply, ingest_request, get_event_request, list_events_request,
  ingest_response_reply, event_reply, list_events_response_reply,
}

abbrev pub ingest_full_method_name : String
ingest_full_method_name = "/audit.v1.Audit/Ingest"

abbrev pub get_event_full_method_name : String
get_event_full_method_name = "/audit.v1.Audit/GetEvent"

abbrev pub list_events_full_method_name : String
list_events_full_method_name = "/audit.v1.Audit/ListEvents"

-- What decoding a request gives: an error, or the message.
pub data Decoded (E A : Type 0) : Type 0 where
  malformed : E → Decoded E A
  decoded : A → Decoded E A

module _ (G : Grpc) (P : Protobuf) (Ctx App : Type 0) where
  abbrev pub Method : Type 0 → Type 0 → Type 0
  Method A B = Ctx → A → World App → Outcome G.Err B × World App

  pub record AuditServer : Type 0 where
    pub ingest : Method (IngestRequest P) (IngestResponse P)
    pub get_event : Method (GetEventRequest) (Event P)
    pub list_events : Method (ListEventsRequest P) (ListEventsResponse P)

  -- The function dec of a call, at the type of the message that it is given.
  pub record Decoder : Type 0 where
    pub ingest : Decoded G.Err (IngestRequest P)
    pub get_event : Decoded G.Err (GetEventRequest)
    pub list_events : Decoded G.Err (ListEventsRequest P)

  -- A function of the description; `none` is the nil interceptor.
  abbrev pub MethodHandler : Type 0
  MethodHandler =
      AuditServer
      → Ctx
      → Decoder
      → Option (Interceptor G Ctx (AuditRequest P) (AuditReply P) App)
      → World App
      → Outcome G.Err (AuditReply P) × World App

  pub record MethodDesc : Type 0 where
    pub method_name : String
    pub full_method_name : String
    pub handler : MethodHandler

module _ (G : Grpc) {App : Type 0} where
  -- status.Errorf(codes.Unimplemented, …)
  abbrev pub unimplemented : {B : Type 0} → String → World App → Outcome G.Err B × World App
  unimplemented method w = (
    returned none
        (some (G.status_error G.code_unimplemented ("method " <> method <> " not implemented"))),
    w,
  )

module _ (G : Grpc) {P : Protobuf} {App : Type 0} where
  -- The result as `any`; a nil pointer stays `none`.
  abbrev pub as_reply :
      {B : Type 0}
      → (B → AuditReply P)
      → Outcome G.Err B × World App
      → Outcome G.Err (AuditReply P) × World App
  as_reply f (returned resp err, w) = (returned (Option.map f resp) err, w)
  as_reply f (panicked p, w) = (panicked p, w)

module _ (G : Grpc) (P : Protobuf) {Ctx App : Type 0} where
  unimplemented_ingest : Method G P Ctx App (IngestRequest P) (IngestResponse P)
  unimplemented_ingest ctx req w = unimplemented G "Ingest" w

  unimplemented_get_event : Method G P Ctx App (GetEventRequest) (Event P)
  unimplemented_get_event ctx req w = unimplemented G "GetEvent" w

  unimplemented_list_events : Method G P Ctx App (ListEventsRequest P) (ListEventsResponse P)
  unimplemented_list_events ctx req w = unimplemented G "ListEvents" w

  -- The handler embeds UnimplementedAuditServer and adds no method.
  unfoldable pub new_handler : AuditServer G P Ctx App
  unfolding unimplemented_ingest unimplemented_get_event unimplemented_list_events
  new_handler = record {
    ingest = unimplemented_ingest;
    get_event = unimplemented_get_event;
    list_events = unimplemented_list_events;
  }

module _ (G : Grpc) {P : Protobuf} {Ctx App : Type 0} where
  -- The closure `handler`: the type assertion on the request, and the call.
  abbrev pub ingest_call :
      AuditServer G P Ctx App → UnaryHandler G Ctx (AuditRequest P) (AuditReply P) App
  ingest_call srv ctx req w = elim req [
    | ingest_request x ↦ as_reply G ingest_response_reply (srv.ingest ctx x w)
    | _ ↦ (panicked (text "interface conversion"), w)
  ]

  abbrev ingest_intercepted :
      AuditServer G P Ctx App
      → Ctx
      → IngestRequest P
      → Option (Interceptor G Ctx (AuditRequest P) (AuditReply P) App)
      → World App
      → Outcome G.Err (AuditReply P) × World App
  ingest_intercepted srv ctx req none w = as_reply G ingest_response_reply (srv.ingest ctx req w)
  ingest_intercepted srv ctx req (some interceptor) w =
      interceptor ctx (ingest_request req) ingest_full_method_name (ingest_call srv) w

  unfoldable pub ingest_handler : MethodHandler G P Ctx App
  ingest_handler srv ctx dec interceptor w = elim dec.ingest [
    | malformed err ↦ (returned none (some err), w)
    | decoded req ↦ ingest_intercepted srv ctx req interceptor w
  ]

  -- The closure `handler`: the type assertion on the request, and the call.
  abbrev pub get_event_call :
      AuditServer G P Ctx App → UnaryHandler G Ctx (AuditRequest P) (AuditReply P) App
  get_event_call srv ctx req w = elim req [
    | get_event_request x ↦ as_reply G event_reply (srv.get_event ctx x w)
    | _ ↦ (panicked (text "interface conversion"), w)
  ]

  abbrev get_event_intercepted :
      AuditServer G P Ctx App
      → Ctx
      → GetEventRequest
      → Option (Interceptor G Ctx (AuditRequest P) (AuditReply P) App)
      → World App
      → Outcome G.Err (AuditReply P) × World App
  get_event_intercepted srv ctx req none w = as_reply G event_reply (srv.get_event ctx req w)
  get_event_intercepted srv ctx req (some interceptor) w =
      interceptor ctx (get_event_request req) get_event_full_method_name (get_event_call srv) w

  unfoldable pub get_event_handler : MethodHandler G P Ctx App
  get_event_handler srv ctx dec interceptor w = elim dec.get_event [
    | malformed err ↦ (returned none (some err), w)
    | decoded req ↦ get_event_intercepted srv ctx req interceptor w
  ]

  -- The closure `handler`: the type assertion on the request, and the call.
  abbrev pub list_events_call :
      AuditServer G P Ctx App → UnaryHandler G Ctx (AuditRequest P) (AuditReply P) App
  list_events_call srv ctx req w = elim req [
    | list_events_request x ↦ as_reply G list_events_response_reply (srv.list_events ctx x w)
    | _ ↦ (panicked (text "interface conversion"), w)
  ]

  abbrev list_events_intercepted :
      AuditServer G P Ctx App
      → Ctx
      → ListEventsRequest P
      → Option (Interceptor G Ctx (AuditRequest P) (AuditReply P) App)
      → World App
      → Outcome G.Err (AuditReply P) × World App
  list_events_intercepted srv ctx req none w =
      as_reply G list_events_response_reply (srv.list_events ctx req w)
  list_events_intercepted srv ctx req (some interceptor) w =
      interceptor ctx (list_events_request req) list_events_full_method_name (list_events_call srv)
        w

  unfoldable pub list_events_handler : MethodHandler G P Ctx App
  list_events_handler srv ctx dec interceptor w = elim dec.list_events [
    | malformed err ↦ (returned none (some err), w)
    | decoded req ↦ list_events_intercepted srv ctx req interceptor w
  ]

  -- Audit_ServiceDesc.Methods
  unfoldable pub service_methods : List (MethodDesc G P Ctx App)
  unfolding ingest_handler get_event_handler list_events_handler
  service_methods =
      record {
        method_name = "Ingest";
        full_method_name = ingest_full_method_name;
        handler = ingest_handler;
      }
      ∷ record {
        method_name = "GetEvent";
        full_method_name = get_event_full_method_name;
        handler = get_event_handler;
      }
      ∷ record {
        method_name = "ListEvents";
        full_method_name = list_events_full_method_name;
        handler = list_events_handler;
      }
      ∷ []
