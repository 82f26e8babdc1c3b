-- ===== src/Audit/Client.antt =====
-- modules/audit/src/route/grpc/audit_grpc.pb.go: the client side.
use micro_services.Base.{String, Option, none, some, List, ◌∷◌}
use micro_services.Grpc.{Grpc, Protobuf, World}
use micro_services.Audit.Messages.Event.{Event}
use micro_services.Audit.Messages.GetEventRequest.{GetEventRequest}
use micro_services.Audit.Messages.IngestRequest.{IngestRequest}
use micro_services.Audit.Messages.IngestResponse.{IngestResponse}
use micro_services.Audit.Messages.ListEventsRequest.{ListEventsRequest}
use micro_services.Audit.Messages.ListEventsResponse.{ListEventsResponse}
use micro_services.Audit.Wire.{
  AuditRequest, AuditReply, ingest_request, get_event_request, list_events_request,
  ingest_response_reply, event_reply, list_events_response_reply,
}
use micro_services.Audit.Server.{
  ingest_full_method_name, get_event_full_method_name, list_events_full_method_name,
}
use micro_services.Audit.Messages.Event
use micro_services.Audit.Messages.IngestResponse
use micro_services.Audit.Messages.ListEventsResponse

-- grpc.ClientConnInterface. Invoke fills the message that it is given, and keeps its type.
pub record ClientConn (G : Grpc) (P : Protobuf) (Ctx App : Type 0) : Type 1 where
  pub CallOption : Type 0
  pub static_method : CallOption
  pub invoke :
      Ctx
      → String
      → AuditRequest P
      → AuditReply P
      → List CallOption
      → World App
      → (Option G.Err × AuditReply P) × World App

abbrev as_ingest_response : {P : Protobuf} → AuditReply P → Option (IngestResponse P)
as_ingest_response (ingest_response_reply x) = some x
as_ingest_response _ = none

abbrev as_event : {P : Protobuf} → AuditReply P → Option (Event P)
as_event (event_reply x) = some x
as_event _ = none

abbrev as_list_events_response : {P : Protobuf} → AuditReply P → Option (ListEventsResponse P)
as_list_events_response (list_events_response_reply x) = some x
as_list_events_response _ = none

module _ (G : Grpc) {P : Protobuf} {App : Type 0} where
  -- The error discards the message.
  abbrev answered :
      {B : Type 0}
      → (AuditReply P → Option B)
      → (Option G.Err × AuditReply P) × World App
      → (Option B × Option G.Err) × World App
  answered from_reply ((some err, out), w) = ((none, some err), w)
  answered from_reply ((none, out), w) = ((from_reply out, none), w)

module _ (G : Grpc) {P : Protobuf} {Ctx App : Type 0} where
  unfoldable pub ingest :
      (cc : ClientConn G P Ctx App)
      → Ctx
      → IngestRequest P
      → List cc.CallOption
      → World App
      → (Option (IngestResponse P) × Option G.Err) × World App
  ingest cc ctx req opts w = answered G as_ingest_response (
      cc.invoke ctx ingest_full_method_name (ingest_request req)
        (ingest_response_reply IngestResponse.zero_value) (cc.static_method ∷ opts) w)

  unfoldable pub get_event :
      (cc : ClientConn G P Ctx App)
      → Ctx
      → GetEventRequest
      → List cc.CallOption
      → World App
      → (Option (Event P) × Option G.Err) × World App
  get_event cc ctx req opts w = answered G as_event (
      cc.invoke ctx get_event_full_method_name (get_event_request req)
        (event_reply Event.zero_value) (cc.static_method ∷ opts) w)

  unfoldable pub list_events :
      (cc : ClientConn G P Ctx App)
      → Ctx
      → ListEventsRequest P
      → List cc.CallOption
      → World App
      → (Option (ListEventsResponse P) × Option G.Err) × World App
  list_events cc ctx req opts w = answered G as_list_events_response (
      cc.invoke ctx list_events_full_method_name (list_events_request req)
        (list_events_response_reply ListEventsResponse.zero_value) (cc.static_method ∷ opts) w)
