-- ===== src/Audit/Wire.antt =====
-- The values of the types `any` and proto.Message that pass between modules/audit/src/route/grpc/audit_grpc.pb.go and
-- the grpc library: one constructor for each message type of the service.
use micro_services.Grpc.{Protobuf}
use micro_services.Audit.Messages.Event.{Event}
use micro_services.Audit.Messages.GetEventRequest.{GetEventRequest}
use micro_services.Audit.Messages.IngestRequest.{IngestRequest}
use micro_services.Audit.Messages.IngestResponse.{IngestResponse}
use micro_services.Audit.Messages.ListEventsRequest.{ListEventsRequest}
use micro_services.Audit.Messages.ListEventsResponse.{ListEventsResponse}

pub data AuditRequest (P : Protobuf) : Type 0 where
  ingest_request : IngestRequest P → AuditRequest P
  get_event_request : GetEventRequest → AuditRequest P
  list_events_request : ListEventsRequest P → AuditRequest P

pub data AuditReply (P : Protobuf) : Type 0 where
  ingest_response_reply : IngestResponse P → AuditReply P
  event_reply : Event P → AuditReply P
  list_events_response_reply : ListEventsResponse P → AuditReply P
