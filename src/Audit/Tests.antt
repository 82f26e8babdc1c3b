-- ===== src/Audit/Tests.antt =====
-- Calls of the audit service through its interceptors, and the theorems at concrete data.
use micro_services.Base.{none}
use micro_services.Grpc.Serving.{ServerLib, IsServer}
use micro_services.Grpc.Examples.Process.{process, process-IsServer}
use micro_services.Audit.Wire.{AuditRequest, AuditReply}
use micro_services.Audit.Route.Calls.{EachCall, audit_server-observed}
use micro_services.Base.{ℕ, String, ◌≡◌, refl, List, [], ◌∷◌}
use micro_services.Grpc.{Interceptor}
use micro_services.Grpc.Examples.{
  code_unavailable, statuses, nest, nest-IsChain, seconds, morning, crash,
}
use micro_services.Audit.Interceptor.{logging, recovery}
use micro_services.Audit.Interceptor.Chain.{observed, chain-observed}
use micro_services.Audit.Messages.IngestRequest
use micro_services.Audit.Messages.IngestRequest.{IngestRequest}
use micro_services.Audit.Messages.GetEventRequest
use micro_services.Audit.Messages.GetEventRequest.{GetEventRequest}
use micro_services.Audit.Messages.ListEventsRequest
use micro_services.Audit.Messages.ListEventsRequest.{ListEventsRequest}
use micro_services.Audit.Server.{AuditServer, Decoder, decoded, malformed, new_handler}
use micro_services.Audit.Server.Calls.{Decodes}

abbrev installed : {Req Resp : Type 0} → List (Interceptor statuses String Req Resp ℕ)
installed = logging statuses ∷ recovery statuses ∷ []

chain-observed_example :
    nest (installed {Req = ℕ} {Resp = ℕ}) "ctx" 3 "/a" (crash {Req = ℕ} {Resp = ℕ}) morning
    ≡ observed statuses "/a" 5000000 (crash {Req = ℕ} {Resp = ℕ} "ctx" 3 morning)
chain-observed_example =
    chain-observed statuses nest nest-IsChain "ctx" 3 "/a" (crash {Req = ℕ} {Resp = ℕ}) morning

abbrev good : Decoder statuses seconds String ℕ
good = record {
  ingest = decoded IngestRequest.zero_value;
  get_event = decoded GetEventRequest.zero_value;
  list_events = decoded ListEventsRequest.zero_value;
}

abbrev good_decodes : Decodes good
good_decodes = record {
  ingest_request = IngestRequest.zero_value;
  ingest_decoded = refl;
  get_event_request = GetEventRequest.zero_value;
  get_event_decoded = refl;
  list_events_request = ListEventsRequest.zero_value;
  list_events_decoded = refl;
}

abbrev server : AuditServer statuses seconds String ℕ
server = new_handler statuses seconds

-- An implementation of one method, which panics.
abbrev half_done : AuditServer statuses seconds String ℕ
half_done = record server { get_event = crash }

abbrev in_process :
    ServerLib statuses String
      (Decoder statuses seconds String ℕ)
      (AuditRequest seconds)
      (AuditReply seconds)
      ℕ
in_process =
    process String (Decoder statuses seconds String ℕ) (AuditRequest seconds) (AuditReply seconds) ℕ

abbrev in_process-IsServer : IsServer in_process
in_process-IsServer =
    process-IsServer String (Decoder statuses seconds String ℕ) (AuditRequest seconds)
      (AuditReply seconds) ℕ

audit_server-observed_example :
    EachCall in_process in_process-IsServer "ctx" good morning half_done (λ d.
      observed statuses d.full_method_name 5000000 (d.handler half_done "ctx" good none morning))
audit_server-observed_example =
    audit_server-observed in_process in_process-IsServer "ctx" good morning half_done good_decodes

abbrev cut : Decoder statuses seconds String ℕ
cut = record {
  ingest = malformed (code_unavailable, "cut off");
  get_event = malformed (code_unavailable, "cut off");
  list_events = malformed (code_unavailable, "cut off");
}
