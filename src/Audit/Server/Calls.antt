-- ===== src/Audit/Server/Calls.antt =====
-- Calls of the methods in the description of the service, through the interceptors that the server
-- installs.
use micro_services.Base.{◌≡◌, Option, none, some, List, [], ◌∷◌, ◌<>◌, All}
use micro_services.Grpc.{Grpc, Protobuf, World, emit, Outcome, returned, Interceptor, IsChain}
use micro_services.Audit.Interceptor.{call_record}
use micro_services.Audit.Interceptor.Chain.{observed, chain-observed}
use micro_services.Audit.Interceptor.{logging, recovery}
use micro_services.Audit.Messages.GetEventRequest.{GetEventRequest}
use micro_services.Audit.Messages.IngestRequest.{IngestRequest}
use micro_services.Audit.Messages.ListEventsRequest.{ListEventsRequest}
use micro_services.Audit.Wire.{
  AuditRequest, AuditReply, get_event_request, ingest_request, list_events_request,
}
use micro_services.Audit.Server.{
  AuditServer, Decoder, decoded, malformed, MethodDesc, new_handler, service_methods,
  ingest_handler, ingest_call, ingest_full_method_name, get_event_handler, get_event_call,
  get_event_full_method_name, list_events_handler, list_events_call, list_events_full_method_name,
}

module _ {G : Grpc} {P : Protobuf} {Ctx App : Type 0} where
  -- Every request decodes.
  pub record Decodes (dec : Decoder G P Ctx App) : Type 0 where
    pub ingest_request : IngestRequest P
    pub ingest_decoded : dec.ingest ≡ decoded ingest_request
    pub get_event_request : GetEventRequest
    pub get_event_decoded : dec.get_event ≡ decoded get_event_request
    pub list_events_request : ListEventsRequest P
    pub list_events_decoded : dec.list_events ≡ decoded list_events_request

  -- No request decodes.
  abbrev pub IsGarbled : Decoder G P Ctx App → G.Err → Type 0
  IsGarbled dec e =
      (dec.ingest ≡ malformed e) × (dec.get_event ≡ malformed e) × (dec.list_events ≡ malformed e)

module _ (G : Grpc) (P : Protobuf) {Ctx App : Type 0} where
  -- A request that does not decode is answered with the decoding error by every method of the
  -- service, whatever server and interceptor are installed: neither is called, and nothing is logged.
  pub audit_garbled :
      (srv : AuditServer G P Ctx App) (ctx : Ctx) (dec : Decoder G P Ctx App) (e : G.Err)
      (interceptor : Option (Interceptor G Ctx (AuditRequest P) (AuditReply P) App)) (w : World App)
      → IsGarbled dec e
      → All
          (λ (d : MethodDesc G P Ctx App).
            d.handler srv ctx dec interceptor w ≡ (returned none (some e), w))
          (service_methods G)
  unfolding service_methods
  audit_garbled srv ctx dec e interceptor w (h0, h1, h2) =
      (rw (h0, ingest_handler), (rw (h1, get_event_handler), (rw (h2, list_events_handler), tt)))

module _ (G : Grpc) (P : Protobuf) {Ctx App : Type 0}
    (chain : List (Interceptor G Ctx (AuditRequest P) (AuditReply P) App)
      → Interceptor G Ctx (AuditRequest P) (AuditReply P) App)
    (C : IsChain G Ctx (AuditRequest P) (AuditReply P) App chain) where
  -- A call through the interceptors, against the bare call of the same method.
  abbrev pub IsObserved : AuditServer G P Ctx App → Ctx → Decoder G P Ctx App → World App → Type 0
  IsObserved srv ctx dec w =
      All
        (λ (d : MethodDesc G P Ctx App).
          d.handler srv ctx dec (some (chain (logging G ∷ recovery G ∷ []))) w
          ≡ observed G d.full_method_name w.now (d.handler srv ctx dec none w))
        (service_methods G)

  -- For every implementation of the service and every method of its description, a call of a request
  -- that decodes, through logging and recovery, is the bare call with the line of the method's own
  -- full name added to the log, and with a panic turned into a logged Internal error.
  pub audit_calls-IsObserved :
      (srv : AuditServer G P Ctx App) (ctx : Ctx) (dec : Decoder G P Ctx App) (w : World App)
      → Decodes dec
      → IsObserved srv ctx dec w
  unfolding service_methods
  audit_calls-IsObserved srv ctx dec w D = (
    rw (D.ingest_decoded, ingest_handler)
        (chain-observed G chain C ctx (ingest_request D.ingest_request) ingest_full_method_name
          (ingest_call G srv) w),
    (
      rw (D.get_event_decoded, get_event_handler)
          (chain-observed G chain C ctx (get_event_request D.get_event_request)
            get_event_full_method_name (get_event_call G srv) w),
      (
        rw (D.list_events_decoded, list_events_handler)
            (chain-observed G chain C ctx (list_events_request D.list_events_request)
              list_events_full_method_name (list_events_call G srv) w),
        tt,
      ),
    ),
  )

  -- What the scaffold answers: the Unimplemented status, and one line in the log.
  abbrev pub scaffold :
      MethodDesc G P Ctx App → World App → Outcome G.Err (AuditReply P) × World App
  scaffold d w =
      let e =
        G.status_error G.code_unimplemented ("method " <> d.method_name <> " not implemented") in
      (returned none (some e), emit (call_record G d.full_method_name (some e) w.now w.now) w)

  -- Every method of the service, called on the handler of this repository through its interceptors
  -- with a request that decodes, returns no response and the Unimplemented status naming the method,
  -- and logs exactly one line.
  pub audit_scaffold :
      (ctx : Ctx) (dec : Decoder G P Ctx App) (w : World App)
      → Decodes dec
      → All
          (λ (d : MethodDesc G P Ctx App).
            d.handler (new_handler G P) ctx dec (some (chain (logging G ∷ recovery G ∷ []))) w
            ≡ scaffold d w)
          (service_methods G)
  unfolding service_methods new_handler
  audit_scaffold ctx dec w D = (
    rw (D.ingest_decoded, ingest_handler)
        (chain-observed G chain C ctx (ingest_request D.ingest_request) ingest_full_method_name
          (ingest_call G (new_handler G P)) w),
    (
      rw (D.get_event_decoded, get_event_handler)
          (chain-observed G chain C ctx (get_event_request D.get_event_request)
            get_event_full_method_name (get_event_call G (new_handler G P)) w),
      (
        rw (D.list_events_decoded, list_events_handler)
            (chain-observed G chain C ctx (list_events_request D.list_events_request)
              list_events_full_method_name (list_events_call G (new_handler G P)) w),
        tt,
      ),
    ),
  )
