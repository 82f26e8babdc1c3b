-- ===== src/Audit/Messages/Resets.antt =====
-- Which messages cannot be told from the nil pointer by the getters.
use micro_services.Base.{◌≡◌, refl, ◌↔◌, Option, none, some}
use micro_services.Grpc.{Protobuf}
use micro_services.Audit.Messages.Event
use micro_services.Audit.Messages.Event.{Event}
use micro_services.Audit.Messages.Actor
use micro_services.Audit.Messages.Actor.{Actor}
use micro_services.Audit.Messages.What
use micro_services.Audit.Messages.What.{What}
use micro_services.Audit.Messages.Where
use micro_services.Audit.Messages.Where.{Where}
use micro_services.Audit.Messages.Why
use micro_services.Audit.Messages.Why.{Why}
use micro_services.Audit.Messages.How
use micro_services.Audit.Messages.How.{How}
use micro_services.Audit.Messages.IngestRequest
use micro_services.Audit.Messages.IngestRequest.{IngestRequest}
use micro_services.Audit.Messages.IngestResponse
use micro_services.Audit.Messages.IngestResponse.{IngestResponse}
use micro_services.Audit.Messages.GetEventRequest
use micro_services.Audit.Messages.GetEventRequest.{GetEventRequest}
use micro_services.Audit.Messages.ListEventsRequest
use micro_services.Audit.Messages.ListEventsRequest.{ListEventsRequest}
use micro_services.Audit.Messages.ListEventsResponse
use micro_services.Audit.Messages.ListEventsResponse.{ListEventsResponse}

-- The getters of Event give the same answers.
abbrev SameEvent : {P : Protobuf} → Option (Event P) → Option (Event P) → Type 0
SameEvent x y =
    (Event.get_event_id x ≡ Event.get_event_id y)
    × (Event.get_occurred_at x ≡ Event.get_occurred_at y)
    × (Event.get_recorded_at x ≡ Event.get_recorded_at y)
    × (Event.get_schema_version x ≡ Event.get_schema_version y)
    × (Event.get_actor x ≡ Event.get_actor y)
    × (Event.get_what x ≡ Event.get_what y)
    × (Event.get_where x ≡ Event.get_where y)
    × (Event.get_why x ≡ Event.get_why y)
    × (Event.get_how x ≡ Event.get_how y)
    × (Event.get_details x ≡ Event.get_details y)

-- The getters of Actor give the same answers.
abbrev SameActor : Option Actor → Option Actor → Type 0
SameActor x y =
    (Actor.get_type x ≡ Actor.get_type y)
    × (Actor.get_id x ≡ Actor.get_id y)
    × (Actor.get_ip x ≡ Actor.get_ip y)
    × (Actor.get_user_agent x ≡ Actor.get_user_agent y)

-- The getters of What give the same answers.
abbrev SameWhat : Option What → Option What → Type 0
SameWhat x y =
    (What.get_action x ≡ What.get_action y)
    × (What.get_resource_type x ≡ What.get_resource_type y)
    × (What.get_resource_id x ≡ What.get_resource_id y)

-- The getters of Where give the same answers.
abbrev SameWhere : Option Where → Option Where → Type 0
SameWhere x y =
    (Where.get_service x ≡ Where.get_service y)
    × (Where.get_environment x ≡ Where.get_environment y)
    × (Where.get_region x ≡ Where.get_region y)
    × (Where.get_host x ≡ Where.get_host y)

-- The getters of Why give the same answers.
abbrev SameWhy : Option Why → Option Why → Type 0
SameWhy x y =
    (Why.get_reason x ≡ Why.get_reason y)
    × (Why.get_request_id x ≡ Why.get_request_id y)
    × (Why.get_trace_id x ≡ Why.get_trace_id y)
    × (Why.get_span_id x ≡ Why.get_span_id y)

-- The getters of How give the same answers.
abbrev SameHow : Option How → Option How → Type 0
SameHow x y =
    (How.get_method x ≡ How.get_method y)
    × (How.get_outcome x ≡ How.get_outcome y)
    × (How.get_severity x ≡ How.get_severity y)
    × (How.get_source x ≡ How.get_source y)

-- The getters of IngestRequest give the same answers.
abbrev SameIngestRequest :
    {P : Protobuf} → Option (IngestRequest P) → Option (IngestRequest P) → Type 0
SameIngestRequest x y = (IngestRequest.get_event x ≡ IngestRequest.get_event y)

-- The getters of IngestResponse give the same answers.
abbrev SameIngestResponse :
    {P : Protobuf} → Option (IngestResponse P) → Option (IngestResponse P) → Type 0
SameIngestResponse x y =
    (IngestResponse.get_event_id x ≡ IngestResponse.get_event_id y)
    × (IngestResponse.get_recorded_at x ≡ IngestResponse.get_recorded_at y)

-- The getters of GetEventRequest give the same answers.
abbrev SameGetEventRequest : Option GetEventRequest → Option GetEventRequest → Type 0
SameGetEventRequest x y = (GetEventRequest.get_event_id x ≡ GetEventRequest.get_event_id y)

-- The getters of ListEventsRequest give the same answers.
abbrev SameListEventsRequest :
    {P : Protobuf} → Option (ListEventsRequest P) → Option (ListEventsRequest P) → Type 0
SameListEventsRequest x y =
    (ListEventsRequest.get_from_time x ≡ ListEventsRequest.get_from_time y)
    × (ListEventsRequest.get_to_time x ≡ ListEventsRequest.get_to_time y)
    × (ListEventsRequest.get_actor_type x ≡ ListEventsRequest.get_actor_type y)
    × (ListEventsRequest.get_actor_id x ≡ ListEventsRequest.get_actor_id y)
    × (ListEventsRequest.get_resource_type x ≡ ListEventsRequest.get_resource_type y)
    × (ListEventsRequest.get_resource_id x ≡ ListEventsRequest.get_resource_id y)
    × (ListEventsRequest.get_action x ≡ ListEventsRequest.get_action y)
    × (ListEventsRequest.get_outcome x ≡ ListEventsRequest.get_outcome y)
    × (ListEventsRequest.get_limit x ≡ ListEventsRequest.get_limit y)
    × (ListEventsRequest.get_cursor x ≡ ListEventsRequest.get_cursor y)

-- The getters of ListEventsResponse give the same answers.
abbrev SameListEventsResponse :
    {P : Protobuf} → Option (ListEventsResponse P) → Option (ListEventsResponse P) → Type 0
SameListEventsResponse x y =
    (ListEventsResponse.get_events x ≡ ListEventsResponse.get_events y)
    × (ListEventsResponse.get_next_cursor x ≡ ListEventsResponse.get_next_cursor y)

event_lem : {P : Protobuf} (x y : Event P) → SameEvent (some x) none ↔ (x ≡ Event.reset y)
unfolding Event.reset Event.get_event_id Event.get_occurred_at Event.get_recorded_at
    Event.get_schema_version Event.get_actor Event.get_what Event.get_where Event.get_why
    Event.get_how Event.get_details
event_lem x y = (
  λ (h0, h1, h2, h3, h4, h5, h6, h7, h8, h9). λ i. record {
    event_id = h0 i;
    occurred_at = h1 i;
    recorded_at = h2 i;
    schema_version = h3 i;
    actor = h4 i;
    what = h5 i;
    where_ = h6 i;
    why = h7 i;
    how = h8 i;
    details = h9 i;
  },
  λ e. rw e (refl, refl, refl, refl, refl, refl, refl, refl, refl, refl),
)

actor_lem : (x y : Actor) → SameActor (some x) none ↔ (x ≡ Actor.reset y)
unfolding Actor.reset Actor.get_type Actor.get_id Actor.get_ip Actor.get_user_agent
actor_lem x y = (
  λ (h0, h1, h2, h3). λ i. record { type = h0 i; id = h1 i; ip = h2 i; user_agent = h3 i },
  λ e. rw e (refl, refl, refl, refl),
)

what_lem : (x y : What) → SameWhat (some x) none ↔ (x ≡ What.reset y)
unfolding What.reset What.get_action What.get_resource_type What.get_resource_id
what_lem x y = (
  λ (h0, h1, h2). λ i. record { action = h0 i; resource_type = h1 i; resource_id = h2 i },
  λ e. rw e (refl, refl, refl),
)

where_lem : (x y : Where) → SameWhere (some x) none ↔ (x ≡ Where.reset y)
unfolding Where.reset Where.get_service Where.get_environment Where.get_region Where.get_host
where_lem x y = (
  λ (h0, h1, h2, h3).
      λ i. record { service = h0 i; environment = h1 i; region = h2 i; host = h3 i },
  λ e. rw e (refl, refl, refl, refl),
)

why_lem : (x y : Why) → SameWhy (some x) none ↔ (x ≡ Why.reset y)
unfolding Why.reset Why.get_reason Why.get_request_id Why.get_trace_id Why.get_span_id
why_lem x y = (
  λ (h0, h1, h2, h3).
      λ i. record { reason = h0 i; request_id = h1 i; trace_id = h2 i; span_id = h3 i },
  λ e. rw e (refl, refl, refl, refl),
)

how_lem : (x y : How) → SameHow (some x) none ↔ (x ≡ How.reset y)
unfolding How.reset How.get_method How.get_outcome How.get_severity How.get_source
how_lem x y = (
  λ (h0, h1, h2, h3). λ i. record { method = h0 i; outcome = h1 i; severity = h2 i; source = h3 i },
  λ e. rw e (refl, refl, refl, refl),
)

ingest_request_lem :
    {P : Protobuf} (x y : IngestRequest P)
    → SameIngestRequest (some x) none ↔ (x ≡ IngestRequest.reset y)
unfolding IngestRequest.reset IngestRequest.get_event
ingest_request_lem x y = (λ h0. λ i. record { event = h0 i }, λ e. rw e refl)

ingest_response_lem :
    {P : Protobuf} (x y : IngestResponse P)
    → SameIngestResponse (some x) none ↔ (x ≡ IngestResponse.reset y)
unfolding IngestResponse.reset IngestResponse.get_event_id IngestResponse.get_recorded_at
ingest_response_lem x y =
    (λ (h0, h1). λ i. record { event_id = h0 i; recorded_at = h1 i }, λ e. rw e (refl, refl))

get_event_request_lem :
    (x y : GetEventRequest) → SameGetEventRequest (some x) none ↔ (x ≡ GetEventRequest.reset y)
unfolding GetEventRequest.reset GetEventRequest.get_event_id
get_event_request_lem x y = (λ h0. λ i. record { event_id = h0 i }, λ e. rw e refl)

list_events_request_lem :
    {P : Protobuf} (x y : ListEventsRequest P)
    → SameListEventsRequest (some x) none ↔ (x ≡ ListEventsRequest.reset y)
unfolding ListEventsRequest.reset ListEventsRequest.get_from_time ListEventsRequest.get_to_time
    ListEventsRequest.get_actor_type ListEventsRequest.get_actor_id
    ListEventsRequest.get_resource_type ListEventsRequest.get_resource_id
    ListEventsRequest.get_action ListEventsRequest.get_outcome ListEventsRequest.get_limit
    ListEventsRequest.get_cursor
list_events_request_lem x y = (
  λ (h0, h1, h2, h3, h4, h5, h6, h7, h8, h9). λ i. record {
    from_time = h0 i;
    to_time = h1 i;
    actor_type = h2 i;
    actor_id = h3 i;
    resource_type = h4 i;
    resource_id = h5 i;
    action = h6 i;
    outcome = h7 i;
    limit = h8 i;
    cursor = h9 i;
  },
  λ e. rw e (refl, refl, refl, refl, refl, refl, refl, refl, refl, refl),
)

list_events_response_lem :
    {P : Protobuf} (x y : ListEventsResponse P)
    → SameListEventsResponse (some x) none ↔ (x ≡ ListEventsResponse.reset y)
unfolding ListEventsResponse.reset ListEventsResponse.get_events ListEventsResponse.get_next_cursor
list_events_response_lem x y =
    (λ (h0, h1). λ i. record { events = h0 i; next_cursor = h1 i }, λ e. rw e (refl, refl))

-- What the getters tell of a message, for each type of message.
abbrev pub NilIffReset : Protobuf → Type 0
NilIffReset P =
    ((x y : Event P) → SameEvent (some x) none ↔ (x ≡ Event.reset y))
    × ((x y : Actor) → SameActor (some x) none ↔ (x ≡ Actor.reset y))
    × ((x y : What) → SameWhat (some x) none ↔ (x ≡ What.reset y))
    × ((x y : Where) → SameWhere (some x) none ↔ (x ≡ Where.reset y))
    × ((x y : Why) → SameWhy (some x) none ↔ (x ≡ Why.reset y))
    × ((x y : How) → SameHow (some x) none ↔ (x ≡ How.reset y))
    × ((x y : IngestRequest P) → SameIngestRequest (some x) none ↔ (x ≡ IngestRequest.reset y))
    × ((x y : IngestResponse P) → SameIngestResponse (some x) none ↔ (x ≡ IngestResponse.reset y))
    × ((x y : GetEventRequest) → SameGetEventRequest (some x) none ↔ (x ≡ GetEventRequest.reset y))
    × ((x y : ListEventsRequest P)
        → SameListEventsRequest (some x) none ↔ (x ≡ ListEventsRequest.reset y))
    × ((x y : ListEventsResponse P)
        → SameListEventsResponse (some x) none ↔ (x ≡ ListEventsResponse.reset y))

-- For each of the 11 message types: a message answers all its getters as the nil pointer does
-- exactly when it is what Reset leaves of any message.
as_nil_audit_iff : (P : Protobuf) → NilIffReset P
as_nil_audit_iff P = (
  event_lem, actor_lem, what_lem, where_lem, why_lem, how_lem, ingest_request_lem,
  ingest_response_lem, get_event_request_lem, list_events_request_lem, list_events_response_lem,
)
