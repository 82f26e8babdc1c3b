-- ===== src/Audit/Store/Stored.antt =====
-- The event that an insertion stores, and the row of the table that holds it.
use micro_services.Base.{String, ◌≡◌, ◌∙◌, ap, none, some, Option-cases, inl, inr, map, arith}
use micro_services.Errors.{ok}
use micro_services.Audit.Store.Rows.{
  Columns, AuditEvent, zero_event, InsertEventParams, InsertEventRow, insert_args,
}
use micro_services.Audit.Store.QueryTexts.{insert_columns, returning_columns, select_columns}
use micro_services.Audit.Store.{Dbtx, scan_event, scan_inserted}
use mathlib.Core.Option
use micro_services.Audit.Store.Scan.{event_dests}
use micro_services.Sql.Reading.{Reads, nothing, ◌▸◌, Reads-scan}
use micro_services.Audit.Store.Table.{Codec, Carries}

module _ {D : Columns} (C : Codec D) where
  -- The event that an insertion stores, by its parameters and the row that it returned.
  abbrev pub event_of : InsertEventParams D → InsertEventRow D → AuditEvent D
  event_of arg r = record {
    id = r.id;
    event_id = arg.event_id;
    occurred_at = C.stored_time arg.occurred_at;
    recorded_at = r.recorded_at;
    schema_version = arg.schema_version;
    actor_type = C.stored_text "actor_type" arg.actor_type;
    actor_id = C.stored_text "actor_id" arg.actor_id;
    actor_ip = C.stored_inet arg.actor_ip;
    actor_user_agent = C.stored_null_text "actor_user_agent" arg.actor_user_agent;
    action = C.stored_text "action" arg.action;
    resource_type = C.stored_text "resource_type" arg.resource_type;
    resource_id = C.stored_null_text "resource_id" arg.resource_id;
    service = C.stored_text "service" arg.service;
    environment = C.stored_text "environment" arg.environment;
    region = C.stored_null_text "region" arg.region;
    host = C.stored_null_text "host" arg.host;
    reason = C.stored_null_text "reason" arg.reason;
    request_id = C.stored_null_text "request_id" arg.request_id;
    trace_id = C.stored_null_text "trace_id" arg.trace_id;
    span_id = C.stored_null_text "span_id" arg.span_id;
    method = C.stored_text "method" arg.method;
    outcome = C.stored_text "outcome" arg.outcome;
    severity = C.stored_text "severity" arg.severity;
    source = C.stored_text "source" arg.source;
    details = C.stored_json arg.details;
    prev_hash = D.zero_null_text;
    hash = D.zero_null_text;
  }

  -- A row of the table that holds this event.
  pub record Holds (new : String → D.Value) (arg : InsertEventParams D) (r : InsertEventRow D)
      : Type 0 where
    pub id_read : D.read_integer (new "id") ≡ some (r.id)
    pub event_id_read : D.read_uuid (new "event_id") ≡ some (arg.event_id)
    pub occurred_at_read : D.read_time (new "occurred_at") ≡ some (C.stored_time arg.occurred_at)
    pub recorded_at_read : D.read_time (new "recorded_at") ≡ some (r.recorded_at)
    pub schema_version_read : D.read_integer (new "schema_version") ≡ some (arg.schema_version)
    pub actor_type_read :
        D.read_text (new "actor_type") ≡ some (C.stored_text "actor_type" arg.actor_type)
    pub actor_id_read : D.read_text (new "actor_id") ≡ some (C.stored_text "actor_id" arg.actor_id)
    pub actor_ip_read : D.read_inet (new "actor_ip") ≡ some (C.stored_inet arg.actor_ip)
    pub actor_user_agent_read :
        D.read_null_text (new "actor_user_agent")
        ≡ some (C.stored_null_text "actor_user_agent" arg.actor_user_agent)
    pub action_read : D.read_text (new "action") ≡ some (C.stored_text "action" arg.action)
    pub resource_type_read :
        D.read_text (new "resource_type") ≡ some (C.stored_text "resource_type" arg.resource_type)
    pub resource_id_read :
        D.read_null_text (new "resource_id")
        ≡ some (C.stored_null_text "resource_id" arg.resource_id)
    pub service_read : D.read_text (new "service") ≡ some (C.stored_text "service" arg.service)
    pub environment_read :
        D.read_text (new "environment") ≡ some (C.stored_text "environment" arg.environment)
    pub region_read :
        D.read_null_text (new "region") ≡ some (C.stored_null_text "region" arg.region)
    pub host_read : D.read_null_text (new "host") ≡ some (C.stored_null_text "host" arg.host)
    pub reason_read :
        D.read_null_text (new "reason") ≡ some (C.stored_null_text "reason" arg.reason)
    pub request_id_read :
        D.read_null_text (new "request_id") ≡ some (C.stored_null_text "request_id" arg.request_id)
    pub trace_id_read :
        D.read_null_text (new "trace_id") ≡ some (C.stored_null_text "trace_id" arg.trace_id)
    pub span_id_read :
        D.read_null_text (new "span_id") ≡ some (C.stored_null_text "span_id" arg.span_id)
    pub method_read : D.read_text (new "method") ≡ some (C.stored_text "method" arg.method)
    pub outcome_read : D.read_text (new "outcome") ≡ some (C.stored_text "outcome" arg.outcome)
    pub severity_read : D.read_text (new "severity") ≡ some (C.stored_text "severity" arg.severity)
    pub source_read : D.read_text (new "source") ≡ some (C.stored_text "source" arg.source)
    pub details_read : D.read_json (new "details") ≡ some (C.stored_json arg.details)
    pub prev_hash_read : D.read_null_text (new "prev_hash") ≡ some (D.zero_null_text)
    pub hash_read : D.read_null_text (new "hash") ≡ some (D.zero_null_text)

module _ {D : Columns} (B : Dbtx D) (C : Codec D) where
  event-Reads :
      (new : String → D.Value) (arg : InsertEventParams D) (r : InsertEventRow D)
      → Holds C new arg r
      → Reads event_dests (map new select_columns) zero_event (event_of C arg r)
  event-Reads new arg r h =
      ap (Option.map _) h.id_read
      ▸ ap (Option.map _) h.event_id_read
      ▸ ap (Option.map _) h.occurred_at_read
      ▸ ap (Option.map _) h.recorded_at_read
      ▸ ap (Option.map _) h.schema_version_read
      ▸ ap (Option.map _) h.actor_type_read
      ▸ ap (Option.map _) h.actor_id_read
      ▸ ap (Option.map _) h.actor_ip_read
      ▸ ap (Option.map _) h.actor_user_agent_read
      ▸ ap (Option.map _) h.action_read
      ▸ ap (Option.map _) h.resource_type_read
      ▸ ap (Option.map _) h.resource_id_read
      ▸ ap (Option.map _) h.service_read
      ▸ ap (Option.map _) h.environment_read
      ▸ ap (Option.map _) h.region_read
      ▸ ap (Option.map _) h.host_read
      ▸ ap (Option.map _) h.reason_read
      ▸ ap (Option.map _) h.request_id_read
      ▸ ap (Option.map _) h.trace_id_read
      ▸ ap (Option.map _) h.span_id_read
      ▸ ap (Option.map _) h.method_read
      ▸ ap (Option.map _) h.outcome_read
      ▸ ap (Option.map _) h.severity_read
      ▸ ap (Option.map _) h.source_read
      ▸ ap (Option.map _) h.details_read
      ▸ ap (Option.map _) h.prev_hash_read
      ▸ ap (Option.map _) h.hash_read
      ▸ nothing

  pub scan_event-Holds :
      (new : String → D.Value) (arg : InsertEventParams D) (r : InsertEventRow D)
      → Holds C new arg r
      → scan_event B (ok (map new select_columns)) ≡ (event_of C arg r, none)
  scan_event-Holds new arg r h = Reads-scan B.scan_errors (event-Reads new arg r h)

  -- A row that carries the arguments of an insertion, and whose returned columns are read.
  pub returned_read :
      (new : String → D.Value) (r : InsertEventRow D)
      → scan_inserted B (ok (map new returning_columns)) ≡ (r, none)
      → (D.read_integer (new "id") ≡ some r.id)
        × (D.read_time (new "recorded_at") ≡ some r.recorded_at)
  returned_read new r h = elim (Option-cases (D.read_integer (new "id"))) [
    | inl absent ↦ ground (arith, absent)
    | inr (i, there) ↦ elim (Option-cases (D.read_uuid (new "event_id"))) [
      | inl absent ↦ ground (arith, there, absent)
      | inr (u, there') ↦ elim (Option-cases (D.read_time (new "recorded_at"))) [
        | inl absent ↦ ground (arith, there, there', absent)
        | inr (t, there'') ↦ ground (arith, there, there', there'')
      ]
    ]
  ]

  pub carried-Holds :
      (new : String → D.Value) (arg : InsertEventParams D) (r : InsertEventRow D)
      → Carries D.kept insert_columns (insert_args arg) new
      → new "prev_hash" ≡ D.bind_null_text D.zero_null_text
      → new "hash" ≡ D.bind_null_text D.zero_null_text
      → (D.read_integer (new "id") ≡ some r.id)
        × (D.read_time (new "recorded_at") ≡ some r.recorded_at)
      → Holds C new arg r
  carried-Holds new arg r c p q (i, t) = record {
    id_read = i;
    event_id_read = ap D.read_uuid (c.0 ∙ C.kept-bind_uuid _ _) ∙ C.read-bind_uuid _;
    occurred_at_read = ap D.read_time c.1.0 ∙ C.read_time-kept _ _;
    recorded_at_read = t;
    schema_version_read = ap D.read_integer c.1.1.0 ∙ C.read_integer-kept _ _;
    actor_type_read = ap D.read_text c.1.1.1.0 ∙ C.read_text-kept _ _;
    actor_id_read = ap D.read_text c.1.1.1.1.0 ∙ C.read_text-kept _ _;
    actor_ip_read = ap D.read_inet c.1.1.1.1.1.0 ∙ C.read_inet-kept _ _;
    actor_user_agent_read = ap D.read_null_text c.1.1.1.1.1.1.0 ∙ C.read_null_text-kept _ _;
    action_read = ap D.read_text c.1.1.1.1.1.1.1.0 ∙ C.read_text-kept _ _;
    resource_type_read = ap D.read_text c.1.1.1.1.1.1.1.1.0 ∙ C.read_text-kept _ _;
    resource_id_read = ap D.read_null_text c.1.1.1.1.1.1.1.1.1.0 ∙ C.read_null_text-kept _ _;
    service_read = ap D.read_text c.1.1.1.1.1.1.1.1.1.1.0 ∙ C.read_text-kept _ _;
    environment_read = ap D.read_text c.1.1.1.1.1.1.1.1.1.1.1.0 ∙ C.read_text-kept _ _;
    region_read = ap D.read_null_text c.1.1.1.1.1.1.1.1.1.1.1.1.0 ∙ C.read_null_text-kept _ _;
    host_read = ap D.read_null_text c.1.1.1.1.1.1.1.1.1.1.1.1.1.0 ∙ C.read_null_text-kept _ _;
    reason_read = ap D.read_null_text c.1.1.1.1.1.1.1.1.1.1.1.1.1.1.0 ∙ C.read_null_text-kept _ _;
    request_id_read =
        ap D.read_null_text c.1.1.1.1.1.1.1.1.1.1.1.1.1.1.1.0 ∙ C.read_null_text-kept _ _;
    trace_id_read =
        ap D.read_null_text c.1.1.1.1.1.1.1.1.1.1.1.1.1.1.1.1.0 ∙ C.read_null_text-kept _ _;
    span_id_read =
        ap D.read_null_text c.1.1.1.1.1.1.1.1.1.1.1.1.1.1.1.1.1.0 ∙ C.read_null_text-kept _ _;
    method_read = ap D.read_text c.1.1.1.1.1.1.1.1.1.1.1.1.1.1.1.1.1.1.0 ∙ C.read_text-kept _ _;
    outcome_read = ap D.read_text c.1.1.1.1.1.1.1.1.1.1.1.1.1.1.1.1.1.1.1.0 ∙ C.read_text-kept _ _;
    severity_read =
        ap D.read_text c.1.1.1.1.1.1.1.1.1.1.1.1.1.1.1.1.1.1.1.1.0 ∙ C.read_text-kept _ _;
    source_read =
        ap D.read_text c.1.1.1.1.1.1.1.1.1.1.1.1.1.1.1.1.1.1.1.1.1.0 ∙ C.read_text-kept _ _;
    details_read =
        ap D.read_json c.1.1.1.1.1.1.1.1.1.1.1.1.1.1.1.1.1.1.1.1.1.1.0 ∙ C.read_json-kept _ _;
    prev_hash_read = ap D.read_null_text p ∙ C.read_null;
    hash_read = ap D.read_null_text q ∙ C.read_null;
  }
