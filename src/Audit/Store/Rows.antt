-- ===== src/Audit/Store/Rows.antt =====
-- modules/audit/src/infra/database/db: the rows, the parameters and the texts of the queries.
use micro_services.Base.{String, ℤ, pos, Option, List, [], ◌∷◌}

-- The types of the columns that other packages declare, with their zero values, and how database/sql
-- and the driver bind a Go value to a column's value and read it back.
pub record Columns : Type 1 where
  pub Uuid : Type 0
  pub Time : Type 0
  pub Inet : Type 0
  pub NullString : Type 0
  pub NullRawMessage : Type 0
  pub zero_uuid : Uuid
  pub zero_time : Time
  pub zero_inet : Inet
  pub zero_null_text : NullString
  pub zero_json : NullRawMessage
  pub Value : Type 0
  pub bind_integer : ℤ → Value
  pub bind_uuid : Uuid → Value
  pub bind_time : Time → Value
  pub bind_text : String → Value
  pub bind_inet : Inet → Value
  pub bind_null_text : NullString → Value
  pub bind_json : NullRawMessage → Value
  -- What a column of this name keeps of a value that was bound for it: a VARCHAR(n), for instance,
  -- cuts the spaces at the end that are too many.
  pub kept : (column : String) → Value → Value
  pub read_integer : Value → Option ℤ
  pub read_uuid : Value → Option Uuid
  pub read_time : Value → Option Time
  pub read_text : Value → Option String
  pub read_inet : Value → Option Inet
  pub read_null_text : Value → Option NullString
  pub read_json : Value → Option NullRawMessage

module _ (D : Columns) where
  -- A row of audit_events.
  pub record AuditEvent : Type 0 where
    pub id : ℤ
    pub event_id : D.Uuid
    pub occurred_at : D.Time
    pub recorded_at : D.Time
    pub schema_version : ℤ
    pub actor_type : String
    pub actor_id : String
    pub actor_ip : D.Inet
    pub actor_user_agent : D.NullString
    pub action : String
    pub resource_type : String
    pub resource_id : D.NullString
    pub service : String
    pub environment : String
    pub region : D.NullString
    pub host : D.NullString
    pub reason : D.NullString
    pub request_id : D.NullString
    pub trace_id : D.NullString
    pub span_id : D.NullString
    pub method : String
    pub outcome : String
    pub severity : String
    pub source : String
    pub details : D.NullRawMessage
    pub prev_hash : D.NullString
    pub hash : D.NullString

  -- What an insertion gives.
  pub record InsertEventParams : Type 0 where
    pub event_id : D.Uuid
    pub occurred_at : D.Time
    pub schema_version : ℤ
    pub actor_type : String
    pub actor_id : String
    pub actor_ip : D.Inet
    pub actor_user_agent : D.NullString
    pub action : String
    pub resource_type : String
    pub resource_id : D.NullString
    pub service : String
    pub environment : String
    pub region : D.NullString
    pub host : D.NullString
    pub reason : D.NullString
    pub request_id : D.NullString
    pub trace_id : D.NullString
    pub span_id : D.NullString
    pub method : String
    pub outcome : String
    pub severity : String
    pub source : String
    pub details : D.NullRawMessage

  -- What an insertion returns.
  pub record InsertEventRow : Type 0 where
    pub id : ℤ
    pub event_id : D.Uuid
    pub recorded_at : D.Time

  -- The range and the limit of a listing.
  pub record ListEventsByTimeRangeParams : Type 0 where
    pub occurred_at : D.Time
    pub occurred_at_2 : D.Time
    pub limit : ℤ

-- `var i AuditEvent`
abbrev pub zero_event : {D : Columns} → AuditEvent D
zero_event {D} = record {
  id = pos 0;
  event_id = D.zero_uuid;
  occurred_at = D.zero_time;
  recorded_at = D.zero_time;
  schema_version = pos 0;
  actor_type = "";
  actor_id = "";
  actor_ip = D.zero_inet;
  actor_user_agent = D.zero_null_text;
  action = "";
  resource_type = "";
  resource_id = D.zero_null_text;
  service = "";
  environment = "";
  region = D.zero_null_text;
  host = D.zero_null_text;
  reason = D.zero_null_text;
  request_id = D.zero_null_text;
  trace_id = D.zero_null_text;
  span_id = D.zero_null_text;
  method = "";
  outcome = "";
  severity = "";
  source = "";
  details = D.zero_json;
  prev_hash = D.zero_null_text;
  hash = D.zero_null_text;
}

abbrev pub zero_inserted : {D : Columns} → InsertEventRow D
zero_inserted {D} = record { id = pos 0; event_id = D.zero_uuid; recorded_at = D.zero_time }

abbrev pub insert_args : {D : Columns} → InsertEventParams D → List D.Value
insert_args {D} arg =
    D.bind_uuid arg.event_id
    ∷ D.bind_time arg.occurred_at
    ∷ D.bind_integer arg.schema_version
    ∷ D.bind_text arg.actor_type
    ∷ D.bind_text arg.actor_id
    ∷ D.bind_inet arg.actor_ip
    ∷ D.bind_null_text arg.actor_user_agent
    ∷ D.bind_text arg.action
    ∷ D.bind_text arg.resource_type
    ∷ D.bind_null_text arg.resource_id
    ∷ D.bind_text arg.service
    ∷ D.bind_text arg.environment
    ∷ D.bind_null_text arg.region
    ∷ D.bind_null_text arg.host
    ∷ D.bind_null_text arg.reason
    ∷ D.bind_null_text arg.request_id
    ∷ D.bind_null_text arg.trace_id
    ∷ D.bind_null_text arg.span_id
    ∷ D.bind_text arg.method
    ∷ D.bind_text arg.outcome
    ∷ D.bind_text arg.severity
    ∷ D.bind_text arg.source
    ∷ D.bind_json arg.details
    ∷ []

abbrev pub get_event_query : String
get_event_query =
    "-- name: GetEventByEventID :one\nSELECT\n    id, event_id, occurred_at, recorded_at, schema_version, actor_type, actor_id, actor_ip, actor_user_agent, action, resource_type, resource_id, service, environment, region, host, reason, request_id, trace_id, span_id, method, outcome, severity, source, details, prev_hash, hash\nFROM\n    audit_events\nWHERE\n    event_id = $1\n"

abbrev pub insert_event_query : String
insert_event_query =
    "-- name: InsertEvent :one\nINSERT INTO audit_events (\n    event_id,\n    occurred_at,\n    schema_version,\n    actor_type,\n    actor_id,\n    actor_ip,\n    actor_user_agent,\n    action,\n    resource_type,\n    resource_id,\n    service,\n    environment,\n    region,\n    host,\n    reason,\n    request_id,\n    trace_id,\n    span_id,\n    method,\n    outcome,\n    severity,\n    source,\n    details\n) VALUES (\n    $1, $2, $3, $4, $5, $6, $7, $8, $9, $10,\n    $11, $12, $13, $14, $15, $16, $17, $18, $19, $20,\n    $21, $22, $23\n)\nON CONFLICT (event_id) DO NOTHING\nRETURNING\n    id,\n    event_id,\n    recorded_at\n"

abbrev pub list_events_query : String
list_events_query =
    "-- name: ListEventsByTimeRange :many\nSELECT\n    id, event_id, occurred_at, recorded_at, schema_version, actor_type, actor_id, actor_ip, actor_user_agent, action, resource_type, resource_id, service, environment, region, host, reason, request_id, trace_id, span_id, method, outcome, severity, source, details, prev_hash, hash\nFROM\n    audit_events\nWHERE\n    occurred_at BETWEEN $1 AND $2\nORDER BY\n    occurred_at DESC,\n    id DESC\nLIMIT $3\n"
