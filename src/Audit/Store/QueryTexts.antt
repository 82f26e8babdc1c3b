-- ===== src/Audit/Store/QueryTexts.antt =====
-- The columns that the queries name, in the order of their texts.
use micro_services.Base.{String, ◌≡◌, refl, List, [], ◌∷◌, ◌<>◌}
use micro_services.Audit.Store.Rows.{get_event_query, insert_event_query}

abbrev pub insert_columns : List String
insert_columns =
    "event_id" ∷ "occurred_at" ∷ "schema_version" ∷ "actor_type" ∷ "actor_id" ∷ "actor_ip"
    ∷ "actor_user_agent" ∷ "action" ∷ "resource_type" ∷ "resource_id" ∷ "service" ∷ "environment"
    ∷ "region" ∷ "host" ∷ "reason" ∷ "request_id" ∷ "trace_id" ∷ "span_id" ∷ "method" ∷ "outcome"
    ∷ "severity" ∷ "source" ∷ "details" ∷ []

abbrev pub returning_columns : List String
returning_columns = "id" ∷ "event_id" ∷ "recorded_at" ∷ []

abbrev pub select_columns : List String
select_columns =
    "id" ∷ "event_id" ∷ "occurred_at" ∷ "recorded_at" ∷ "schema_version" ∷ "actor_type" ∷ "actor_id"
    ∷ "actor_ip" ∷ "actor_user_agent" ∷ "action" ∷ "resource_type" ∷ "resource_id" ∷ "service"
    ∷ "environment" ∷ "region" ∷ "host" ∷ "reason" ∷ "request_id" ∷ "trace_id" ∷ "span_id"
    ∷ "method" ∷ "outcome" ∷ "severity" ∷ "source" ∷ "details" ∷ "prev_hash" ∷ "hash" ∷ []

abbrev joined : String → List String → String
joined comma [] = ""
joined comma (c ∷ []) = c
joined comma (c ∷ cs) = c <> comma <> joined comma cs

insert_event_query_lem :
    insert_event_query
    ≡ "-- name: InsertEvent :one\nINSERT INTO audit_events (\n    "
      <> joined ",\n    " insert_columns
      <> "\n) VALUES (\n    $1, $2, $3, $4, $5, $6, $7, $8, $9, $10,\n    $11, $12, $13, $14, $15, $16, $17, $18, $19, $20,\n    $21, $22, $23\n)\nON CONFLICT (event_id) DO NOTHING\nRETURNING\n    "
      <> joined ",\n    " returning_columns
      <> "\n"
insert_event_query_lem = refl

get_event_query_lem :
    get_event_query
    ≡ "-- name: GetEventByEventID :one\nSELECT\n    "
      <> joined ", " select_columns
      <> "\nFROM\n    audit_events\nWHERE\n    event_id = $1\n"
get_event_query_lem = refl
