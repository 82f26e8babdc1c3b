-- ===== src/Audit/Store/Scan.antt =====
-- The calls of Scan in modules/audit/src/infra/database/db/audit.sql.go: the destinations in their
-- order.
use mathlib.Core.Option
use micro_services.Base.{List, [], ◌∷◌}
use micro_services.Sql.{Dest}
use micro_services.Audit.Store.Rows.{Columns, AuditEvent, InsertEventRow}

module _ {D : Columns} where
  abbrev pub event_dests : List (Dest D.Value (AuditEvent D))
  event_dests =
      (λ v i. Option.map (λ x. record i { id = x }) (D.read_integer v))
      ∷ (λ v i. Option.map (λ x. record i { event_id = x }) (D.read_uuid v))
      ∷ (λ v i. Option.map (λ x. record i { occurred_at = x }) (D.read_time v))
      ∷ (λ v i. Option.map (λ x. record i { recorded_at = x }) (D.read_time v))
      ∷ (λ v i. Option.map (λ x. record i { schema_version = x }) (D.read_integer v))
      ∷ (λ v i. Option.map (λ x. record i { actor_type = x }) (D.read_text v))
      ∷ (λ v i. Option.map (λ x. record i { actor_id = x }) (D.read_text v))
      ∷ (λ v i. Option.map (λ x. record i { actor_ip = x }) (D.read_inet v))
      ∷ (λ v i. Option.map (λ x. record i { actor_user_agent = x }) (D.read_null_text v))
      ∷ (λ v i. Option.map (λ x. record i { action = x }) (D.read_text v))
      ∷ (λ v i. Option.map (λ x. record i { resource_type = x }) (D.read_text v))
      ∷ (λ v i. Option.map (λ x. record i { resource_id = x }) (D.read_null_text v))
      ∷ (λ v i. Option.map (λ x. record i { service = x }) (D.read_text v))
      ∷ (λ v i. Option.map (λ x. record i { environment = x }) (D.read_text v))
      ∷ (λ v i. Option.map (λ x. record i { region = x }) (D.read_null_text v))
      ∷ (λ v i. Option.map (λ x. record i { host = x }) (D.read_null_text v))
      ∷ (λ v i. Option.map (λ x. record i { reason = x }) (D.read_null_text v))
      ∷ (λ v i. Option.map (λ x. record i { request_id = x }) (D.read_null_text v))
      ∷ (λ v i. Option.map (λ x. record i { trace_id = x }) (D.read_null_text v))
      ∷ (λ v i. Option.map (λ x. record i { span_id = x }) (D.read_null_text v))
      ∷ (λ v i. Option.map (λ x. record i { method = x }) (D.read_text v))
      ∷ (λ v i. Option.map (λ x. record i { outcome = x }) (D.read_text v))
      ∷ (λ v i. Option.map (λ x. record i { severity = x }) (D.read_text v))
      ∷ (λ v i. Option.map (λ x. record i { source = x }) (D.read_text v))
      ∷ (λ v i. Option.map (λ x. record i { details = x }) (D.read_json v))
      ∷ (λ v i. Option.map (λ x. record i { prev_hash = x }) (D.read_null_text v))
      ∷ (λ v i. Option.map (λ x. record i { hash = x }) (D.read_null_text v))
      ∷ []

  abbrev pub inserted_dests : List (Dest D.Value (InsertEventRow D))
  inserted_dests =
      (λ v i. Option.map (λ x. record i { id = x }) (D.read_integer v))
      ∷ (λ v i. Option.map (λ x. record i { event_id = x }) (D.read_uuid v))
      ∷ (λ v i. Option.map (λ x. record i { recorded_at = x }) (D.read_time v))
      ∷ []
