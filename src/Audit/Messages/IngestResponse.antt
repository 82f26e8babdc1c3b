-- ===== src/Audit/Messages/IngestResponse.antt =====
-- The message IngestResponse of modules/audit/src/route/grpc/audit.pb.go, with its getters.
use micro_services.Base.{String, Option, none, some}
use micro_services.Grpc.{Protobuf}

pub record IngestResponse (P : Protobuf) : Type 0 where
  pub event_id : String
  pub recorded_at : Option P.Timestamp

-- The empty message.
unfoldable pub zero_value : {P : Protobuf} → IngestResponse P
zero_value = record { event_id = ""; recorded_at = none }

-- Reset: `*x = IngestResponse{}`.
unfoldable pub reset : {P : Protobuf} → IngestResponse P → IngestResponse P
unfolding zero_value
reset x = zero_value

unfoldable pub get_event_id : {P : Protobuf} → Option (IngestResponse P) → String
get_event_id (some x) = x.event_id
get_event_id none = ""

unfoldable pub get_recorded_at : {P : Protobuf} → Option (IngestResponse P) → Option P.Timestamp
get_recorded_at (some x) = x.recorded_at
get_recorded_at none = none
