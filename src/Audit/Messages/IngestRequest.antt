-- ===== src/Audit/Messages/IngestRequest.antt =====
-- The message IngestRequest of modules/audit/src/route/grpc/audit.pb.go, with its getters.
use micro_services.Base.{Option, none, some}
use micro_services.Grpc.{Protobuf}
use micro_services.Audit.Messages.Event.{Event}

pub record IngestRequest (P : Protobuf) : Type 0 where
  pub event : Option (Event P)

-- The empty message.
unfoldable pub zero_value : {P : Protobuf} → IngestRequest P
zero_value = record { event = none }

-- Reset: `*x = IngestRequest{}`.
unfoldable pub reset : {P : Protobuf} → IngestRequest P → IngestRequest P
unfolding zero_value
reset x = zero_value

unfoldable pub get_event : {P : Protobuf} → Option (IngestRequest P) → Option (Event P)
get_event (some x) = x.event
get_event none = none
