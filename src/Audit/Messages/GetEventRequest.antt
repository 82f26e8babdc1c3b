-- ===== src/Audit/Messages/GetEventRequest.antt =====
-- The message GetEventRequest of modules/audit/src/route/grpc/audit.pb.go, with its getters.
use micro_services.Base.{String, Option, none, some}

pub record GetEventRequest : Type 0 where
  pub event_id : String

-- The empty message.
unfoldable pub zero_value : GetEventRequest
zero_value = record { event_id = "" }

-- Reset: `*x = GetEventRequest{}`.
unfoldable pub reset : GetEventRequest → GetEventRequest
unfolding zero_value
reset x = zero_value

unfoldable pub get_event_id : Option GetEventRequest → String
get_event_id (some x) = x.event_id
get_event_id none = ""
