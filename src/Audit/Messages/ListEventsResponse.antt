-- ===== src/Audit/Messages/ListEventsResponse.antt =====
-- The message ListEventsResponse of modules/audit/src/route/grpc/audit.pb.go, with its getters.
use micro_services.Base.{String, Option, none, some, List, []}
use micro_services.Grpc.{Protobuf}
use micro_services.Audit.Messages.Event.{Event}

pub record ListEventsResponse (P : Protobuf) : Type 0 where
  pub events : List (Option (Event P))
  pub next_cursor : String

-- The empty message.
unfoldable pub zero_value : {P : Protobuf} → ListEventsResponse P
zero_value = record { events = []; next_cursor = "" }

-- Reset: `*x = ListEventsResponse{}`.
unfoldable pub reset : {P : Protobuf} → ListEventsResponse P → ListEventsResponse P
unfolding zero_value
reset x = zero_value

unfoldable pub get_events : {P : Protobuf} → Option (ListEventsResponse P) → List (Option (Event P))
get_events (some x) = x.events
get_events none = []

unfoldable pub get_next_cursor : {P : Protobuf} → Option (ListEventsResponse P) → String
get_next_cursor (some x) = x.next_cursor
get_next_cursor none = ""
