-- ===== src/Audit/Messages/ListEventsRequest.antt =====
-- The message ListEventsRequest of modules/audit/src/route/grpc/audit.pb.go, with its getters.
use micro_services.Base.{ℕ, String, Option, none, some}
use micro_services.Grpc.{Protobuf}

pub record ListEventsRequest (P : Protobuf) : Type 0 where
  pub from_time : Option P.Timestamp
  pub to_time : Option P.Timestamp
  pub actor_type : String
  pub actor_id : String
  pub resource_type : String
  pub resource_id : String
  pub action : String
  pub outcome : String
  pub limit : ℕ
  pub cursor : String

-- The empty message.
unfoldable pub zero_value : {P : Protobuf} → ListEventsRequest P
zero_value = record {
  from_time = none;
  to_time = none;
  actor_type = "";
  actor_id = "";
  resource_type = "";
  resource_id = "";
  action = "";
  outcome = "";
  limit = 0;
  cursor = "";
}

-- Reset: `*x = ListEventsRequest{}`.
unfoldable pub reset : {P : Protobuf} → ListEventsRequest P → ListEventsRequest P
unfolding zero_value
reset x = zero_value

unfoldable pub get_from_time : {P : Protobuf} → Option (ListEventsRequest P) → Option P.Timestamp
get_from_time (some x) = x.from_time
get_from_time none = none

unfoldable pub get_to_time : {P : Protobuf} → Option (ListEventsRequest P) → Option P.Timestamp
get_to_time (some x) = x.to_time
get_to_time none = none

unfoldable pub get_actor_type : {P : Protobuf} → Option (ListEventsRequest P) → String
get_actor_type (some x) = x.actor_type
get_actor_type none = ""

unfoldable pub get_actor_id : {P : Protobuf} → Option (ListEventsRequest P) → String
get_actor_id (some x) = x.actor_id
get_actor_id none = ""

unfoldable pub get_resource_type : {P : Protobuf} → Option (ListEventsRequest P) → String
get_resource_type (some x) = x.resource_type
get_resource_type none = ""

unfoldable pub get_resource_id : {P : Protobuf} → Option (ListEventsRequest P) → String
get_resource_id (some x) = x.resource_id
get_resource_id none = ""

unfoldable pub get_action : {P : Protobuf} → Option (ListEventsRequest P) → String
get_action (some x) = x.action
get_action none = ""

unfoldable pub get_outcome : {P : Protobuf} → Option (ListEventsRequest P) → String
get_outcome (some x) = x.outcome
get_outcome none = ""

unfoldable pub get_limit : {P : Protobuf} → Option (ListEventsRequest P) → ℕ
get_limit (some x) = x.limit
get_limit none = 0

unfoldable pub get_cursor : {P : Protobuf} → Option (ListEventsRequest P) → String
get_cursor (some x) = x.cursor
get_cursor none = ""
