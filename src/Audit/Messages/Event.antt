-- ===== src/Audit/Messages/Event.antt =====
-- The message Event of modules/audit/src/route/grpc/audit.pb.go, with its getters.
use micro_services.Base.{ℕ, String, Option, none, some, List, []}
use micro_services.Grpc.{Protobuf}
use micro_services.Audit.Messages.Actor.{Actor}
use micro_services.Audit.Messages.How.{How}
use micro_services.Audit.Messages.What.{What}
use micro_services.Audit.Messages.Where.{Where}
use micro_services.Audit.Messages.Why.{Why}

pub record Event (P : Protobuf) : Type 0 where
  pub event_id : String
  pub occurred_at : Option P.Timestamp
  pub recorded_at : Option P.Timestamp
  pub schema_version : ℕ
  pub actor : Option Actor
  pub what : Option What
  pub where_ : Option Where
  pub why : Option Why
  pub how : Option How
  pub details : List ℕ

-- The empty message.
unfoldable pub zero_value : {P : Protobuf} → Event P
zero_value = record {
  event_id = "";
  occurred_at = none;
  recorded_at = none;
  schema_version = 0;
  actor = none;
  what = none;
  where_ = none;
  why = none;
  how = none;
  details = [];
}

-- Reset: `*x = Event{}`.
unfoldable pub reset : {P : Protobuf} → Event P → Event P
unfolding zero_value
reset x = zero_value

unfoldable pub get_event_id : {P : Protobuf} → Option (Event P) → String
get_event_id (some x) = x.event_id
get_event_id none = ""

unfoldable pub get_occurred_at : {P : Protobuf} → Option (Event P) → Option P.Timestamp
get_occurred_at (some x) = x.occurred_at
get_occurred_at none = none

unfoldable pub get_recorded_at : {P : Protobuf} → Option (Event P) → Option P.Timestamp
get_recorded_at (some x) = x.recorded_at
get_recorded_at none = none

unfoldable pub get_schema_version : {P : Protobuf} → Option (Event P) → ℕ
get_schema_version (some x) = x.schema_version
get_schema_version none = 0

unfoldable pub get_actor : {P : Protobuf} → Option (Event P) → Option Actor
get_actor (some x) = x.actor
get_actor none = none

unfoldable pub get_what : {P : Protobuf} → Option (Event P) → Option What
get_what (some x) = x.what
get_what none = none

unfoldable pub get_where : {P : Protobuf} → Option (Event P) → Option Where
get_where (some x) = x.where_
get_where none = none

unfoldable pub get_why : {P : Protobuf} → Option (Event P) → Option Why
get_why (some x) = x.why
get_why none = none

unfoldable pub get_how : {P : Protobuf} → Option (Event P) → Option How
get_how (some x) = x.how
get_how none = none

unfoldable pub get_details : {P : Protobuf} → Option (Event P) → List ℕ
get_details (some x) = x.details
get_details none = []
