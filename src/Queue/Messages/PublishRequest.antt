-- ===== src/Queue/Messages/PublishRequest.antt =====
-- The message PublishRequest of modules/queue/src/route/grpc/queue.pb.go, with its getters.
use micro_services.Base.{ℕ, String, Option, none, some, List, []}
use micro_services.Grpc.{Protobuf}

pub record PublishRequest (P : Protobuf) : Type 0 where
  pub topic : String
  pub payload : List ℕ
  pub priority : ℕ
  pub partition_key : String
  pub headers : List (String × String)
  pub available_at : Option P.Timestamp
  pub expires_at : Option P.Timestamp

-- The empty message.
unfoldable pub zero_value : {P : Protobuf} → PublishRequest P
zero_value = record {
  topic = "";
  payload = [];
  priority = 0;
  partition_key = "";
  headers = [];
  available_at = none;
  expires_at = none;
}

-- Reset: `*x = PublishRequest{}`.
unfoldable pub reset : {P : Protobuf} → PublishRequest P → PublishRequest P
unfolding zero_value
reset x = zero_value

unfoldable pub get_topic : {P : Protobuf} → Option (PublishRequest P) → String
get_topic (some x) = x.topic
get_topic none = ""

unfoldable pub get_payload : {P : Protobuf} → Option (PublishRequest P) → List ℕ
get_payload (some x) = x.payload
get_payload none = []

unfoldable pub get_priority : {P : Protobuf} → Option (PublishRequest P) → ℕ
get_priority (some x) = x.priority
get_priority none = 0

unfoldable pub get_partition_key : {P : Protobuf} → Option (PublishRequest P) → String
get_partition_key (some x) = x.partition_key
get_partition_key none = ""

unfoldable pub get_headers : {P : Protobuf} → Option (PublishRequest P) → List (String × String)
get_headers (some x) = x.headers
get_headers none = []

unfoldable pub get_available_at : {P : Protobuf} → Option (PublishRequest P) → Option P.Timestamp
get_available_at (some x) = x.available_at
get_available_at none = none

unfoldable pub get_expires_at : {P : Protobuf} → Option (PublishRequest P) → Option P.Timestamp
get_expires_at (some x) = x.expires_at
get_expires_at none = none
