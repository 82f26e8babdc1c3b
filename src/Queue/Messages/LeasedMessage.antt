-- ===== src/Queue/Messages/LeasedMessage.antt =====
-- The message LeasedMessage of modules/queue/src/route/grpc/queue.pb.go, with its getters.
use micro_services.Base.{ℕ, String, Option, none, some, List, []}
use micro_services.Grpc.{Protobuf}

pub record LeasedMessage (P : Protobuf) : Type 0 where
  pub lease_id : String
  pub message_id : ℕ
  pub payload : List ℕ
  pub priority : ℕ
  pub partition_key : String
  pub headers : List (String × String)
  pub producer_id : String
  pub attempt : ℕ
  pub enqueued_at : Option P.Timestamp
  pub leased_until : Option P.Timestamp

-- The empty message.
unfoldable pub zero_value : {P : Protobuf} → LeasedMessage P
zero_value = record {
  lease_id = "";
  message_id = 0;
  payload = [];
  priority = 0;
  partition_key = "";
  headers = [];
  producer_id = "";
  attempt = 0;
  enqueued_at = none;
  leased_until = none;
}

-- Reset: `*x = LeasedMessage{}`.
unfoldable pub reset : {P : Protobuf} → LeasedMessage P → LeasedMessage P
unfolding zero_value
reset x = zero_value

unfoldable pub get_lease_id : {P : Protobuf} → Option (LeasedMessage P) → String
get_lease_id (some x) = x.lease_id
get_lease_id none = ""

unfoldable pub get_message_id : {P : Protobuf} → Option (LeasedMessage P) → ℕ
get_message_id (some x) = x.message_id
get_message_id none = 0

unfoldable pub get_payload : {P : Protobuf} → Option (LeasedMessage P) → List ℕ
get_payload (some x) = x.payload
get_payload none = []

unfoldable pub get_priority : {P : Protobuf} → Option (LeasedMessage P) → ℕ
get_priority (some x) = x.priority
get_priority none = 0

unfoldable pub get_partition_key : {P : Protobuf} → Option (LeasedMessage P) → String
get_partition_key (some x) = x.partition_key
get_partition_key none = ""

unfoldable pub get_headers : {P : Protobuf} → Option (LeasedMessage P) → List (String × String)
get_headers (some x) = x.headers
get_headers none = []

unfoldable pub get_producer_id : {P : Protobuf} → Option (LeasedMessage P) → String
get_producer_id (some x) = x.producer_id
get_producer_id none = ""

unfoldable pub get_attempt : {P : Protobuf} → Option (LeasedMessage P) → ℕ
get_attempt (some x) = x.attempt
get_attempt none = 0

unfoldable pub get_enqueued_at : {P : Protobuf} → Option (LeasedMessage P) → Option P.Timestamp
get_enqueued_at (some x) = x.enqueued_at
get_enqueued_at none = none

unfoldable pub get_leased_until : {P : Protobuf} → Option (LeasedMessage P) → Option P.Timestamp
get_leased_until (some x) = x.leased_until
get_leased_until none = none
