-- ===== src/Queue/Messages/ConsumeRequest.antt =====
-- The message ConsumeRequest of modules/queue/src/route/grpc/queue.pb.go, with its getters.
use micro_services.Base.{ℕ, String, Option, none, some}
use micro_services.Grpc.{Protobuf}

pub record ConsumeRequest (P : Protobuf) : Type 0 where
  pub topic : String
  pub subscription : String
  pub max_messages : ℕ
  pub max_wait : Option P.Duration
  pub consumer_id : String

-- The empty message.
unfoldable pub zero_value : {P : Protobuf} → ConsumeRequest P
zero_value = record {
  topic = "";
  subscription = "";
  max_messages = 0;
  max_wait = none;
  consumer_id = "";
}

-- Reset: `*x = ConsumeRequest{}`.
unfoldable pub reset : {P : Protobuf} → ConsumeRequest P → ConsumeRequest P
unfolding zero_value
reset x = zero_value

unfoldable pub get_topic : {P : Protobuf} → Option (ConsumeRequest P) → String
get_topic (some x) = x.topic
get_topic none = ""

unfoldable pub get_subscription : {P : Protobuf} → Option (ConsumeRequest P) → String
get_subscription (some x) = x.subscription
get_subscription none = ""

unfoldable pub get_max_messages : {P : Protobuf} → Option (ConsumeRequest P) → ℕ
get_max_messages (some x) = x.max_messages
get_max_messages none = 0

unfoldable pub get_max_wait : {P : Protobuf} → Option (ConsumeRequest P) → Option P.Duration
get_max_wait (some x) = x.max_wait
get_max_wait none = none

unfoldable pub get_consumer_id : {P : Protobuf} → Option (ConsumeRequest P) → String
get_consumer_id (some x) = x.consumer_id
get_consumer_id none = ""
