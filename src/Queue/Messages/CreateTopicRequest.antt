-- ===== src/Queue/Messages/CreateTopicRequest.antt =====
-- The message CreateTopicRequest of modules/queue/src/route/grpc/queue.pb.go, with its getters.
use micro_services.Base.{ℕ, String, Option, none, some}
use micro_services.Grpc.{Protobuf}

pub record CreateTopicRequest (P : Protobuf) : Type 0 where
  pub name : String
  pub default_ttl : Option P.Duration
  pub max_priority : ℕ

-- The empty message.
unfoldable pub zero_value : {P : Protobuf} → CreateTopicRequest P
zero_value = record { name = ""; default_ttl = none; max_priority = 0 }

-- Reset: `*x = CreateTopicRequest{}`.
unfoldable pub reset : {P : Protobuf} → CreateTopicRequest P → CreateTopicRequest P
unfolding zero_value
reset x = zero_value

unfoldable pub get_name : {P : Protobuf} → Option (CreateTopicRequest P) → String
get_name (some x) = x.name
get_name none = ""

unfoldable pub get_default_ttl : {P : Protobuf} → Option (CreateTopicRequest P) → Option P.Duration
get_default_ttl (some x) = x.default_ttl
get_default_ttl none = none

unfoldable pub get_max_priority : {P : Protobuf} → Option (CreateTopicRequest P) → ℕ
get_max_priority (some x) = x.max_priority
get_max_priority none = 0
