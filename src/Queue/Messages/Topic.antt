-- ===== src/Queue/Messages/Topic.antt =====
-- The message Topic of modules/queue/src/route/grpc/queue.pb.go, with its getters.
use micro_services.Base.{ℕ, String, Option, none, some}
use micro_services.Grpc.{Protobuf}

pub record Topic (P : Protobuf) : Type 0 where
  pub name : String
  pub default_ttl : Option P.Duration
  pub max_priority : ℕ
  pub created_at : Option P.Timestamp

-- The empty message.
unfoldable pub zero_value : {P : Protobuf} → Topic P
zero_value = record { name = ""; default_ttl = none; max_priority = 0; created_at = none }

-- Reset: `*x = Topic{}`.
unfoldable pub reset : {P : Protobuf} → Topic P → Topic P
unfolding zero_value
reset x = zero_value

unfoldable pub get_name : {P : Protobuf} → Option (Topic P) → String
get_name (some x) = x.name
get_name none = ""

unfoldable pub get_default_ttl : {P : Protobuf} → Option (Topic P) → Option P.Duration
get_default_ttl (some x) = x.default_ttl
get_default_ttl none = none

unfoldable pub get_max_priority : {P : Protobuf} → Option (Topic P) → ℕ
get_max_priority (some x) = x.max_priority
get_max_priority none = 0

unfoldable pub get_created_at : {P : Protobuf} → Option (Topic P) → Option P.Timestamp
get_created_at (some x) = x.created_at
get_created_at none = none
