-- ===== src/Queue/Messages/AckRequest.antt =====
-- The message AckRequest of modules/queue/src/route/grpc/queue.pb.go, with its getters.
use micro_services.Base.{String, Option, none, some}

pub record AckRequest : Type 0 where
  pub lease_id : String

-- The empty message.
unfoldable pub zero_value : AckRequest
zero_value = record { lease_id = "" }

-- Reset: `*x = AckRequest{}`.
unfoldable pub reset : AckRequest → AckRequest
unfolding zero_value
reset x = zero_value

unfoldable pub get_lease_id : Option AckRequest → String
get_lease_id (some x) = x.lease_id
get_lease_id none = ""
