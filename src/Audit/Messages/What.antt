-- ===== src/Audit/Messages/What.antt =====
-- The message What of modules/audit/src/route/grpc/audit.pb.go, with its getters.
use micro_services.Base.{String, Option, none, some}

pub record What : Type 0 where
  pub action : String
  pub resource_type : String
  pub resource_id : String

-- The empty message.
unfoldable pub zero_value : What
zero_value = record { action = ""; resource_type = ""; resource_id = "" }

-- Reset: `*x = What{}`.
unfoldable pub reset : What → What
unfolding zero_value
reset x = zero_value

unfoldable pub get_action : Option What → String
get_action (some x) = x.action
get_action none = ""

unfoldable pub get_resource_type : Option What → String
get_resource_type (some x) = x.resource_type
get_resource_type none = ""

unfoldable pub get_resource_id : Option What → String
get_resource_id (some x) = x.resource_id
get_resource_id none = ""
