-- ===== src/Audit/Messages/How.antt =====
-- The message How of modules/audit/src/route/grpc/audit.pb.go, with its getters.
use micro_services.Base.{String, Option, none, some}

pub record How : Type 0 where
  pub method : String
  pub outcome : String
  pub severity : String
  pub source : String

-- The empty message.
unfoldable pub zero_value : How
zero_value = record { method = ""; outcome = ""; severity = ""; source = "" }

-- Reset: `*x = How{}`.
unfoldable pub reset : How → How
unfolding zero_value
reset x = zero_value

unfoldable pub get_method : Option How → String
get_method (some x) = x.method
get_method none = ""

unfoldable pub get_outcome : Option How → String
get_outcome (some x) = x.outcome
get_outcome none = ""

unfoldable pub get_severity : Option How → String
get_severity (some x) = x.severity
get_severity none = ""

unfoldable pub get_source : Option How → String
get_source (some x) = x.source
get_source none = ""
