-- ===== src/Audit/Messages/Where.antt =====
-- The message Where of modules/audit/src/route/grpc/audit.pb.go, with its getters.
use micro_services.Base.{String, Option, none, some}

pub record Where : Type 0 where
  pub service : String
  pub environment : String
  pub region : String
  pub host : String

-- The empty message.
unfoldable pub zero_value : Where
zero_value = record { service = ""; environment = ""; region = ""; host = "" }

-- Reset: `*x = Where{}`.
unfoldable pub reset : Where → Where
unfolding zero_value
reset x = zero_value

unfoldable pub get_service : Option Where → String
get_service (some x) = x.service
get_service none = ""

unfoldable pub get_environment : Option Where → String
get_environment (some x) = x.environment
get_environment none = ""

unfoldable pub get_region : Option Where → String
get_region (some x) = x.region
get_region none = ""

unfoldable pub get_host : Option Where → String
get_host (some x) = x.host
get_host none = ""
