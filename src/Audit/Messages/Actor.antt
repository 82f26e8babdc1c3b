-- ===== src/Audit/Messages/Actor.antt =====
-- The message Actor of modules/audit/src/route/grpc/audit.pb.go, with its getters.
use micro_services.Base.{String, Option, none, some}

pub record Actor : Type 0 where
  pub type : String
  pub id : String
  pub ip : String
  pub user_agent : String

-- The empty message.
unfoldable pub zero_value : Actor
zero_value = record { type = ""; id = ""; ip = ""; user_agent = "" }

-- Reset: `*x = Actor{}`.
unfoldable pub reset : Actor → Actor
unfolding zero_value
reset x = zero_value

unfoldable pub get_type : Option Actor → String
get_type (some x) = x.type
get_type none = ""

unfoldable pub get_id : Option Actor → String
get_id (some x) = x.id
get_id none = ""

unfoldable pub get_ip : Option Actor → String
get_ip (some x) = x.ip
get_ip none = ""

unfoldable pub get_user_agent : Option Actor → String
get_user_agent (some x) = x.user_agent
get_user_agent none = ""
