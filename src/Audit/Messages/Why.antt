-- ===== src/Audit/Messages/Why.antt =====
-- The message Why of modules/audit/src/route/grpc/audit.pb.go, with its getters.
use micro_services.Base.{String, Option, none, some}

pub record Why : Type 0 where
  pub reason : String
  pub request_id : String
  pub trace_id : String
  pub span_id : String

-- The empty message.
unfoldable pub zero_value : Why
zero_value = record { reason = ""; request_id = ""; trace_id = ""; span_id = "" }

-- Reset: `*x = Why{}`.
unfoldable pub reset : Why → Why
unfolding zero_value
reset x = zero_value

unfoldable pub get_reason : Option Why → String
get_reason (some x) = x.reason
get_reason none = ""

unfoldable pub get_request_id : Option Why → String
get_request_id (some x) = x.request_id
get_request_id none = ""

unfoldable pub get_trace_id : Option Why → String
get_trace_id (some x) = x.trace_id
get_trace_id none = ""

unfoldable pub get_span_id : Option Why → String
get_span_id (some x) = x.span_id
get_span_id none = ""
