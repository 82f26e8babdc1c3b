-- ===== src/Otel/Middleware.antt =====
-- modules/shared/src/utilotel/http.go. otelhttp is the library's: the
-- model stops at what they are given.
use text.Mathlib.Text.{starts_with}
use micro_services.Base.{
  String, Bool, List, [], ◌∷◌, ◌<>◌, ◌||◌, not, ◌==◌, string_eq, if◌then◌else◌,
}

-- The parts of *http.Request that the package reads.
pub record Request : Type 0 where
  pub method : String
  pub path : String
  pub pattern : String

pub record HttpConfig : Type 0 where
  pub should_trace : Request → Bool

abbrev pub HttpOption : Type 0
HttpOption = HttpConfig → HttpConfig

unfoldable pub with_request_filter : (Request → Bool) → HttpOption
with_request_filter fn c = record c { should_trace = fn }

unfoldable pub default_should_trace : Request → Bool
default_should_trace r = not (r.method == "GET") || not (r.path == "/health")

unfoldable pub span_name_from_pattern : String → Request → String
span_name_from_pattern operation r =
    if r.pattern == ""
    then operation
    else if starts_with r.pattern (r.method <> " ")
    then r.pattern
    else r.method <> " " <> r.pattern

-- otelhttp.NewMiddleware with the options WithFilter and WithSpanNameFormatter.
pub record Middleware : Type 0 where
  pub operation : String
  pub filter : Request → Bool
  pub span_name_formatter : String → Request → String

unfoldable pub apply_options : List HttpOption → HttpConfig → HttpConfig
apply_options [] c = c
apply_options (opt ∷ opts) c = apply_options opts (opt c)

unfoldable pub http_middleware : String → List HttpOption → Middleware
unfolding apply_options
http_middleware server_name opts =
    let cfg = apply_options opts (record { should_trace = default_should_trace }) in
    record {
      operation = server_name;
      filter = cfg.should_trace;
      span_name_formatter = span_name_from_pattern;
    }
