-- ===== src/Otel/SpanNames.antt =====
-- Which requests are traced, and under which name.
use text.Mathlib.Text.{starts_with}
use text.Mathlib.TextPositions.{starts_with-append}
use text.Mathlib.TextLemmas.{append-ne-nil_of_right_ne-nil}
use mathlib.Core.Path.{subst}
use micro_services.Base.{
  String, Bool, true, false, ◌≡◌, ◌≢◌, refl, ◌↔◌, List, [], ◌∷◌, ◌++◌, ◌<>◌, <>_assoc, ==_iff,
  string_eq, arith,
}
use micro_services.Otel.Middleware.{
  Request, HttpConfig, HttpOption, with_request_filter, default_should_trace,
  span_name_from_pattern, apply_options, http_middleware,
}

-- Without options the middleware traces every request but GET /health.
pub default_filter_iff :
    (server_name : String) (r : Request)
    → ((http_middleware server_name []).filter r ≡ false)
      ↔ ((r.method ≡ "GET") × (r.path ≡ "/health"))
unfolding http_middleware default_should_trace
default_filter_iff server_name r = ground (arith, ==_iff r.method "GET", ==_iff r.path "/health")

-- Of several filters the last one decides alone, whatever options stand before it.
http_middleware_last :
    (server_name : String) (opts : List HttpOption) (fn : Request → Bool)
    → (http_middleware server_name (opts ++ with_request_filter fn ∷ [])).filter ≡ fn
unfolding http_middleware with_request_filter
http_middleware_last server_name opts fn = last opts _
  where
    last :
        (os : List HttpOption) (c : HttpConfig)
        → (apply_options (os ++ with_request_filter fn ∷ []) c).should_trace ≡ fn
    last [] c = refl
    last (o ∷ os) c = last os (o c)

prefixed_starts :
    (method pattern : String) → starts_with (method <> " " <> pattern) (method <> " ") ≡ true
prefixed_starts method pattern =
    subst (λ s. starts_with s (method <> " ") ≡ true) (<>_assoc method " " pattern)
      (starts_with-append (method <> " ") pattern)

prefixed_ne : (method pattern : String) → pattern ≢ "" → (method <> " " <> pattern) ≢ ""
prefixed_ne method pattern h =
    append-ne-nil_of_right_ne-nil method (append-ne-nil_of_right_ne-nil " " h)

-- The two forms of a pattern, with the method in front of the path and without it, give a route the
-- same span name, and that name begins with the method.
span_name_forms :
    (operation method path pattern : String)
    → pattern ≢ ""
    → starts_with pattern (method <> " ") ≡ false
    → let bare : Request = record { method = method; path = path; pattern = pattern } in
      let prefixed : Request = record bare { pattern = method <> " " <> pattern } in
      (span_name_from_pattern operation bare ≡ span_name_from_pattern operation prefixed)
      × (starts_with (span_name_from_pattern operation bare) (method <> " ") ≡ true)
unfolding span_name_from_pattern
span_name_forms operation method path pattern h k = ground (
  arith,
  ==_iff pattern "",
  ==_iff (method <> " " <> pattern) "",
  prefixed_starts method pattern,
  prefixed_ne method pattern h,
)
