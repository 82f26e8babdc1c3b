-- ===== src/Auth/Route/Table.antt =====
-- Which handler answers a request, and what is traced.
use mathlib.Core.Path.{subst}
use micro_services.Base.{
  String, true, false, Bool-cases, inl, inr, ◌≡◌, refl, sym, ap, ◌∙◌, List, [], ◌∷◌, ◌++◌, map, All,
  ◌==◌, ==_iff, string_eq, if◌then◌else◌, arith,
}
use micro_services.Errors.{Result}
use micro_services.Http.Writer.{ResponseWriter}
use micro_services.Http.Response.{Encoder}
use micro_services.Http.Request.{RequestBody}
use micro_services.Otel.Middleware.{Request, http_middleware}
use micro_services.Otel.SpanNames.{default_filter_iff}
use micro_services.Auth.Validation.{LoginRequest, Ozzo}
use micro_services.Auth.Login.{TokenResponse, Handler}
use micro_services.Auth.Chi.{
  Chi, HandlerFunc, Endpoint, under, wrap, answer_of, dispatch, IsStatic, IsRouter,
}
use micro_services.Auth.Route.{health, login_func, token_routes, api_routes, router}

module _ (O : Ozzo) (encode : Encoder TokenResponse) (unmarshal : String → Result LoginRequest)
    {T : Type 0} (C : Chi T) (L : IsRouter C) (h : Handler) where
  abbrev health_at : String → Endpoint T
  health_at p = record { method = "GET"; path = p; handler = health }

  abbrev login_at : String → Endpoint T
  login_at p = record { method = "POST"; path = p; handler = login_func O encode unmarshal C h }

  -- The routes of the service.
  abbrev table : List (Endpoint T)
  table = health_at "/health" ∷ login_at "/auth/v1/token/login" ∷ []

  routes-token_routes :
      C.routes (token_routes O encode unmarshal C h C.new_mux) ≡ login_at "/login" ∷ []
  routes-token_routes = L.routes-post _ _ _ ∙ ap (λ es. es ++ login_at "/login" ∷ []) L.routes-new

  middlewares-token_routes : C.middlewares (token_routes O encode unmarshal C h C.new_mux) ≡ []
  middlewares-token_routes = L.middlewares-post _ _ _ ∙ L.middlewares-new

  routes-api_routes :
      C.routes (api_routes O encode unmarshal C h C.new_mux) ≡ login_at "/token/login" ∷ []
  routes-api_routes =
      L.routes-route _ _ _ middlewares-token_routes
      ∙ ap
          (λ es.
            es ++ map (under "/token") (C.routes (token_routes O encode unmarshal C h C.new_mux)))
          L.routes-new
      ∙ ap (map (under "/token")) routes-token_routes

  middlewares-api_routes : C.middlewares (api_routes O encode unmarshal C h C.new_mux) ≡ []
  middlewares-api_routes = L.middlewares-route _ _ _ ∙ L.middlewares-new

  -- The router after its two calls of Use.
  abbrev base : C.Mux
  base =
      C.use_all (C.otel (http_middleware "auth-api" []) ∷ [])
        (C.use_all (C.middlewares C.new_mux) C.new_mux)

  no_routes : C.routes (C.use_all (C.middlewares C.new_mux) C.new_mux) ≡ []
  no_routes = L.routes-use _ _ L.routes-new

  middlewares-base : C.middlewares base ≡ C.otel (http_middleware "auth-api" []) ∷ []
  middlewares-base =
      L.middlewares-use _ _ no_routes
      ∙ ap (λ ms. ms ++ C.otel (http_middleware "auth-api" []) ∷ [])
          (L.middlewares-use _ _ L.routes-new ∙ ap (λ ms. ms ++ ms) L.middlewares-new)

  routes-router : C.routes (router O encode unmarshal C h) ≡ table
  unfolding router
  routes-router =
      L.routes-route _ _ _ middlewares-api_routes
      ∙ ap
          (λ es.
            es ++ map (under "/auth/v1") (C.routes (api_routes O encode unmarshal C h C.new_mux)))
          (L.routes-get _ _ _
            ∙ ap (λ es. es ++ health_at "/health" ∷ []) (L.routes-use _ _ no_routes))
      ∙ ap (λ es. health_at "/health" ∷ map (under "/auth/v1") es) routes-api_routes

  middlewares-router :
      C.middlewares (router O encode unmarshal C h) ≡ C.otel (http_middleware "auth-api" []) ∷ []
  unfolding router
  middlewares-router = L.middlewares-route _ _ _ ∙ L.middlewares-get _ _ _ ∙ middlewares-base

  static : All IsStatic (C.routes (router O encode unmarshal C h))
  static = subst (All IsStatic) (sym routes-router) ((refl, refl), ((refl, refl), tt))

  -- The handler that the paths and the methods of the service choose.
  abbrev pub target : Request → HandlerFunc T
  target r =
      if r.path == "/auth/v1/token/login"
      then (if r.method == "POST"
          then login_func O encode unmarshal C h
          else C.method_not_allowed ("POST" ∷ []))
      else if r.path == "/health"
      then (if r.method == "GET" then health else C.method_not_allowed ("GET" ∷ []))
      else C.not_found

  answer_of-table :
      (r : Request) (io : ResponseWriter × RequestBody) (t : T)
      → answer_of C (router O encode unmarshal C h) table r io t ≡ target r r io t
  answer_of-table r io t = elim (Bool-cases (r.path == "/auth/v1/token/login")) [
    | inl at_login ↦
        let away : (r.path == "/health") ≡ false =
          ap (λ p. p == "/health") ((==_iff r.path "/auth/v1/token/login").0 at_login) in
        elim (Bool-cases (r.method == "POST")) [
          | inl post ↦ ground (arith, at_login, post)
          | inr other ↦ ground (arith, at_login, other, away)
        ]
    | inr elsewhere ↦ elim (Bool-cases (r.path == "/health")) [
      | inl at_health ↦ elim (Bool-cases (r.method == "GET")) [
        | inl get ↦ ground (arith, elsewhere, at_health, get)
        | inr other ↦ ground (arith, elsewhere, at_health, other)
      ]
      | inr nowhere ↦ ground (arith, elsewhere, nowhere)
    ]
  ]

  dispatch-eq-target :
      (r : Request) (io : ResponseWriter × RequestBody) (t : T)
      → dispatch C (router O encode unmarshal C h) r io t ≡ target r r io t
  dispatch-eq-target r io t =
      ap (λ es. answer_of C (router O encode unmarshal C h) es r io t) routes-router
      ∙ answer_of-table r io t

  module _ (r : Request) (io : ResponseWriter × RequestBody) (t : T) where
    served-wrapped :
        C.known r.method ≡ true
        → C.serve_http (router O encode unmarshal C h) r io t
          ≡ C.otel
              (http_middleware "auth-api" [])
              (dispatch C (router O encode unmarshal C h))
              r
              io
              t
    served-wrapped k =
        L.serve-eq-wrap _ r io t static k
        ∙ ap (λ ms. wrap ms (dispatch C (router O encode unmarshal C h)) r io t) middlewares-router

    -- The router answers POST /auth/v1/token/login with the login, GET /health with nothing written,
    -- other known methods on these two paths with method_not_allowed, and any other path with
    -- not_found, whatever was traced.
    pub served-eq-target :
        C.known r.method ≡ true
        → (t' : T) × ((C.serve_http (router O encode unmarshal C h) r io t).0
            ≡ (target r r io t').0)
    served-eq-target k =
        let (t', same) =
          L.otel_traced (http_middleware "auth-api" []) (dispatch C (router O encode unmarshal C h))
            r io t in
        (t', ap (λ p. p.0) (served-wrapped k) ∙ same ∙ ap (λ p. p.0) (dispatch-eq-target r io t'))

    -- GET /health writes nothing and leaves the telemetry as it was.
    pub health_untraced :
        C.known "GET" ≡ true
        → r.method ≡ "GET"
        → r.path ≡ "/health"
        → C.serve_http (router O encode unmarshal C h) r io t ≡ (io, t)
    health_untraced k get at =
        served-wrapped (ap C.known get ∙ k)
        ∙ L.otel_filtered (http_middleware "auth-api" [])
            (dispatch C (router O encode unmarshal C h)) r io t
            ((default_filter_iff "auth-api" r).1 (get, at))
        ∙ dispatch-eq-target r io t
        ∙ ground (
          arith,
          ap (λ p. p == "/auth/v1/token/login") at,
          ap (λ p. p == "/health") at,
          ap (λ q. q == "GET") get,
        )
