-- ===== src/Auth/Chi.antt =====
-- github.com/go-chi/chi and otelhttp, as the auth service uses them: a parameter, with what their
-- documentation promises.
use text.Mathlib.Text.{find?}
use micro_services.Base.{
  String, Bool, true, false, ◌≡◌, Option, none, some, List, [], ◌∷◌, ◌++◌, ◌<>◌, map, All, ◌&&◌,
  ◌==◌, string_eq, if◌then◌else◌,
}
use micro_services.Http.Writer.{ResponseWriter}
use micro_services.Http.Request.{RequestBody}
use micro_services.Otel.Middleware.{Request, Middleware}

-- http.HandlerFunc: the response and the body of the request are passed on, and so is the telemetry
-- that the handlers around record.
abbrev pub HandlerFunc : Type 0 → Type 0
HandlerFunc T = Request → ResponseWriter × RequestBody → T → (ResponseWriter × RequestBody) × T

-- A handler under a method and a path.
pub record Endpoint (T : Type 0) : Type 0 where
  pub method : String
  pub path : String
  pub handler : HandlerFunc T

pub record Chi (T : Type 0) : Type 1 where
  -- *chi.Mux; `routes` are its endpoints with those of the routers mounted in it.
  pub Mux : Type 0
  pub new_mux : Mux
  pub middlewares : Mux → List (HandlerFunc T → HandlerFunc T)
  pub routes : Mux → List (Endpoint T)
  pub use_all : List (HandlerFunc T → HandlerFunc T) → Mux → Mux
  pub get : String → HandlerFunc T → Mux → Mux
  pub post : String → HandlerFunc T → Mux → Mux
  pub route : String → (Mux → Mux) → Mux → Mux
  pub serve_http : Mux → HandlerFunc T
  -- The methods that chi knows, the pattern that it puts into a request, and its own answers; the
  -- second one is given the methods of the path.
  pub known : String → Bool
  pub pattern : Mux → Request → String
  pub not_found : HandlerFunc T
  pub method_not_allowed : List String → HandlerFunc T
  -- otelhttp.NewMiddleware
  pub otel : Middleware → HandlerFunc T → HandlerFunc T

module _ {T : Type 0} where
  abbrev pub under : String → Endpoint T → Endpoint T
  under p e = record e { path = p <> e.path }

  -- Of two endpoints with one method and path the later one replaces the other.
  abbrev pub endpoint_of : List (Endpoint T) → Request → Option (HandlerFunc T)
  endpoint_of [] r = none
  endpoint_of (e ∷ es) r = elim (endpoint_of es r) [
    | some h ↦ some h
    | none ↦ if (r.path == e.path) && (r.method == e.method) then some e.handler else none
  ]

  abbrev pub methods_of : List (Endpoint T) → String → List String
  methods_of [] p = []
  methods_of (e ∷ es) p =
      let rest = methods_of es p in if p == e.path then e.method ∷ rest else rest

  -- The first middleware is the outermost one.
  abbrev pub wrap : List (HandlerFunc T → HandlerFunc T) → HandlerFunc T → HandlerFunc T
  wrap [] h = h
  wrap (m ∷ ms) h = m (wrap ms h)

  -- A path without parameters and wildcards.
  abbrev pub IsStatic : Endpoint T → Type 0
  IsStatic e = (find? e.path "{" ≡ none) × (find? e.path "*" ≡ none)

module _ {T : Type 0} (C : Chi T) where
  abbrev refusal : List String → HandlerFunc T
  refusal [] = C.not_found
  refusal (m ∷ ms) = C.method_not_allowed (m ∷ ms)

  -- The handler behind the middlewares: the endpoint's, or else one of chi's own answers.
  abbrev pub answer_of : C.Mux → List (Endpoint T) → HandlerFunc T
  answer_of m es r = elim (endpoint_of es r) [
    | some h ↦ h (record r { pattern = C.pattern m r })
    | none ↦ refusal (methods_of es r.path) r
  ]

  abbrev pub dispatch : C.Mux → HandlerFunc T
  dispatch m = answer_of m (C.routes m)

  pub record IsRouter : Type 0 where
    pub routes-new : C.routes C.new_mux ≡ []
    pub middlewares-new : C.middlewares C.new_mux ≡ []
    -- Use stands before the routes.
    pub routes-use :
        (ms : List (HandlerFunc T → HandlerFunc T)) (m : C.Mux)
        → C.routes m ≡ []
        → C.routes (C.use_all ms m) ≡ []
    pub middlewares-use :
        (ms : List (HandlerFunc T → HandlerFunc T)) (m : C.Mux)
        → C.routes m ≡ []
        → C.middlewares (C.use_all ms m) ≡ C.middlewares m ++ ms
    pub routes-get :
        (p : String) (h : HandlerFunc T) (m : C.Mux)
        → C.routes (C.get p h m)
          ≡ C.routes m ++ record { method = "GET"; path = p; handler = h } ∷ []
    pub middlewares-get :
        (p : String) (h : HandlerFunc T) (m : C.Mux) → C.middlewares (C.get p h m) ≡ C.middlewares m
    pub routes-post :
        (p : String) (h : HandlerFunc T) (m : C.Mux)
        → C.routes (C.post p h m)
          ≡ C.routes m ++ record { method = "POST"; path = p; handler = h } ∷ []
    pub middlewares-post :
        (p : String) (h : HandlerFunc T) (m : C.Mux)
        → C.middlewares (C.post p h m) ≡ C.middlewares m
    -- Route mounts the router that the function builds; this one has no middlewares of its own.
    pub routes-route :
        (p : String) (fn : C.Mux → C.Mux) (m : C.Mux)
        → C.middlewares (fn C.new_mux) ≡ []
        → C.routes (C.route p fn m) ≡ C.routes m ++ map (under p) (C.routes (fn C.new_mux))
    pub middlewares-route :
        (p : String) (fn : C.Mux → C.Mux) (m : C.Mux)
        → C.middlewares (C.route p fn m) ≡ C.middlewares m
    -- A request whose path has no escapes, with a method that chi knows.
    pub serve-eq-wrap :
        (m : C.Mux) (r : Request) (io : ResponseWriter × RequestBody) (t : T)
        → All IsStatic (C.routes m)
        → C.known r.method ≡ true
        → C.serve_http m r io t ≡ wrap (C.middlewares m) (dispatch m) r io t
    -- otelhttp runs the handler once and passes its response on; a request that the filter refuses
    -- leaves nothing in the telemetry but what the handler does.
    pub otel_traced :
        (o : Middleware) (h : HandlerFunc T) (r : Request) (io : ResponseWriter × RequestBody)
        (t : T)
        → (t' : T) × ((C.otel o h r io t).0 ≡ (h r io t').0)
    pub otel_filtered :
        (o : Middleware) (h : HandlerFunc T) (r : Request) (io : ResponseWriter × RequestBody)
        (t : T)
        → o.filter r ≡ false
        → C.otel o h r io t ≡ h r io t
