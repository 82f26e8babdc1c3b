-- ===== src/Auth/Route/Examples.antt =====
-- A router as a list of endpoints.
use micro_services.Base.{
  ◌++◌, ℕ, suc, Bool, true, false, ◌≡◌, refl, some, List, [], ◌∷◌, map, ◌==◌, ◌||◌, string_eq,
}
use micro_services.Http.Writer.{ResponseWriter}
use micro_services.Http.Request.{RequestBody}
use micro_services.Otel.Middleware.{Request}
use micro_services.Auth.Chi.{Chi, HandlerFunc, Endpoint, under, wrap, dispatch, IsRouter}

pub record Mux : Type 0 where
  pub middlewares : List (HandlerFunc ℕ → HandlerFunc ℕ)
  pub endpoints : List (Endpoint ℕ)

abbrev pub fresh : Mux
fresh = record { middlewares = []; endpoints = [] }

-- The telemetry counts the traced requests.
abbrev pub counted : Bool → HandlerFunc ℕ → HandlerFunc ℕ
counted true h r io n = let (io', n') = h r io n in (io', suc n')
counted false h r io n = h r io n

abbrev pub refuse : ℕ → HandlerFunc ℕ
refuse code r (w, body) n = ((record w { status = some code }, body), n)

abbrev pub silent : Chi ℕ
silent = record {
  Mux = Mux;
  new_mux = fresh;
  middlewares = λ m. m.middlewares;
  routes = λ m. m.endpoints;
  use_all = λ ms m. record m { middlewares = m.middlewares ++ ms };
  get = λ p h m. record m {
    endpoints = m.endpoints ++ record { method = "GET"; path = p; handler = h } ∷ [];
  };
  post = λ p h m. record m {
    endpoints = m.endpoints ++ record { method = "POST"; path = p; handler = h } ∷ [];
  };
  route = λ p fn m. record m { endpoints = m.endpoints ++ map (under p) (fn fresh).endpoints };
  serve_http = λ m. refuse 404;
  known = λ s. s == "GET" || s == "POST";
  pattern = λ m r. r.path;
  not_found = refuse 404;
  method_not_allowed = λ ms. refuse 405;
  otel = λ o h r. counted (o.filter r) h r;
}

abbrev pub chi : Chi ℕ
chi = record silent { serve_http = λ m. wrap m.middlewares (dispatch silent m) }

counted_lem :
    (b : Bool) (h : HandlerFunc ℕ) (r : Request) (io : ResponseWriter × RequestBody) (n : ℕ)
    → (counted b h r io n).0 ≡ (h r io n).0
counted_lem true h r io n = refl
counted_lem false h r io n = refl

uncounted :
    (b : Bool) (h : HandlerFunc ℕ) (r : Request) (io : ResponseWriter × RequestBody) (n : ℕ)
    → b ≡ false
    → counted b h r io n ≡ h r io n
uncounted b h r io n e = rw e refl

pub chi-IsRouter : IsRouter chi
chi-IsRouter = record {
  routes-new = refl;
  middlewares-new = refl;
  routes-use = λ ms m h. h;
  middlewares-use = λ ms m h. refl;
  routes-get = λ p h m. refl;
  middlewares-get = λ p h m. refl;
  routes-post = λ p h m. refl;
  middlewares-post = λ p h m. refl;
  routes-route = λ p fn m h. refl;
  middlewares-route = λ p fn m. refl;
  serve-eq-wrap = λ m r io t h k. refl;
  otel_traced = λ o h r io t. (t, counted_lem (o.filter r) h r io t);
  otel_filtered = λ o h r io t e. uncounted (o.filter r) h r io t e;
}
