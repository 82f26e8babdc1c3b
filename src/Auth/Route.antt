-- ===== src/Auth/Route.antt =====
-- modules/auth/src/route/handler.go: the routes of the service.
pub mod Table
pub mod Served
pub mod Stored
mod Examples
mod Tests
use micro_services.Base.{String, List, [], ◌∷◌}
use micro_services.Errors.{Result}
use micro_services.Http.Response.{Encoder}
use micro_services.Otel.Middleware.{http_middleware}
use micro_services.Tx.{new_transactor}
use micro_services.Tx.Sql.{Driver}
use micro_services.Auth.Users.{Querier}
use micro_services.Auth.Validation.{LoginRequest, Ozzo}
use micro_services.Auth.Login.{
  TokenResponse, Handler, new_handler, login, new_login_service, as_login,
}
use micro_services.Auth.Chi.{Chi, HandlerFunc}

-- The handler of /health writes nothing.
abbrev pub health : {T : Type 0} → HandlerFunc T
health r io t = (io, t)

module _ (O : Ozzo) (encode : Encoder TokenResponse) (unmarshal : String → Result LoginRequest)
    {T : Type 0} (C : Chi T) where
  -- handler.login as a http.HandlerFunc.
  abbrev pub login_func : Handler → HandlerFunc T
  login_func h r (w, body) t = (login O encode unmarshal h w body, t)

  abbrev pub token_routes : Handler → C.Mux → C.Mux
  token_routes h r = C.post "/login" (login_func h) r

  abbrev pub api_routes : Handler → C.Mux → C.Mux
  api_routes h r = C.route "/token" (token_routes h) r

  -- handler.Router
  unfoldable pub router : Handler → C.Mux
  router h =
      let r = C.new_mux in
      let r = C.use_all (C.middlewares r) r in
      let r = C.use_all (C.otel (http_middleware "auth-api" []) ∷ []) r in
      let r = C.get "/health" health r in C.route "/auth/v1" (api_routes h) r

  -- The handler that run gives to the HTTP server.
  abbrev pub served : {NullTime : Type 0} → Querier NullTime → Driver → HandlerFunc T
  served repo tx =
      C.serve_http (router (new_handler (as_login (new_login_service repo (new_transactor tx)))))
