-- ===== src/Auth/Route/Served.antt =====
-- The login of the running service: from the mux to the response.
use micro_services.Base.{String, ◌≡◌, true, sym, ap, ◌∙◌, none, ◌==◌, string_eq, arith}
use mathlib.Core.Path.{subst}
use micro_services.Errors.{Result}
use micro_services.Http.Writer.{ResponseWriter}
use micro_services.Http.Response.{Encoder}
use micro_services.Http.Response.Delivery.{IsDelivered}
use micro_services.Http.Request.{RequestBody}
use micro_services.Otel.Middleware.{Request}
use micro_services.Tx.{new_transactor}
use micro_services.Tx.Sql.{Driver}
use micro_services.Auth.Users.{Querier}
use micro_services.Auth.Validation.{LoginRequest, Ozzo}
use micro_services.Auth.Login.{TokenResponse, new_handler, new_login_service, as_login}
use micro_services.Auth.Login.Answers.{read, respond, expected, login_answers}
use micro_services.Auth.Chi.{Chi, IsRouter}
use micro_services.Auth.Route.{served}
use micro_services.Auth.Route.Table.{target, served-eq-target}

module _ (O : Ozzo) (encode : Encoder TokenResponse) (unmarshal : String → Result LoginRequest)
    {T NullTime : Type 0} (C : Chi T) (L : IsRouter C) (repo : Querier NullTime) (tx : Driver) where
  target_login :
      (r : Request) (w : ResponseWriter) (body : RequestBody) (t : T)
      → r.method ≡ "POST"
      → r.path ≡ "/auth/v1/token/login"
      → (target O encode unmarshal C L
          (new_handler (as_login (new_login_service repo (new_transactor tx))))
          r
          r
          (w, body)
          t).0.0
        ≡ respond O encode unmarshal (new_login_service repo (new_transactor tx)) w body
  target_login r w body t post at =
      ground (arith, ap (λ p. p == "/auth/v1/token/login") at, ap (λ q. q == "POST") post)

  -- On the service as run assembles it, POST /auth/v1/token/login is answered over a writer to which
  -- nothing was sent as `expected` says for the body: 400, 500 or 401 with a message, or 200 with the
  -- empty token.
  pub served_login :
      (r : Request) (w : ResponseWriter) (body : RequestBody) (t : T)
      → C.known "POST" ≡ true
      → r.method ≡ "POST"
      → r.path ≡ "/auth/v1/token/login"
      → w.status ≡ none
      → let s = new_login_service repo (new_transactor tx) in
        let answer = expected O encode unmarshal s w (read O encode unmarshal s body) in
        IsDelivered (served O encode unmarshal C repo tx r (w, body) t).0.0 answer.0 answer.1
  served_login r w body t k post at fresh =
      let (t', same) =
        served-eq-target O encode unmarshal C L
          (new_handler (as_login (new_login_service repo (new_transactor tx)))) r (w, body) t
          (ap C.known post ∙ k) in
      let s = new_login_service repo (new_transactor tx) in
      let answer = expected O encode unmarshal s w (read O encode unmarshal s body) in
      subst (λ v. IsDelivered v answer.0 answer.1)
        (sym (ap (λ p. p.0) same ∙ target_login r w body t' post at))
        (login_answers O encode unmarshal s w fresh body)
