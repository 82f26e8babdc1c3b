-- ===== src/Auth/Route/Stored.antt =====
-- The login of the running service over a table of users: from the mux to the row and back.
use micro_services.Base.{
  ℕ, String, ◌≡◌, true, ap, ◌∙◌, Option, none, some, ◌==◌, string_eq, if◌then◌else◌, Bool-cases,
  inl, inr, arith,
}
use micro_services.Errors.{Result, ok}
use micro_services.Http.Writer.{ResponseWriter}
use micro_services.Http.Response.{Encoder}
use micro_services.Http.Request.{RequestBody}
use micro_services.Otel.Middleware.{Request}
use micro_services.Tx.{new_transactor}
use micro_services.Tx.Sql.{Driver}
use micro_services.Auth.Users.{UserRow, Dbtx, new_queries}
use micro_services.Auth.Users.Table.{IsTable, Knows, get_user_present, get_user_absent}
use micro_services.Auth.Validation.{LoginRequest, Ozzo}
use micro_services.Auth.Login.{TokenResponse, new_login_service}
use micro_services.Auth.Login.Answers.{read, expected}
use micro_services.Auth.Chi.{Chi, IsRouter}
use micro_services.Auth.Route.{served}
use micro_services.Auth.Route.Served.{served_login}

-- The status that a login is due, by the user that the table has for its email.
abbrev pub verdict : {NullTime : Type 0} → Option (UserRow NullTime) → LoginRequest → ℕ
verdict none req = 500
verdict (some u) req = if u.password == req.password then 200 else 401

module _ (O : Ozzo) (encode : Encoder TokenResponse) (unmarshal : String → Result LoginRequest)
    {T NullTime : Type 0} (C : Chi T) (L : IsRouter C) (B : Dbtx NullTime) (K : IsTable B)
    (tx : Driver) where
  module _ (w : ResponseWriter) (req : LoginRequest) where
    expected_status :
        (o : Option (UserRow NullTime))
        → Knows B K req.email o
        → (expected O encode unmarshal
            (new_login_service (new_queries B) (new_transactor tx))
            w
            (ok req)).0
          ≡ verdict o req
    unfolding new_login_service new_queries
    expected_status none k = ground (arith, get_user_absent B K req.email k)
    expected_status (some u) k = elim (Bool-cases (u.password == req.password)) [
      | inl same ↦ ground (arith, get_user_present B K req.email u k, same)
      | inr differ ↦ ground (arith, get_user_present B K req.email u k, differ)
    ]

  -- On the service as run assembles it over a table of users, a POST to /auth/v1/token/login whose
  -- body is read, decoded and validated is answered over a writer to which nothing was sent with 200
  -- if the row with its email has its password, with 401 if that row has another, and with 500 if no
  -- row has the email.
  pub served-eq-verdict :
      (r : Request) (w : ResponseWriter) (body : RequestBody) (t : T) (req : LoginRequest)
      (o : Option (UserRow NullTime))
      → C.known "POST" ≡ true
      → r.method ≡ "POST"
      → r.path ≡ "/auth/v1/token/login"
      → w.status ≡ none
      → read O encode unmarshal (new_login_service (new_queries B) (new_transactor tx)) body
        ≡ ok req
      → Knows B K req.email o
      → (served O encode unmarshal C (new_queries B) tx r (w, body) t).0.0.status
        ≡ some (verdict o req)
  served-eq-verdict r w body t req o k post at fresh got known =
      let s = new_login_service (new_queries B) (new_transactor tx) in
      (served_login O encode unmarshal C L (new_queries B) tx r w body t k post at fresh).status
      ∙ ap (λ a. some (expected O encode unmarshal s w a).0) got
      ∙ ap some (expected_status w req o known)
