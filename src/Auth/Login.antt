-- ===== src/Auth/Login.antt =====
-- modules/auth/src/service/login.go and modules/auth/src/route: the login, from the request to the
-- response.
pub mod Answers
use micro_services.Base.{
  String, Option, none, some, List, [], ◌∷◌, ◌<>◌, not, ◌==◌, string_eq, if◌then◌else◌,
}
use micro_services.Errors.{
  Error, plain, error_text, new_db_error, new_unauthorized_error, Result, ok, err,
}
use micro_services.Http.Writer.{ResponseWriter}
use micro_services.Http.Response.{Encoder, response_ok, response_error}
use micro_services.Http.Request.{Validator, RequestBody, request_body}
use micro_services.Tx.{Transactor}
use micro_services.Auth.Domain.{Token, empty_token, LoginInput, new_login_input}
use micro_services.Auth.Users.{UserRow, Querier}
use micro_services.Auth.Validation.{LoginRequest, Ozzo, validate}

-- The service; Post does not use the transactor.
pub record LoginService (NullTime : Type 0) : Type 1 where
  pub repo : Querier NullTime
  pub tx : Transactor

unfoldable pub new_login_service :
    {NullTime : Type 0} → Querier NullTime → Transactor → LoginService NullTime
new_login_service repo tx = record { repo = repo; tx = tx }

-- The interface loginService of the route.
pub record Login : Type 0 where
  pub post : LoginInput → Result Token

module _ {NullTime : Type 0} where
  -- What Post does with the row and the error of GetUser.
  abbrev checked : LoginInput → UserRow NullTime × Option Error → Result Token
  checked input (user, some e) =
      err (new_db_error (plain ("failed to retrieve user from database: " <> error_text e)))
  checked input (user, none) =
      if not (user.password == input.password)
      then err (new_unauthorized_error (plain "invalid credentials"))
      else ok empty_token

  -- LoginService.Post
  unfoldable pub post : LoginService NullTime → LoginInput → Result Token
  post s input = checked input (s.repo.get_user input.email)

  abbrev pub as_login : LoginService NullTime → Login
  as_login s = record { post = post s }

pub record TokenResponse : Type 0 where
  pub token : Token

unfoldable pub new_response : Token → TokenResponse
new_response token = record { token = token }

abbrev pub login_validator : Ozzo → Validator LoginRequest
login_validator O = record { validate = validate O }

-- The route's handler holds the service.
pub record Handler : Type 0 where
  pub login_svc : Login

unfoldable pub new_handler : Login → Handler
new_handler svc = record { login_svc = svc }

-- The parameters are ozzo-validation, goccy/go-json's Encode, and encoding/json's Unmarshal into a
-- LoginRequest.
module _ (O : Ozzo) (encode : Encoder TokenResponse)
    (unmarshal : String → Result LoginRequest) where
  abbrev pub answer : ResponseWriter → Result Token → ResponseWriter
  answer w (err e) = response_error encode w e
  answer w (ok token) = response_ok encode w (new_response token)

  abbrev pub posted : Handler → ResponseWriter → Result LoginRequest → ResponseWriter
  posted h w (err e) = response_error encode w e
  posted h w (ok req) = answer w (h.login_svc.post (new_login_input req.email req.password))

  -- handler.login; the body of the request is returned with the response.
  unfoldable pub login : Handler → ResponseWriter → RequestBody → ResponseWriter × RequestBody
  unfolding new_login_input new_response
  login h w r =
      let (req, r') = request_body ⦃v = login_validator O⦄ unmarshal r in (posted h w req, r')
