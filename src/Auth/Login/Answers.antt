-- ===== src/Auth/Login/Answers.antt =====
-- Which answer a login gets, and when it succeeds.
use mathlib.Core.Path.{subst}
use mathlib.Core.Bool.{false≢true}
use micro_services.Base.{
  ℕ, String, ◌≡◌, ◌≢◌, refl, sym, ◌∙◌, ◌↔◌, inl, inr, Option-cases, Bool-cases, Option, none, some,
  ◌<>◌, arith, ◌==◌, ==_iff, string_eq, if◌then◌else◌,
}
use micro_services.Errors.{
  Error, plain, error_text, new_db_error, new_unauthorized_error, Result, ok, err, Result-cases,
}
use micro_services.Http.Writer.{ResponseWriter}
use micro_services.Http.Response.{Encoder, success_response, response_ok, response_error}
use micro_services.Http.Response.Delivery.{
  IsDelivered, concat, failure_note, write_json-IsDelivered,
}
use micro_services.Http.Response.Mapping.{
  error_status, message_body, error_body, response_error-IsDelivered,
}
use micro_services.Http.Request.{RequestBody, request_body}
use micro_services.Http.Request.Reading.{request_body_bad}
use micro_services.Auth.Domain.{Token, empty_token, new_login_input}
use micro_services.Auth.Users.{UserRow}
use micro_services.Auth.Validation.{LoginRequest, Ozzo}
use micro_services.Auth.Login.{
  LoginService, post, as_login, TokenResponse, new_response, login_validator, new_handler, login,
}

abbrev pub db_failure : Error → String
db_failure e = "failed to retrieve user from database: " <> error_text e

module _ {NullTime : Type 0} (s : LoginService NullTime) where
  -- The row and the error that the repository gives for an email.
  abbrev pub found : String → UserRow NullTime × Option Error
  found email = s.repo.get_user email

  post_db :
      (email password : String) (e : Error)
      → (found email).1 ≡ some e
      → post s (new_login_input email password) ≡ err (new_db_error (plain (db_failure e)))
  unfolding post new_login_input
  post_db email password e h = ground arith

  post_mismatch :
      (email password : String)
      → (found email).1 ≡ none
      → (found email).0.password ≢ password
      → post s (new_login_input email password)
        ≡ err (new_unauthorized_error (plain "invalid credentials"))
  unfolding post new_login_input
  post_mismatch email password h k = ground (arith, ==_iff (found email).0.password password)

  post_match :
      (email password : String)
      → (found email).1 ≡ none
      → (found email).0.password ≡ password
      → post s (new_login_input email password) ≡ ok empty_token
  unfolding post new_login_input
  post_match email password h k = ground (arith, ==_iff (found email).0.password password)

  -- LoginService.Post succeeds exactly when GetUser reports no error for the email and the stored
  -- password is, character by character, the given one; the token is then the empty one.
  post-eq-ok_iff :
      (email password : String) (t : Token)
      → (post s (new_login_input email password) ≡ ok t)
        ↔ (((found email).1 ≡ none) × ((found email).0.password ≡ password) × (t ≡ empty_token))
  unfolding post new_login_input
  post-eq-ok_iff email password t = ground (arith, ==_iff (found email).0.password password)

module _ (O : Ozzo) (encode : Encoder TokenResponse) (unmarshal : String → Result LoginRequest)
    {NullTime : Type 0} (s : LoginService NullTime) where
  -- The request as the handler reads it from the body.
  abbrev pub read : RequestBody → Result LoginRequest
  read r = (request_body ⦃v = login_validator O⦄ unmarshal r).0

  abbrev pub respond : ResponseWriter → RequestBody → ResponseWriter
  respond w r = (login O encode unmarshal (new_handler (as_login s)) w r).0

  -- The body that carries the zero token.
  abbrev pub token_body : ResponseWriter → String
  token_body w =
      let (chunks, failed) = encode (success_response (record { token = empty_token })) in
      (w.body <> concat chunks) <> failure_note failed

  abbrev expected_of : ResponseWriter → LoginRequest → UserRow NullTime → Option Error → ℕ × String
  expected_of w req user (some e) = (500, message_body encode w (db_failure e))
  expected_of w req user none =
      if user.password == req.password
      then (200, token_body w)
      else (401, message_body encode w "invalid credentials")

  -- The status and the body that a login is due, by what was read and what the repository knows.
  abbrev pub expected : ResponseWriter → Result LoginRequest → ℕ × String
  expected w (err e) = (400, message_body encode w (error_text e))
  expected w (ok req) = expected_of w req (found s req.email).0 (found s req.email).1

  module _ (w : ResponseWriter) (fresh : w.status ≡ none) (r : RequestBody) where
    abbrev IsError : ℕ → String → Type 0
    IsError code message = IsDelivered (respond w r) code (message_body encode w message)

    delivered :
        (e : Error) {code : ℕ}
        → error_status e ≡ code
        → IsDelivered (response_error encode w e) code (error_body encode w e)
    delivered e h =
        subst (λ c. IsDelivered (response_error encode w e) c (error_body encode w e)) h
          (response_error-IsDelivered encode w e fresh)

    respond_bad : (e : Error) → read r ≡ err e → IsError 400 (error_text e)
    unfolding login
    respond_bad e h =
        rw h (delivered e (rw h at (request_body_bad ⦃v = login_validator O⦄ unmarshal r)))

    respond_db :
        (req : LoginRequest) (e : Error)
        → read r ≡ ok req
        → (found s req.email).1 ≡ some e
        → IsError 500 (db_failure e)
    unfolding login new_handler new_db_error
    respond_db req e h k =
        rw (h, post_db s req.email req.password e k)
          (delivered (new_db_error (plain (db_failure e))) refl)

    respond_mismatch :
        (req : LoginRequest)
        → read r ≡ ok req
        → (found s req.email).1 ≡ none
        → (found s req.email).0.password ≢ req.password
        → IsError 401 "invalid credentials"
    unfolding login new_handler new_unauthorized_error
    respond_mismatch req h k ne =
        rw (h, post_mismatch s req.email req.password k ne)
          (delivered (new_unauthorized_error (plain "invalid credentials")) refl)

    respond_match :
        (req : LoginRequest)
        → read r ≡ ok req
        → (found s req.email).1 ≡ none
        → (found s req.email).0.password ≡ req.password
        → IsDelivered (respond w r) 200 (token_body w)
    unfolding login new_handler new_response response_ok
    respond_match req h k eq =
        rw (h, post_match s req.email req.password k eq)
          (write_json-IsDelivered encode w 200 (success_response (record { token = empty_token }))
            fresh)

    -- On a writer to which nothing was sent, a login is answered: 400 with the reader's message where
    -- the body cannot be read, decoded or validated; 500 with GetUser's text where the user cannot be
    -- retrieved, an unknown email included; 401 where the password differs from the stored one; and
    -- 200 with the empty token where they agree.
    pub login_answers : IsDelivered (respond w r) (expected w (read r)).0 (expected w (read r)).1
    login_answers = elim (Result-cases (read r)) [
      | inr (e, bad) ↦ rw bad (respond_bad e bad)
      | inl (req, good) ↦ elim (Option-cases (found s req.email).1) [
        | inr (e, lost) ↦ rw (good, lost) (respond_db req e good lost)
        | inl there ↦ elim (Bool-cases ((found s req.email).0.password == req.password)) [
          | inl same ↦ rw (good, there, same) (respond_match req good there ((==_iff _ _).0 same))
          | inr differ ↦
              rw (good, there, differ)
                (respond_mismatch req good there
                  (λ eq. false≢true (sym differ ∙ (==_iff _ _).1 eq)))
        ]
      ]
    ]

    -- A login is answered with 200 exactly when the body was read, decoded and validated, the user
    -- was found, and the password is the stored one.
    login-eq-200_iff : ((respond w r).status ≡ some 200) ↔ (
        (req : LoginRequest) × (read r ≡ ok req)
        × ((found s req.email).1 ≡ none)
        × ((found s req.email).0.password ≡ req.password))
    login-eq-200_iff = (only_if, λ (req, h, k, eq). (respond_match req h k eq).status)
      where
        only_if :
            (respond w r).status ≡ some 200
            → (req : LoginRequest) × (read r ≡ ok req)
              × ((found s req.email).1 ≡ none)
              × ((found s req.email).0.password ≡ req.password)
        only_if h = elim (Result-cases (read r)) [
          | inr (e, bad) ↦ ground (arith, (respond_bad e bad).status)
          | inl (req, good) ↦ elim (Option-cases (found s req.email).1) [
            | inr (e, lost) ↦ ground (arith, (respond_db req e good lost).status)
            | inl there ↦ elim (Bool-cases ((found s req.email).0.password == req.password)) [
              | inl same ↦ (req, good, there, (==_iff _ _).0 same)
              | inr differ ↦ ground (
                arith,
                (respond_mismatch req good there
                    (λ eq. false≢true (sym differ ∙ (==_iff _ _).1 eq))).status,
              )
            ]
          ]
        ]
