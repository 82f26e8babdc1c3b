-- ===== src/Http/Response/Mapping.antt =====
-- The status that ResponseError gives to each error, against a table of the types.
use micro_services.Base.{
  ℕ, String, ◌≡◌, refl, none, some, List, [], ◌∷◌, ◌<>◌, arith, ◌==◌, int_eq, if◌then◌else◌,
}
use micro_services.Errors.{
  ErrorType, AppError, Error, plain, join, app_error, not_found_error, bad_request_error,
  internal_server_error, unauthorized_error, forbidden_error, conflict_error,
  too_many_requests_error, db_error, error_text, err_not_found, err_bad_request, err_unauthorized,
  err_forbidden, err_conflict, err_too_many_requests, new_not_found_error, new_bad_request_error,
  new_internal_server_error, new_unauthorized_error, new_forbidden_error, new_conflict_error,
  new_too_many_requests_error, new_db_error,
}
use micro_services.Http.Writer.{ResponseWriter}
use micro_services.Http.Response.{
  error_response, Encoder, write_json, response_by_type, response_error,
}
use micro_services.Http.Response.Delivery.{
  IsDelivered, concat, failure_note, write_json-IsDelivered,
}

-- The types that are the client's fault, with their statuses. All others are 500.
abbrev pub client_errors : List (ErrorType × ℕ)
client_errors =
    (err_not_found, 404)
    ∷ (err_bad_request, 400)
    ∷ (err_unauthorized, 401)
    ∷ (err_forbidden, 403)
    ∷ (err_conflict, 409)
    ∷ (err_too_many_requests, 429)
    ∷ []

abbrev pub status_in : List (ErrorType × ℕ) → ErrorType → ℕ
status_in [] t = 500
status_in ((u, code) ∷ rest) t = if t == u then code else status_in rest t

-- The AppError inside an error, and 500 for an error that holds none.
abbrev pub error_status : Error → ℕ
error_status (plain s) = 500
error_status (join e f) = 500
error_status (app_error a) = status_in client_errors a.error_type
error_status (not_found_error a) = status_in client_errors a.error_type
error_status (bad_request_error a) = status_in client_errors a.error_type
error_status (internal_server_error a) = status_in client_errors a.error_type
error_status (unauthorized_error a) = status_in client_errors a.error_type
error_status (forbidden_error a) = status_in client_errors a.error_type
error_status (conflict_error a) = status_in client_errors a.error_type
error_status (too_many_requests_error a) = status_in client_errors a.error_type
error_status (db_error a) = status_in client_errors a.error_type

module _ {T : Type 0} (encode : Encoder T) where
  response_by_type_lem :
      (w : ResponseWriter) (a : AppError)
      → response_by_type encode w a
        ≡ write_json encode w (status_in client_errors a.error_type) (error_response a.message)
  unfolding response_by_type error_text
  response_by_type_lem w a = ground arith

  pub response_error-write_json :
      (w : ResponseWriter) (err : Error)
      → response_error encode w err
        ≡ write_json encode w (error_status err) (error_response (error_text err))
  unfolding response_error error_text
  response_error-write_json w (plain s) = refl
  response_error-write_json w (join e f) = refl
  response_error-write_json w (app_error a) = response_by_type_lem w a
  response_error-write_json w (not_found_error a) = response_by_type_lem w a
  response_error-write_json w (bad_request_error a) = response_by_type_lem w a
  response_error-write_json w (internal_server_error a) = response_by_type_lem w a
  response_error-write_json w (unauthorized_error a) = response_by_type_lem w a
  response_error-write_json w (forbidden_error a) = response_by_type_lem w a
  response_error-write_json w (conflict_error a) = response_by_type_lem w a
  response_error-write_json w (too_many_requests_error a) = response_by_type_lem w a
  response_error-write_json w (db_error a) = response_by_type_lem w a

  -- The body after an error message.
  abbrev pub message_body : ResponseWriter → String → String
  message_body w message =
      let (chunks, failed) = encode (error_response message) in
      (w.body <> concat chunks) <> failure_note failed

  abbrev pub error_body : ResponseWriter → Error → String
  error_body w err = message_body w (error_text err)

  -- On a writer to which nothing was sent, ResponseError sends each error with the status of its
  -- type in the table (500 for the types that are not listed and for errors that hold no AppError),
  -- the JSON content type, and the error's own text as the encoded message.
  pub response_error-IsDelivered :
      (w : ResponseWriter) (err : Error)
      → w.status ≡ none
      → IsDelivered (response_error encode w err) (error_status err) (error_body w err)
  response_error-IsDelivered w err h =
      rw (response_error-write_json w err) (write_json-IsDelivered encode w _ _ h)

  -- The statuses of the eight factories.
  abbrev pub FactoryStatus : ResponseWriter → Error → Type 0
  FactoryStatus w e =
      ((response_error encode w (new_not_found_error e)).status ≡ some 404)
      × ((response_error encode w (new_bad_request_error e)).status ≡ some 400)
      × ((response_error encode w (new_internal_server_error e)).status ≡ some 500)
      × ((response_error encode w (new_unauthorized_error e)).status ≡ some 401)
      × ((response_error encode w (new_forbidden_error e)).status ≡ some 403)
      × ((response_error encode w (new_conflict_error e)).status ≡ some 409)
      × ((response_error encode w (new_too_many_requests_error e)).status ≡ some 429)
      × ((response_error encode w (new_db_error e)).status ≡ some 500)

  -- Whatever error is wrapped, an error made by one of the eight factories reaches a client to which
  -- nothing was sent yet with the factory's own status: 404, 400, 500, 401, 403, 409, 429 and, for
  -- NewDBError, 500.
  pub response_error-factories :
      (w : ResponseWriter) (e : Error) → w.status ≡ none → FactoryStatus w e
  unfolding new_not_found_error new_bad_request_error new_internal_server_error
      new_unauthorized_error new_forbidden_error new_conflict_error new_too_many_requests_error
      new_db_error
  response_error-factories w e h = (
    (response_error-IsDelivered w (new_not_found_error e) h).status,
    (response_error-IsDelivered w (new_bad_request_error e) h).status,
    (response_error-IsDelivered w (new_internal_server_error e) h).status,
    (response_error-IsDelivered w (new_unauthorized_error e) h).status,
    (response_error-IsDelivered w (new_forbidden_error e) h).status,
    (response_error-IsDelivered w (new_conflict_error e) h).status,
    (response_error-IsDelivered w (new_too_many_requests_error e) h).status,
    (response_error-IsDelivered w (new_db_error e) h).status,
  )
