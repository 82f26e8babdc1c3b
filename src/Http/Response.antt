-- ===== src/Http/Response.antt =====
-- modules/shared/src/utilhttp/response.go
pub mod Delivery
pub mod Mapping
use micro_services.Base.{ℕ, String, Option, none, some, List, ◌==◌, int_eq, if◌then◌else◌}
use micro_services.Errors.{
  Error, plain, join, app_error, not_found_error, bad_request_error, internal_server_error,
  unauthorized_error, forbidden_error, conflict_error, too_many_requests_error, db_error, AppError,
  error_text, err_not_found, err_bad_request, err_internal_server, err_unauthorized, err_forbidden,
  err_conflict, err_too_many_requests, err_database,
}
use micro_services.Http.Writer.{ResponseWriter, set_header, write_header, write, write_all}

abbrev pub content_type : String
content_type = "Content-Type"

abbrev pub application_json : String
application_json = "application/json"

-- The interface Response with its two implementations, ErrorResponse and SuccessResponse[T].
pub data Response (T : Type 0) : Type 0 where
  error_response : String → Response T
  success_response : T → Response T

abbrev pub encode_failed : String
encode_failed = "{\"error\": \"failed to encode response\"}"

-- json.NewEncoder(w).Encode is goccy/go-json's: what it writes for a message, and its error.
abbrev pub Encoder : Type 0 → Type 0
Encoder T = Response T → List String × Option Error

module _ {T : Type 0} (encode : Encoder T) where
  abbrev after_encode : Option Error → ResponseWriter → ResponseWriter
  after_encode none w = w
  after_encode (some _) w = write encode_failed (write_header 500 w)

  unfoldable pub write_json : ResponseWriter → ℕ → Response T → ResponseWriter
  unfolding write write_header write_all
  write_json w status_code msg =
      let started = write_header status_code (set_header content_type application_json w) in
      let (chunks, err) = encode msg in after_encode err (write_all chunks started)

  unfoldable pub response_ok : ResponseWriter → T → ResponseWriter
  response_ok w msg = write_json w 200 (success_response msg)

  unfoldable pub response_accepted : ResponseWriter → T → ResponseWriter
  response_accepted w msg = write_json w 202 (success_response msg)

  response_internal_server_error : ResponseWriter → Error → ResponseWriter
  response_internal_server_error w err = write_json w 500 (error_response (error_text err))

  response_bad_request : ResponseWriter → Error → ResponseWriter
  response_bad_request w err = write_json w 400 (error_response (error_text err))

  response_not_found : ResponseWriter → Error → ResponseWriter
  response_not_found w err = write_json w 404 (error_response (error_text err))

  response_unauthorized : ResponseWriter → Error → ResponseWriter
  response_unauthorized w err = write_json w 401 (error_response (error_text err))

  response_forbidden : ResponseWriter → Error → ResponseWriter
  response_forbidden w err = write_json w 403 (error_response (error_text err))

  response_conflict : ResponseWriter → Error → ResponseWriter
  response_conflict w err = write_json w 409 (error_response (error_text err))

  response_too_many_requests : ResponseWriter → Error → ResponseWriter
  response_too_many_requests w err = write_json w 429 (error_response (error_text err))

  -- The second switch of ResponseError, on the type of the AppError.
  response_by_type : ResponseWriter → AppError → ResponseWriter
  unfolding response_not_found response_bad_request response_unauthorized response_forbidden
      response_conflict response_too_many_requests response_internal_server_error
  response_by_type w e =
      if e.error_type == err_not_found
      then response_not_found w (app_error e)
      else if e.error_type == err_bad_request
      then response_bad_request w (app_error e)
      else if e.error_type == err_unauthorized
      then response_unauthorized w (app_error e)
      else if e.error_type == err_forbidden
      then response_forbidden w (app_error e)
      else if e.error_type == err_conflict
      then response_conflict w (app_error e)
      else if e.error_type == err_too_many_requests
      then response_too_many_requests w (app_error e)
      else if e.error_type == err_internal_server
      then response_internal_server_error w (app_error e)
      else if e.error_type == err_database
      then response_internal_server_error w (app_error e)
      else response_internal_server_error w (app_error e)

-- The type switch of ResponseError; `none` is its default case.
unfoldable pub embedded_app_error : Error → Option AppError
embedded_app_error (app_error e) = some e
embedded_app_error (not_found_error e) = some e
embedded_app_error (bad_request_error e) = some e
embedded_app_error (internal_server_error e) = some e
embedded_app_error (unauthorized_error e) = some e
embedded_app_error (forbidden_error e) = some e
embedded_app_error (conflict_error e) = some e
embedded_app_error (too_many_requests_error e) = some e
embedded_app_error (db_error e) = some e
embedded_app_error (plain s) = none
embedded_app_error (join e f) = none

unfoldable pub response_error : {T : Type 0} → Encoder T → ResponseWriter → Error → ResponseWriter
unfolding embedded_app_error response_by_type response_internal_server_error
response_error encode w err = elim (embedded_app_error err) [
  | none ↦ response_internal_server_error encode w err
  | some e ↦ response_by_type encode w e
]
