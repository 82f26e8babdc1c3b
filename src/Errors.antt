-- ===== src/Errors.antt =====
-- modules/shared/src/utilhttp/error.go, with the values of Go's `error` that the program makes.
use micro_services.Base.{
  String, ◌<>◌, ◌≡◌, refl, ◌⊎◌, inl, inr, ℤ, pos, ◌==◌, int_eq, if◌then◌else◌,
}

-- `type ErrorType int`; the constants of the block count from 0.
abbrev pub ErrorType : Type 0
ErrorType = ℤ

abbrev pub err_not_found : ErrorType
err_not_found = pos 0

abbrev pub err_bad_request : ErrorType
err_bad_request = pos 1

abbrev pub err_internal_server : ErrorType
err_internal_server = pos 2

abbrev pub err_unauthorized : ErrorType
err_unauthorized = pos 3

abbrev pub err_forbidden : ErrorType
err_forbidden = pos 4

abbrev pub err_conflict : ErrorType
err_conflict = pos 5

abbrev pub err_too_many_requests : ErrorType
err_too_many_requests = pos 6

abbrev pub err_database : ErrorType
err_database = pos 7

-- ErrorType.String
unfoldable pub type_string : ErrorType → String
type_string e =
    if e == err_not_found
    then "not found"
    else if e == err_bad_request
    then "bad request"
    else if e == err_internal_server
    then "internal server error"
    else if e == err_unauthorized
    then "unauthorized"
    else if e == err_forbidden
    then "forbidden"
    else if e == err_conflict
    then "conflict"
    else if e == err_too_many_requests
    then "too many requests"
    else if e == err_database
    then "database error"
    else "unknown error"

pub record AppError : Type 0 where
  pub error_type : ErrorType
  pub message : String

-- The dynamic types of an `error`. Each of the eight wrappers embeds an AppError and has a type of
-- its own, on which ResponseError switches. `join` is errors.Join of two errors. `plain` is an error
-- of any other type (fmt.Errorf, errors.New, a library's), of which the program reads the text.
pub data Error : Type 0 where
  plain : String → Error
  join : Error → Error → Error
  app_error : AppError → Error
  not_found_error : AppError → Error
  bad_request_error : AppError → Error
  internal_server_error : AppError → Error
  unauthorized_error : AppError → Error
  forbidden_error : AppError → Error
  conflict_error : AppError → Error
  too_many_requests_error : AppError → Error
  db_error : AppError → Error

-- The method Error; the wrappers have AppError's by embedding.
unfoldable pub error_text : Error → String
error_text (plain s) = s
error_text (join e f) = error_text e <> "\n" <> error_text f
error_text (app_error a) = a.message
error_text (not_found_error a) = a.message
error_text (bad_request_error a) = a.message
error_text (internal_server_error a) = a.message
error_text (unauthorized_error a) = a.message
error_text (forbidden_error a) = a.message
error_text (conflict_error a) = a.message
error_text (too_many_requests_error a) = a.message
error_text (db_error a) = a.message

unfoldable pub new_app_error : ErrorType → Error → AppError
unfolding error_text
new_app_error t err = record { error_type = t; message = error_text err }

unfoldable pub new_not_found_error : Error → Error
unfolding new_app_error
new_not_found_error err = not_found_error (new_app_error err_not_found err)

unfoldable pub new_bad_request_error : Error → Error
unfolding new_app_error
new_bad_request_error err = bad_request_error (new_app_error err_bad_request err)

unfoldable pub new_internal_server_error : Error → Error
unfolding new_app_error
new_internal_server_error err = internal_server_error (new_app_error err_internal_server err)

unfoldable pub new_unauthorized_error : Error → Error
unfolding new_app_error
new_unauthorized_error err = unauthorized_error (new_app_error err_unauthorized err)

unfoldable pub new_forbidden_error : Error → Error
unfolding new_app_error
new_forbidden_error err = forbidden_error (new_app_error err_forbidden err)

unfoldable pub new_conflict_error : Error → Error
unfolding new_app_error
new_conflict_error err = conflict_error (new_app_error err_conflict err)

unfoldable pub new_too_many_requests_error : Error → Error
unfolding new_app_error
new_too_many_requests_error err = too_many_requests_error (new_app_error err_too_many_requests err)

unfoldable pub new_db_error : Error → Error
unfolding new_app_error
new_db_error err = db_error (new_app_error err_database err)

-- A pair (T, error) of which one side counts: the value where the error is nil, and the error where
-- the value is the type's zero.
pub data Result {ℓ} (A : Type ℓ) : Type ℓ where
  ok : A → Result A
  err : Error → Result A

pub Result-cases {ℓ} :
    {A : Type ℓ} (r : Result A) → ((a : A) × (r ≡ ok a)) ⊎ ((e : Error) × (r ≡ err e))
Result-cases (ok a) = inl (a, refl)
Result-cases (err e) = inr (e, refl)
