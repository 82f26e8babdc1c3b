-- ===== src/Http/Tests.antt =====
-- Responses and request readers at concrete data.
use micro_services.Base.{
  String, false, ◌≡◌, refl, ◌↔◌, Option, none, some, [], ◌∷◌, ◌<>◌, ◌==◌, string_eq, if◌then◌else◌,
  pos,
}
use micro_services.Errors.{Error, plain, conflict_error, new_db_error, Result, ok, err}
use micro_services.Http.Writer.{new_writer, header_set}
use micro_services.Http.Response.{
  error_response, success_response, Encoder, write_json, response_error, response_ok,
}
use micro_services.Http.Response.Delivery.{IsDelivered, write_json-IsDelivered}
use micro_services.Http.Response.Mapping.{FactoryStatus, response_error-factories}
use micro_services.Http.Request.{Validator, RequestBody, request_body}
use micro_services.Http.Request.Reading.{request_body-eq-ok_iff}

-- An encoder that knows texts, and fails on the empty one.
abbrev encode : Encoder String
encode (error_response s) = ("{\"error\":\"" ∷ s ∷ "\"}" ∷ [], none)
encode (success_response s) =
    if s == "" then ([], some (plain "empty")) else ("{\"data\":\"" ∷ s ∷ "\"}" ∷ [], none)

responses :
    ((response_ok encode new_writer "hi").body ≡ "{\"data\":\"hi\"}")
    × ((response_ok encode new_writer "").status ≡ some 200)
    × ((response_ok encode new_writer "").superfluous ≡ 1)
    × ((response_error encode new_writer (new_db_error (plain "down"))).body
        ≡ "{\"error\":\"down\"}")
unfolding response_ok write_json header_set response_error new_db_error
responses = (refl, refl, refl, refl)

write_json-IsDelivered_example :
    IsDelivered
      (write_json encode new_writer 202 (success_response ""))
      202
      ((("" <> "") <> "{\"error\": \"failed to encode response\"}"))
write_json-IsDelivered_example =
    write_json-IsDelivered encode new_writer 202 (success_response "") refl

abbrev taken : Error
taken = conflict_error (record { error_type = pos 5; message = "taken" })

response_error-factories_example : FactoryStatus encode new_writer (plain "x")
response_error-factories_example = response_error-factories encode new_writer (plain "x") refl

-- A parameter that must not be "root".
instance abbrev name_validator : Validator String
name_validator = record { validate = λ s. if s == "root" then some (plain "reserved") else none }

abbrev decode : String → Result String
decode s = if s == "" then err (plain "unexpected end of JSON input") else ok s

abbrev sent : RequestBody
sent = record { content = ok "ann"; closed = false }

abbrev as_text : String → Option String
as_text s = some s

request_body-eq-ok_iff_example : ((request_body decode sent).0 ≡ ok "ann") ↔ (
    (bytes : String) × (sent.content ≡ ok bytes)
    × (decode bytes ≡ ok "ann")
    × (name_validator.validate "ann" ≡ none))
request_body-eq-ok_iff_example = request_body-eq-ok_iff decode sent "ann"
