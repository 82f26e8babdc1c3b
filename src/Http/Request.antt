-- ===== src/Http/Request.antt =====
-- modules/shared/src/utilhttp/request.go
pub mod Reading
use mathlib.Core.Option
use micro_services.Base.{String, Bool, true, Option, none, some, ◌<>◌}
use micro_services.Errors.{Error, plain, error_text, new_bad_request_error, Result, ok, err}
use micro_services.Context.{Context, context_key, with_value, ctx_value}

-- `type ContextKey string`; a key of this type is `context_key k`.
abbrev pub ContextKey : Type 0
ContextKey = String

unfoldable pub set_context_value : {V : Type 0} → Context V → ContextKey → V → Context V
set_context_value ctx key val = with_value ctx (context_key key) val

pub record Validator (T : Type 0) : Type 0 where
  pub validate : T → Option Error

-- req.Body: what io.ReadAll gives, and whether Close was called.
pub record RequestBody : Type 0 where
  pub content : Result String
  pub closed : Bool

module _ {T : Type 0} ⦃v : Validator T⦄ where
  abbrev checked_param : ContextKey → T → Option Error → Result T
  checked_param key t none = ok t
  checked_param key t (some e) = err (
      new_bad_request_error
        (plain ("invalid URL parameter: " <> key <> ", error: " <> error_text e)))

  -- `as_T` is the type assertion `.(T)`.
  unfoldable pub request_url_param :
      {V : Type 0} (as_T : V → Option T) → Context V → ContextKey → Result T
  request_url_param as_T ctx key = elim (Option.bind (ctx_value ctx (context_key key)) as_T) [
    | none ↦ err (new_bad_request_error (plain ("missing or invalid URL parameter: " <> key)))
    | some t ↦ checked_param key t (v.validate t)
  ]

  abbrev checked_body : T → Option Error → Result T
  checked_body body none = ok body
  checked_body body (some e) =
      err (new_bad_request_error (plain ("invalid request body: " <> error_text e)))

  -- What follows json.Unmarshal of the bytes read.
  abbrev decoded_body : Result T → Result T
  decoded_body (err e) =
      err (new_bad_request_error (plain ("unmarshal request body: " <> error_text e)))
  decoded_body (ok body) = checked_body body (v.validate body)

  -- The deferred Close is registered after a read that succeeded.
  unfoldable pub request_body :
      (unmarshal : String → Result T) → RequestBody → Result T × RequestBody
  request_body unmarshal b = elim b.content [
    | err e ↦ (err (new_bad_request_error (plain ("read request body: " <> error_text e))), b)
    | ok bytes ↦ (decoded_body (unmarshal bytes), record b { closed = true })
  ]
