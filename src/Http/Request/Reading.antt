-- ===== src/Http/Request/Reading.antt =====
-- When a body or a URL parameter is accepted, and how each refusal is answered.
use mathlib.Core.Option
use micro_services.Base.{String, true, false, ◌≡◌, ◌≢◌, ◌↔◌, Option, none, arith, string_eq}
use micro_services.Errors.{new_bad_request_error, Result, ok, err}
use micro_services.Context.{Context, key_eq, context_key, ctx_value-with_value_ne}
use micro_services.Http.Response.Mapping.{error_status}
use micro_services.Http.Request.{
  ContextKey, set_context_value, Validator, request_url_param, RequestBody, request_body,
}

-- What the two readers promise of a result: an error is a BadRequestError, answered with 400.
abbrev pub IsBadRequest {ℓ} : {A : Type ℓ} → Result A → Type 0
IsBadRequest (ok a) = Unit
IsBadRequest (err e) = error_status e ≡ 400

module _ {T : Type 0} ⦃v : Validator T⦄ where
  -- RequestBody returns a value exactly when the body is read, the bytes decode to that value and
  -- the value passes its own validation.
  pub request_body-eq-ok_iff :
      (unmarshal : String → Result T) (b : RequestBody) (t : T)
      → ((request_body unmarshal b).0 ≡ ok t) ↔ (
          (bytes : String) × (b.content ≡ ok bytes)
          × (unmarshal bytes ≡ ok t)
          × (v.validate t ≡ none))
  unfolding request_body
  request_body-eq-ok_iff unmarshal b t = ground arith

  pub request_body_bad :
      (unmarshal : String → Result T) (b : RequestBody) → IsBadRequest (request_body unmarshal b).0
  unfolding request_body new_bad_request_error
  request_body_bad unmarshal b = ground arith

  -- Every error of RequestBody is answered with 400, and the body is closed exactly when it was read
  -- without an error.
  request_body-IsBadRequest :
      (unmarshal : String → Result T) (b : RequestBody)
      → b.closed ≡ false
      → IsBadRequest (request_body unmarshal b).0
        × (((request_body unmarshal b).1.closed ≡ true)
            ↔ ((bytes : String) × (b.content ≡ ok bytes)))
  unfolding request_body new_bad_request_error
  request_body-IsBadRequest unmarshal b h = ground arith

  module _ {V : Type 0} (as_T : V → Option T) where
    -- Storing under another key changes nothing.
    request_url_param-set_ne :
        (ctx : Context V) (key other : ContextKey) (x : V)
        → other ≢ key
        → request_url_param as_T (set_context_value ctx other x) key
          ≡ request_url_param as_T ctx key
    unfolding request_url_param set_context_value
    request_url_param-set_ne ctx key other x h = rw (
      request_url_param,
      ctx_value-with_value_ne ctx (context_key other) (context_key key) x (λ e. h cc),
    )

    request_url_param-IsBadRequest :
        (ctx : Context V) (key : ContextKey) → IsBadRequest (request_url_param as_T ctx key)
    unfolding request_url_param new_bad_request_error
    request_url_param-IsBadRequest ctx key = ground arith
