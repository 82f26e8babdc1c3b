-- ===== src/Auth/Validation.antt =====
-- modules/auth/src/route/request/login.go, over the rules of ozzo-validation.
pub mod Accepted
use micro_services.Base.{ℕ, String, Option, List, [], ◌∷◌}
use micro_services.Errors.{Error}

pub record LoginRequest : Type 0 where
  pub email : String
  pub password : String

-- github.com/go-ozzo/ozzo-validation: rules on text fields, and ValidateStruct over the fields'
-- values with their rules.
pub record Ozzo : Type 1 where
  pub Rule : Type 0
  pub required : Rule
  pub email_format : Rule
  pub length : (min max : ℕ) → Rule
  pub validate_struct : List (String × List Rule) → Option Error

unfoldable pub validate : Ozzo → LoginRequest → Option Error
validate O r = O.validate_struct (
    (r.email, O.required ∷ O.email_format ∷ O.length 5 100 ∷ [])
    ∷ (r.password, O.required ∷ O.length 6 100 ∷ [])
    ∷ [])
