-- ===== src/Auth/Tests.antt =====
-- A login at concrete data.
use Prim.Native.String.{len}
use micro_services.Base.{
  ℕ, String, Bool, true, false, ◌≡◌, ◌≢◌, refl, ◌↔◌, ◌≤◌, Option, none, some, List, [], ◌∷◌, ◌||◌,
  ◌&&◌, not, All, leb, ◌==◌, string_eq, arith, pos, if◌then◌else◌,
}
use micro_services.Errors.{Error, plain, Result, ok, err}
use micro_services.Http.Writer.{new_writer}
use micro_services.Http.Response.{Encoder, error_response, success_response}
use micro_services.Http.Response.Delivery.{IsDelivered}
use micro_services.Http.Request.{RequestBody}
use micro_services.Tx.{new_transactor}
use micro_services.Tx.Sql.{Driver}
use micro_services.Auth.Users.{UserRow}
use micro_services.Auth.Validation.{LoginRequest, Ozzo, validate}
use micro_services.Auth.Validation.Accepted.{IsOzzo, validate_iff}
use micro_services.Auth.Login.{LoginService, TokenResponse}
use micro_services.Auth.Login.Answers.{read, respond, expected, login_answers}

data Rule : Type 0 where
  required email_format : Rule
  length : ℕ → ℕ → Rule

abbrev passes : Rule → String → Bool
passes required s = not (s == "")
passes email_format s = s == "" || s == "ann@x.io"
passes (length lo hi) s = s == "" || (leb lo (len s) && leb (len s) hi)

abbrev pass_all : List Rule → String → Bool
pass_all [] s = true
pass_all (r ∷ rs) s = passes r s && pass_all rs s

abbrev pass_fields : List (String × List Rule) → Bool
pass_fields [] = true
pass_fields ((s, rs) ∷ fs) = pass_all rs s && pass_fields fs

abbrev rules : Ozzo
rules = record {
  Rule = Rule;
  required = required;
  email_format = email_format;
  length = length;
  validate_struct = λ fs. if pass_fields fs then none else some (plain "invalid");
}

pass_all_iff :
    (rs : List Rule) (s : String) → (pass_all rs s ≡ true) ↔ All (λ r. passes r s ≡ true) rs
pass_all_iff [] s = ground arith
pass_all_iff (r ∷ rs) s = ground (arith, pass_all_iff rs s)

pass_fields_iff :
    (fs : List (String × List Rule))
    → (pass_fields fs ≡ true)
      ↔ All (λ (f : String × List Rule). All (λ r. passes r f.0 ≡ true) f.1) fs
pass_fields_iff [] = ground arith
pass_fields_iff ((s, rs) ∷ fs) = ground (arith, pass_all_iff rs s, pass_fields_iff fs)

accepted_iff :
    (fs : List (String × List Rule))
    → (rules.validate_struct fs ≡ none)
      ↔ All (λ (f : String × List Rule). All (λ r. passes r f.0 ≡ true) f.1) fs
accepted_iff fs = ground (arith, pass_fields_iff fs)

abbrev rules-IsOzzo : IsOzzo rules
rules-IsOzzo = record {
  accepts = passes;
  is_email = λ s. s == "ann@x.io";
  validate_struct_iff = accepted_iff;
  accepts-required = λ s. refl;
  accepts-email_format = λ s. refl;
  accepts-length = λ lo hi s. refl;
}

abbrev ann : LoginRequest
ann = record { email = "ann@x.io"; password = "secret" }

validate_iff_example : (validate rules ann ≡ none) ↔ (
    (ann.email ≢ "")
    × ((ann.email == "ann@x.io") ≡ true)
    × (5 ≤ len ann.email)
    × (len ann.email ≤ 100)
    × (ann.password ≢ "")
    × (6 ≤ len ann.password)
    × (len ann.password ≤ 100))
validate_iff_example = validate_iff rules rules-IsOzzo ann

-- One user is stored.
abbrev blank : UserRow ℕ
blank = record {
  id = pos 0;
  login_id = "";
  password = "";
  email = "";
  created_at = 0;
  updated_at = 0;
}

abbrev lookup : String → UserRow ℕ × Option Error
lookup email =
    if email == "ann@x.io"
    then (record blank { id = pos 1; password = "secret"; email = "ann@x.io" }, none)
    else (blank, some (plain "sql: no rows in result set"))

abbrev sound : Driver
sound = record {
  begin_error = λ db. none;
  commit_error = λ db t. none;
  rollback_error = λ db t. none;
}

abbrev service : LoginService ℕ
service = record { repo = record { get_user = lookup }; tx = new_transactor sound }

abbrev encode : Encoder TokenResponse
encode (error_response s) = (s ∷ [], none)
encode (success_response t) = (t.token.user_id ∷ [], none)

-- Decodes the one request above.
abbrev decode : String → Result LoginRequest
decode s = if s == "ann" then ok ann else err (plain "unexpected end of JSON input")

abbrev sent : RequestBody
sent = record { content = ok "ann"; closed = false }

login_answers_example :
    IsDelivered
      (respond rules encode decode service new_writer sent)
      (expected rules encode decode service new_writer (read rules encode decode service sent)).0
      (expected rules encode decode service new_writer (read rules encode decode service sent)).1
login_answers_example = login_answers rules encode decode service new_writer refl sent
