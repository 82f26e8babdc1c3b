-- ===== src/Auth/Route/Tests.antt =====
-- Requests to the service.
use micro_services.Auth.Route.Table.{health_untraced}
use micro_services.Base.{
  if◌then◌else◌, arith, alone, ◌≢◌, ◌++◌, ap, ◌∙◌, ==_iff, ◌&&◌, ℕ, String, false, ◌≡◌, refl,
  Option, none, some, List, [], ◌∷◌, map, ◌==◌, string_eq, pos,
}
use micro_services.Errors.{Error, plain, Result, ok, err}
use micro_services.Auth.Validation.{validate}
use micro_services.Http.Request.{request_body}
use micro_services.Http.Writer.{new_writer}
use micro_services.Http.Response.{Encoder, error_response, success_response}
use micro_services.Http.Request.{RequestBody}
use micro_services.Otel.Middleware.{Request}
use micro_services.Tx.{new_transactor}
use micro_services.Tx.Sql.{Driver}
use micro_services.Auth.Users.Table.{IsTable, Knows, present, user_columns}
use micro_services.Auth.Route.Stored.{served-eq-verdict}
use micro_services.Auth.Users.{Dbtx, new_queries, get_user_query, UserRow, Querier}
use micro_services.Auth.Validation.{LoginRequest, Ozzo}
use micro_services.Auth.Login.{TokenResponse, Handler, new_handler, as_login, new_login_service}
use micro_services.Auth.Route.{router, served}
use micro_services.Auth.Route.Examples.{chi, chi-IsRouter, refuse}
use micro_services.Auth.Route.Table.{served-eq-target}

abbrev rules : Ozzo
rules = record {
  Rule = Unit;
  required = tt;
  email_format = tt;
  length = λ lo hi. tt;
  validate_struct = λ fs. none;
}

abbrev lookup : String → UserRow ℕ × Option Error
lookup email = (
  record {
    id = pos 1;
    login_id = "";
    password = "secret";
    email = email;
    created_at = 0;
    updated_at = 0;
  },
  none,
)

abbrev driver : Driver
driver = record {
  begin_error = λ db. none;
  commit_error = λ db t. none;
  rollback_error = λ db t. none;
}

abbrev users : Querier ℕ
users = record { get_user = lookup }

abbrev encode : Encoder TokenResponse
encode (error_response s) = (s ∷ [], none)
encode (success_response t) = (t.token.user_id ∷ [], none)

abbrev decode : String → Result LoginRequest
decode s = ok (record { email = "ann@x.io"; password = s })

abbrev handler : Handler
handler = new_handler (as_login (new_login_service users (new_transactor driver)))

abbrev sent : RequestBody
sent = record { content = ok "secret"; closed = false }

abbrev check : Request
check = record { method = "GET"; path = "/health"; pattern = "" }

abbrev post_login : Request
post_login = record { method = "POST"; path = "/auth/v1/token/login"; pattern = "" }

abbrev get_login : Request
get_login = record { method = "GET"; path = "/auth/v1/token/login"; pattern = "" }

served-eq-target_example :
    (t' : ℕ) × ((chi.serve_http
        (router rules encode decode chi handler)
        get_login
        (new_writer, sent)
        0).0
      ≡ (refuse 405 get_login (new_writer, sent) t').0)
served-eq-target_example =
    served-eq-target rules encode decode chi chi-IsRouter handler get_login (new_writer, sent) 0
      refl

-- The table has one user.
abbrev ann_row : String → String
ann_row c =
    if c == "id"
    then "1"
    else if c == "email"
    then "ann@x.io"
    else if c == "password"
    then "secret"
    else ""

abbrev ann : UserRow String
ann = record {
  id = pos 1;
  login_id = "";
  password = "secret";
  email = "ann@x.io";
  created_at = "";
  updated_at = "";
}

abbrev answer : String → List String → Result (List String)
answer q (v ∷ []) =
    if (q == get_user_query) && ("ann@x.io" == v)
    then ok (map ann_row user_columns)
    else err (plain "sql: no rows in result set")
answer q vs = err (plain "sql: expected 1 argument")

abbrev one_user : Dbtx String
one_user = record {
  Value = String;
  Row = Result (List String);
  bind_text = λ s. s;
  read_integer = λ v. if v == "1" then some (pos 1) else none;
  read_text = some;
  read_null_time = some;
  zero_null_time = "";
  scan_errors = record {
    count_error = plain "sql: expected other number";
    convert_error = λ n. plain "sql: Scan error";
  };
  no_rows = plain "sql: no rows in result set";
  query_row = answer;
  row_values = λ r. r;
}

found_row :
    (v : String) (xs ys : List (String → String)) (r : String → String)
    → ann_row ∷ [] ≡ xs ++ r ∷ ys
    → r "email" ≡ v
    → answer get_user_query (v ∷ []) ≡ ok (map r user_columns)
found_row v xs ys r h at =
    let same = alone xs ys h in
    let email : "ann@x.io" ≡ v = ap (λ t. t "email") same ∙ at in
    ground (arith, (==_iff "ann@x.io" v).1 email) ∙ ap (λ t. ok (map t user_columns)) same

no_row :
    (v : String)
    → (ann_row "email" ≢ v) × Unit {0}
    → answer get_user_query (v ∷ []) ≡ err (plain "sql: no rows in result set")
no_row v (h, _) = ground (arith, h, ==_iff "ann@x.io" v)

one_user-IsTable : IsTable one_user
one_user-IsTable = record { rows = ann_row ∷ []; selected = found_row; missing = no_row }

ann_known : Knows one_user one_user-IsTable "ann@x.io" (some ann)
unfolding one_user-IsTable
ann_known = present [] [] ann_row ann refl refl (record {
  id_read = refl;
  login_id_read = refl;
  password_read = refl;
  email_read = refl;
  created_at_read = refl;
  updated_at_read = refl;
})

served-eq-verdict_example :
    (served rules encode decode chi
      (new_queries one_user)
      driver
      post_login
      (new_writer, sent)
      0).0.0.status
    ≡ some 200
unfolding request_body validate
served-eq-verdict_example =
    served-eq-verdict rules encode decode chi chi-IsRouter one_user one_user-IsTable driver
      post_login new_writer sent 0 (record { email = "ann@x.io"; password = "secret" }) (some ann)
      refl refl refl refl refl ann_known

health_untraced_example :
    chi.serve_http (router rules encode decode chi handler) check (new_writer, sent) 7
    ≡ ((new_writer, sent), 7)
health_untraced_example =
    health_untraced rules encode decode chi chi-IsRouter handler check (new_writer, sent) 7 refl
      refl refl
