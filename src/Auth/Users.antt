-- ===== src/Auth/Users.antt =====
-- modules/auth/src/infra/database/db: the users table as the login reads it. database/sql is a
-- parameter.
pub mod Table
pub mod Models
use mathlib.Core.Option
use micro_services.Base.{String, Option, List, [], ◌∷◌, ℤ, pos}
use micro_services.Errors.{Error, Result}
use micro_services.Sql.{Dest, ScanErrors, scan}

-- A row of users. `NullTime` is sql.NullTime.
pub record UserRow (NullTime : Type 0) : Type 0 where
  pub id : ℤ
  pub login_id : String
  pub password : String
  pub email : String
  pub created_at : NullTime
  pub updated_at : NullTime

abbrev pub get_user_query : String
get_user_query =
    "-- name: GetUser :one\nSELECT\n    id, login_id, password, email, created_at, updated_at\nFROM\n    users\nWHERE\n    email = $1\n"

-- The interface DBTX, with what the driver binds and reads back; the values that a row has for Scan,
-- or the error that Scan returns at once (sql.ErrNoRows where there is no row).
pub record Dbtx (NullTime : Type 0) : Type 1 where
  pub Value : Type 0
  pub Row : Type 0
  pub bind_text : String → Value
  pub read_integer : Value → Option ℤ
  pub read_text : Value → Option String
  pub read_null_time : Value → Option NullTime
  pub zero_null_time : NullTime
  pub scan_errors : ScanErrors
  pub no_rows : Error
  pub query_row : String → List Value → Row
  pub row_values : Row → Result (List Value)

-- The struct Queries, with WithTx, which nothing calls: *sql.Tx implements DBTX too.
pub record Queries (NullTime : Type 0) : Type 1 where
  pub db : Dbtx NullTime

abbrev pub with_tx : {NullTime : Type 0} → Queries NullTime → Dbtx NullTime → Queries NullTime
with_tx q tx = record { db = tx }

-- The interface Querier.
pub record Querier (NullTime : Type 0) : Type 0 where
  pub get_user : String → UserRow NullTime × Option Error

module _ {NullTime : Type 0} (B : Dbtx NullTime) where
  -- `var i User`
  abbrev pub zero_user : UserRow NullTime
  zero_user = record {
    id = pos 0;
    login_id = "";
    password = "";
    email = "";
    created_at = B.zero_null_time;
    updated_at = B.zero_null_time;
  }

  abbrev pub user_dests : List (Dest B.Value (UserRow NullTime))
  user_dests =
      (λ v i. Option.map (λ x. record i { id = x }) (B.read_integer v))
      ∷ (λ v i. Option.map (λ x. record i { login_id = x }) (B.read_text v))
      ∷ (λ v i. Option.map (λ x. record i { password = x }) (B.read_text v))
      ∷ (λ v i. Option.map (λ x. record i { email = x }) (B.read_text v))
      ∷ (λ v i. Option.map (λ x. record i { created_at = x }) (B.read_null_time v))
      ∷ (λ v i. Option.map (λ x. record i { updated_at = x }) (B.read_null_time v))
      ∷ []

  -- Queries.GetUser
  unfoldable pub get_user : String → UserRow NullTime × Option Error
  get_user email =
      scan B.scan_errors user_dests zero_user
        (B.row_values (B.query_row get_user_query (B.bind_text email ∷ [])))

  unfoldable pub new_queries : Querier NullTime
  unfolding get_user
  new_queries = record { get_user = get_user }
