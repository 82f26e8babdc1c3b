-- ===== src/Auth/Users/Table.antt =====
-- The table users behind the query: what PostgreSQL does with its text, on a database that answers.
use micro_services.Base.{
  String, ◌≡◌, ◌≢◌, refl, ap, ◌∙◌, Option, none, some, List, [], ◌∷◌, ◌++◌, map, All,
}
use micro_services.Errors.{ok, err}
use mathlib.Core.Option
use micro_services.Sql.{scan}
use micro_services.Sql.Reading.{Reads, nothing, ◌▸◌, Reads-scan}
use micro_services.Auth.Users.{UserRow, Dbtx, zero_user, user_dests, get_user, get_user_query}

-- The columns in the order of the query's text.
abbrev pub user_columns : List String
user_columns = "id" ∷ "login_id" ∷ "password" ∷ "email" ∷ "created_at" ∷ "updated_at" ∷ []

pub record IsTable {NullTime : Type 0} (B : Dbtx NullTime) : Type 0 where
  pub rows : List (String → B.Value)
  -- SELECT … WHERE email = $1; the column is UNIQUE, so any row with the email is the one.
  pub selected :
      (v : B.Value) (xs ys : List (String → B.Value)) (r : String → B.Value)
      → rows ≡ xs ++ r ∷ ys
      → r "email" ≡ v
      → B.row_values (B.query_row get_user_query (v ∷ [])) ≡ ok (map r user_columns)
  pub missing :
      (v : B.Value)
      → All (λ (r : String → B.Value). r "email" ≢ v) rows
      → B.row_values (B.query_row get_user_query (v ∷ [])) ≡ err B.no_rows

module _ {NullTime : Type 0} (B : Dbtx NullTime) where
  -- A row of the table that holds this user.
  pub record Holds (r : String → B.Value) (u : UserRow NullTime) : Type 0 where
    pub id_read : B.read_integer (r "id") ≡ some u.id
    pub login_id_read : B.read_text (r "login_id") ≡ some u.login_id
    pub password_read : B.read_text (r "password") ≡ some u.password
    pub email_read : B.read_text (r "email") ≡ some u.email
    pub created_at_read : B.read_null_time (r "created_at") ≡ some u.created_at
    pub updated_at_read : B.read_null_time (r "updated_at") ≡ some u.updated_at

  user-Reads :
      (r : String → B.Value) (u : UserRow NullTime)
      → Holds r u
      → Reads (user_dests B) (map r user_columns) (zero_user B) u
  user-Reads r u h =
      ap (Option.map _) h.id_read
      ▸ ap (Option.map _) h.login_id_read
      ▸ ap (Option.map _) h.password_read
      ▸ ap (Option.map _) h.email_read
      ▸ ap (Option.map _) h.created_at_read
      ▸ ap (Option.map _) h.updated_at_read
      ▸ nothing

  module _ (K : IsTable B) where
    -- What the table knows of an email: a row with it and the user that the row holds, or no row.
    pub data Knows (email : String) : Option (UserRow NullTime) → Type 0 where
      present :
          (xs ys : List (String → B.Value)) (r : String → B.Value) (u : UserRow NullTime)
          → K.rows ≡ xs ++ r ∷ ys
          → r "email" ≡ B.bind_text email
          → Holds r u
          → Knows email (some u)
      absent :
          All (λ (r : String → B.Value). r "email" ≢ B.bind_text email) K.rows → Knows email none

    pub get_user_present :
        (email : String) (u : UserRow NullTime)
        → Knows email (some u)
        → get_user B email ≡ (u, none)
    unfolding get_user
    get_user_present email u (present xs ys r _ rows at held) =
        ap (scan B.scan_errors (user_dests B) (zero_user B)) (K.selected _ xs ys r rows at)
        ∙ Reads-scan B.scan_errors (user-Reads r u held)

    pub get_user_absent :
        (email : String) → Knows email none → get_user B email ≡ (zero_user B, some B.no_rows)
    unfolding get_user
    get_user_absent email (absent h) = rw (K.missing _ h) refl
