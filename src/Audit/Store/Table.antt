-- ===== src/Audit/Store/Table.antt =====
-- The table audit_events behind the queries: what PostgreSQL does with their texts, on a database
-- that answers.
use micro_services.Base.{String, Bool, true, ◌≡◌, ◌≢◌, some, List, [], ◌∷◌, ◌++◌, map, All, ℤ}
use micro_services.Errors.{Error, ok, err}
use micro_services.Audit.Store.Rows.{Columns, insert_event_query, get_event_query}
use micro_services.Audit.Store.QueryTexts.{insert_columns, returning_columns, select_columns}
use micro_services.Audit.Store.{Dbtx}

-- A value that was bound and stored reads back as itself, but for what the column changes: texts may
-- lose spaces at their end, timestamps are kept to the microsecond, addresses and JSON in a normal
-- form. NULL stays NULL.
pub record Codec (D : Columns) : Type 0 where
  pub stored_text : (column : String) → String → String
  pub stored_null_text : (column : String) → D.NullString → D.NullString
  pub stored_time : D.Time → D.Time
  pub stored_inet : D.Inet → D.Inet
  pub stored_json : D.NullRawMessage → D.NullRawMessage
  pub kept-bind_uuid : (c : String) (x : D.Uuid) → D.kept c (D.bind_uuid x) ≡ D.bind_uuid x
  pub read_integer-kept :
      (c : String) (x : ℤ) → D.read_integer (D.kept c (D.bind_integer x)) ≡ some x
  pub read-bind_uuid : (x : D.Uuid) → D.read_uuid (D.bind_uuid x) ≡ some x
  pub read_time-kept :
      (c : String) (x : D.Time) → D.read_time (D.kept c (D.bind_time x)) ≡ some (stored_time x)
  pub read_text-kept :
      (c x : String) → D.read_text (D.kept c (D.bind_text x)) ≡ some (stored_text c x)
  pub read_inet-kept :
      (c : String) (x : D.Inet) → D.read_inet (D.kept c (D.bind_inet x)) ≡ some (stored_inet x)
  pub read_null_text-kept :
      (c : String) (x : D.NullString)
      → D.read_null_text (D.kept c (D.bind_null_text x)) ≡ some (stored_null_text c x)
  pub read_json-kept :
      (c : String) (x : D.NullRawMessage)
      → D.read_json (D.kept c (D.bind_json x)) ≡ some (stored_json x)
  pub read_null : D.read_null_text (D.bind_null_text D.zero_null_text) ≡ some D.zero_null_text

module _ {V : Type 0} where
  -- The columns have what they keep of these values, one by one.
  abbrev pub Carries : (kept : String → V → V) → List String → List V → (String → V) → Type 0
  Carries kept (c ∷ cs) (v ∷ vs) r = (r c ≡ kept c v) × Carries kept cs vs r
  Carries kept _ _ r = Unit

pub record IsTable {D : Columns} (B : Dbtx D) : Type 0 where
  pub rows : B.State → List (String → D.Value)
  -- The values that the CHECK constraints and the types of the columns allow.
  pub admits : List D.Value → Bool
  -- INSERT … RETURNING that returns a row: one new row at the end has what the columns of the text keep of
  -- the arguments and NULL in the two that are left out, and its returned columns are read.
  pub inserted :
      (args vs : List D.Value) (s : B.State)
      → B.row_values (B.query_row insert_event_query args s).0 ≡ ok vs
      → (new : String → D.Value) × (rows (B.query_row insert_event_query args s).1
          ≡ rows s ++ new ∷ [])
        × (vs ≡ map new returning_columns)
        × Carries D.kept insert_columns args new
        × (new "prev_hash" ≡ D.bind_null_text D.zero_null_text)
        × (new "hash" ≡ D.bind_null_text D.zero_null_text)
  -- ON CONFLICT (event_id) DO NOTHING: where a row has the event's id already, no row is returned,
  -- or an error where the values are not admitted, and the table stays as it is.
  pub conflicting :
      (v : D.Value) (args : List D.Value) (s : B.State) (xs ys : List (String → D.Value))
      (r : String → D.Value)
      → rows s ≡ xs ++ r ∷ ys
      → r "event_id" ≡ v
      → ((e : Error) × (B.row_values (B.query_row insert_event_query (v ∷ args) s).0 ≡ err e)
          × (admits (v ∷ args) ≡ true → e ≡ B.no_rows))
        × (rows (B.query_row insert_event_query (v ∷ args) s).1 ≡ rows s)
  -- SELECT … WHERE event_id = $1
  pub selected :
      (v : D.Value) (s : B.State) (xs ys : List (String → D.Value)) (r : String → D.Value)
      → rows s ≡ xs ++ r ∷ ys
      → r "event_id" ≡ v
      → (B.row_values (B.query_row get_event_query (v ∷ []) s).0 ≡ ok (map r select_columns))
        × (rows (B.query_row get_event_query (v ∷ []) s).1 ≡ rows s)
  pub missing :
      (v : D.Value) (s : B.State)
      → All (λ (r : String → D.Value). r "event_id" ≢ v) (rows s)
      → (B.row_values (B.query_row get_event_query (v ∷ []) s).0 ≡ err B.no_rows)
        × (rows (B.query_row get_event_query (v ∷ []) s).1 ≡ rows s)
