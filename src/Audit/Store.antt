-- ===== src/Audit/Store.antt =====
-- modules/audit/src/infra/database/db/audit.sql.go: the queries. database/sql is a parameter.
pub mod Rows
pub mod Scan
pub mod QueryTexts
pub mod Table
pub mod Stored
pub mod Events
pub mod Listing
pub mod Listed
mod Examples
mod Tests
use micro_services.Base.{ℕ, zero, suc, Bool, String, Option, none, some, List, [], ◌∷◌, ◌++◌}
use micro_services.Errors.{Error, Result, ok, err}
use micro_services.Audit.Store.Rows.{
  Columns, AuditEvent, zero_event, InsertEventParams, InsertEventRow, zero_inserted,
  ListEventsByTimeRangeParams, insert_args, get_event_query, insert_event_query, list_events_query,
}
use micro_services.Sql.{ScanErrors, scan}
use micro_services.Audit.Store.Scan.{event_dests, inserted_dests}

-- The interface DBTX over a database in a state, with sql.Row and sql.Rows: the values that a row
-- has for Scan, or the error that Scan returns at once (sql.ErrNoRows where there is no row).
pub record Dbtx (D : Columns) : Type 1 where
  pub State : Type 0
  pub Row : Type 0
  pub Cursor : Type 0
  pub scan_errors : ScanErrors
  pub no_rows : Error
  pub query_row : String → List D.Value → State → Row × State
  pub row_values : Row → Result (List D.Value)
  pub query : String → List D.Value → State → Result Cursor × State
  pub next : Cursor → Bool × Cursor
  pub values : Cursor → Result (List D.Value)
  pub close : Cursor → Option Error × Cursor
  pub cursor_error : Cursor → Option Error

-- The struct Queries, with New and WithTx: *sql.DB and *sql.Tx both implement DBTX.
pub record Queries (D : Columns) : Type 1 where
  pub db : Dbtx D

abbrev pub new : {D : Columns} → Dbtx D → Queries D
new db = record { db = db }

abbrev pub with_tx : {D : Columns} → Queries D → Dbtx D → Queries D
with_tx q tx = record { db = tx }

module _ {D : Columns} (B : Dbtx D) where
  abbrev pub scan_event : Result (List D.Value) → AuditEvent D × Option Error
  scan_event = scan B.scan_errors event_dests zero_event

  abbrev pub scan_inserted : Result (List D.Value) → InsertEventRow D × Option Error
  scan_inserted = scan B.scan_errors inserted_dests zero_inserted

  -- Queries.GetEventByEventID
  unfoldable pub get_event_by_event_id : D.Uuid → B.State → (AuditEvent D × Option Error) × B.State
  get_event_by_event_id event_id s =
      let (row, s') = B.query_row get_event_query (D.bind_uuid event_id ∷ []) s in
      (scan_event (B.row_values row), s')

  -- Queries.InsertEvent
  unfoldable pub insert_event :
      InsertEventParams D → B.State → (InsertEventRow D × Option Error) × B.State
  insert_event arg s =
      let (row, s') = B.query_row insert_event_query (insert_args arg) s in
      (scan_inserted (B.row_values row), s')

  -- What follows the loop over the rows; the deferred second Close is left to `deferred`.
  abbrev pub ended :
      List (AuditEvent D) → Option Error × B.Cursor → Result (List (AuditEvent D)) × B.Cursor
  ended items (some e, c) = (err e, c)
  ended items (none, c) = elim (B.cursor_error c) [ some e ↦ (err e, c) | none ↦ (ok items, c) ]

  -- A row that was scanned: an error ends the loop, else the rest goes on.
  abbrev pub scanned :
      B.Cursor
      → AuditEvent D × Option Error
      → (List (AuditEvent D) → Option (Result (List (AuditEvent D)) × B.Cursor))
      → List (AuditEvent D)
      → Option (Result (List (AuditEvent D)) × B.Cursor)
  scanned c (i, some e) rest items = some (err e, c)
  scanned c (i, none) rest items = rest (items ++ i ∷ [])

  -- The loop `for rows.Next()`, on fuel: `none` where it runs out.
  unfoldable pub collect :
      ℕ → B.Cursor → List (AuditEvent D) → Option (Result (List (AuditEvent D)) × B.Cursor)
  collect zero c items = none
  collect (suc n) c items =
      let (more, c') = B.next c in
      let rest = collect n c' in
      elim more [
        | Bool.true ↦ scanned c' (scan_event (B.values c')) rest items
        | Bool.false ↦ some (ended items (B.close c'))
      ]

  -- `defer rows.Close()`
  abbrev deferred :
      Option (Result (List (AuditEvent D)) × B.Cursor)
      → Option (Result (List (AuditEvent D)) × B.Cursor)
  deferred none = none
  deferred (some (r, c)) = some (r, (B.close c).1)

  abbrev listed : ℕ → Result B.Cursor → Option (Result (List (AuditEvent D)))
  listed fuel (err e) = some (err e)
  listed fuel (ok c) = elim (deferred (collect fuel c [])) [ none ↦ none | some (r, c') ↦ some r ]

  -- Queries.ListEventsByTimeRange
  unfoldable pub list_events_by_time_range :
      (fuel : ℕ)
      → ListEventsByTimeRangeParams D
      → B.State
      → Option (Result (List (AuditEvent D))) × B.State
  unfolding collect
  list_events_by_time_range fuel arg s =
      let (rows, s') =
        B.query list_events_query
          (D.bind_time arg.occurred_at
            ∷ D.bind_time arg.occurred_at_2
            ∷ D.bind_integer arg.limit
            ∷ [])
          s in
      (listed fuel rows, s')

-- The interface Querier, which *Queries implements; the context of a call is left out.
pub record Querier (D : Columns) (State : Type 0) : Type 0 where
  pub get_event_by_event_id : D.Uuid → State → (AuditEvent D × Option Error) × State
  pub insert_event : InsertEventParams D → State → (InsertEventRow D × Option Error) × State
  pub list_events_by_time_range :
      ℕ → ListEventsByTimeRangeParams D → State → Option (Result (List (AuditEvent D))) × State

abbrev pub as_querier : {D : Columns} → (q : Queries D) → Querier D (q.db.State)
as_querier q = record {
  get_event_by_event_id = get_event_by_event_id q.db;
  insert_event = insert_event q.db;
  list_events_by_time_range = list_events_by_time_range q.db;
}
