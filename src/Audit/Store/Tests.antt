-- ===== src/Audit/Store/Tests.antt =====
-- An insertion, a lookup and a listing at concrete data.
use micro_services.Base.{
  ℕ, Option, zero, suc, length, ◌≤◌, All, negsuc, ◌≡◌, refl, pos, none, some, List, [], ◌∷◌, map,
  ◌||◌, ◌==◌, string_eq, if◌then◌else◌, arith,
}
use micro_services.Errors.{plain, ok, err}
use micro_services.Audit.Store.Rows.{
  AuditEvent, InsertEventParams, InsertEventRow, ListEventsByTimeRangeParams, list_events_query,
}
use micro_services.Audit.Store.QueryTexts.{select_columns}
use micro_services.Audit.Store.{
  new, with_tx, as_querier, insert_event, get_event_by_event_id, list_events_by_time_range,
}
use micro_services.Audit.Store.Listing.{answered, list_events-eq-all_or_error}
use micro_services.Audit.Store.Listed.{
  IsSelection, row_values, Recorded, insert_event-Recorded, events, page, list_events-eq-events,
}
use micro_services.Audit.Store.Stored.{event_of}
use micro_services.Audit.Store.Events.{insert-get, insert_again}
use micro_services.Audit.Store.Examples.{Value, integer, text, columns, codec, Record}
use micro_services.Audit.Store.Examples.Memory.{
  Finds, Walk, stored, memory, memory-IsCursor, memory-IsTable,
}

abbrev nothing : Finds
nothing args s = []

-- A login that the auth service denied.
abbrev denied : InsertEventParams columns
denied = record {
  event_id = "e1";
  occurred_at = "11:59";
  schema_version = pos 1;
  actor_type = "user";
  actor_id = "u7";
  actor_ip = "10.0.0.7";
  actor_user_agent = "curl";
  action = "login";
  resource_type = "token";
  resource_id = "t3";
  service = "auth";
  environment = "dev";
  region = "eu";
  host = "h1";
  reason = "password";
  request_id = "r5";
  trace_id = "a1";
  span_id = "b2";
  method = "POST";
  outcome = "denied";
  severity = "warn";
  source = "api";
  details = "{}";
}

abbrev first_row : InsertEventRow columns
first_row = record { id = pos 1; event_id = "e1"; recorded_at = "12:00" }

insert-get_example :
    (get_event_by_event_id (memory nothing) "e1" (insert_event (memory nothing) denied none).1).0
    ≡ (event_of codec denied first_row, none)
unfolding insert_event
insert-get_example =
    insert-get (memory nothing) codec (memory-IsTable nothing) denied none first_row refl

-- The same event, as another service would report it.
abbrev repeated : InsertEventParams columns
repeated = record denied { outcome = "success" }

insert_again_example :
    let s' = (insert_event (memory nothing) denied none).1 in
    ((insert_event (memory nothing) repeated s').0.1 ≡ some (plain "sql: no rows in result set"))
    × ((get_event_by_event_id (memory nothing) "e1" (insert_event (memory nothing) repeated s').1).0
        ≡ (event_of codec denied first_row, none))
unfolding insert_event memory-IsTable
insert_again_example =
    insert_again (memory nothing) codec (memory-IsTable nothing) denied repeated none first_row refl
      refl refl

abbrev day : ListEventsByTimeRangeParams columns
day = record { occurred_at = "00:00"; occurred_at_2 = "24:00"; limit = pos 10 }

abbrev sample : Record
sample k = if k == "id" || k == "schema_version" then integer (pos 1) else text k

-- A row that is read, and one without columns.
abbrev found : Finds
found args s = ok (map sample select_columns) ∷ ok [] ∷ []

list_events-eq-all_or_error_example :
    list_events_by_time_range (memory found) 4 day none
    ≡ (some (err (plain "sql: expected other number")), none)
unfolding memory-IsCursor
list_events-eq-all_or_error_example =
    list_events-eq-all_or_error (memory found) (memory-IsCursor found) day none 4
      (record { current = ok []; ahead = found [] none; ending = none }) refl (omega arith)

abbrev take : ℕ → List Record → List Record
take zero rs = []
take (suc n) [] = []
take (suc n) (r ∷ rs) = r ∷ take n rs

length-take : (n : ℕ) (rs : List Record) → length (take n rs) ≤ n
length-take zero rs = omega arith
length-take (suc n) [] = omega arith
length-take (suc n) (r ∷ rs) = omega (arith, length-take n rs)

All-take : (P : Record → Type 0) (n : ℕ) (rs : List Record) → All P rs → All P (take n rs)
All-take P zero rs h = tt
All-take P (suc n) [] h = tt
All-take P (suc n) (r ∷ rs) (p, h) = (p, All-take P n rs h)

abbrev limited : Value → List Record → List Record
limited (integer (pos n)) rs = take n rs
limited (integer (negsuc n)) rs = []
limited (text s) rs = []

All-limited : (P : Record → Type 0) (v : Value) (rs : List Record) → All P rs → All P (limited v rs)
All-limited P (integer (pos n)) rs h = All-take P n rs h
All-limited P (integer (negsuc n)) rs h = tt
All-limited P (text s) rs h = tt

-- The rows of the table up to the limit.
abbrev listed : Finds
listed (from ∷ to ∷ limit ∷ []) s = row_values (limited limit (stored s))
listed args s = []

left_listed :
    (from to limit : Value) (s : Option Record) (c : Walk)
    → ((memory listed).query list_events_query (from ∷ to ∷ limit ∷ []) s).0 ≡ ok c
    → c.ahead ≡ row_values (limited limit (stored s))
left_listed from to limit s c h = ground (arith, h)

listed-IsSelection : IsSelection (memory listed) (memory-IsTable listed) (memory-IsCursor listed)
unfolding memory-IsTable memory-IsCursor
listed-IsSelection = record {
  chosen = λ from to limit rs. limited limit rs;
  chosen-All = λ P from to limit rs h. All-limited P limit rs h;
  length-chosen = λ from to n rs. length-take n rs;
  left-query = left_listed;
}

-- The table after one insertion, and its event.
abbrev filled : Option Record
filled = (insert_event (memory listed) denied none).1

one_inserted :
    All
      (Recorded (memory listed) (memory-IsTable listed) (memory-IsCursor listed) codec)
      ((memory-IsTable listed).rows filled)
unfolding insert_event memory-IsTable
one_inserted =
    insert_event-Recorded (memory listed) (memory-IsTable listed) (memory-IsCursor listed) codec
      denied none first_row tt refl

abbrev only : List (AuditEvent columns)
only =
    events (memory listed) (memory-IsTable listed) (memory-IsCursor listed) codec
      (page (memory listed) (memory-IsTable listed) (memory-IsCursor listed) codec
        listed-IsSelection day filled 10)
      (listed-IsSelection.chosen-All
        (Recorded (memory listed) (memory-IsTable listed) (memory-IsCursor listed) codec) _ _ _
        ((memory-IsTable listed).rows filled) one_inserted)

list_events-eq-events_example :
    (list_events_by_time_range (memory listed) 11 day filled
      ≡ (some (ok only), (answered (memory listed) (memory-IsCursor listed) day filled).1))
    × (length only ≤ 10)
unfolding memory-IsTable memory-IsCursor
list_events-eq-events_example =
    list_events-eq-events (memory listed) (memory-IsTable listed) (memory-IsCursor listed) codec
      listed-IsSelection day filled 10
      (record {
        current = ok [];
        ahead = listed (text "00:00" ∷ text "24:00" ∷ integer (pos 10) ∷ []) filled;
        ending = none;
      })
      one_inserted refl refl refl

-- The queries of WithTx run on the transaction.
in_transaction :
    (as_querier (with_tx (new (memory nothing)) (memory listed))).insert_event
    ≡ insert_event (memory listed)
in_transaction = refl
