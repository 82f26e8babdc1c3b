-- ===== src/Audit/Store/Examples/Memory.antt =====
-- The database in memory: its table, and the rows of a listing as a list.
use micro_services.Base.{
  alone, ap, ◌∙◌, String, ◌≡◌, ◌≢◌, refl, Bool, true, false, Bool-cases, pos, Option, none, some,
  List, [], ◌∷◌, ◌++◌, map, All, ◌==◌, string_eq, if◌then◌else◌, arith, inl, inr,
}
use micro_services.Errors.{Error, plain, Result, ok, err}
use micro_services.Audit.Store.Rows.{insert_event_query, get_event_query}
use micro_services.Audit.Store.QueryTexts.{insert_columns, returning_columns, select_columns}
use micro_services.Audit.Store.{Dbtx}
use micro_services.Audit.Store.Listing.{IsCursor}
use micro_services.Audit.Store.Table.{Carries, IsTable}
use micro_services.Audit.Store.Examples.{
  Value, integer, text, value_beq, value_beq_iff, columns, Record, fill, Carries-fill, fill_other,
}

-- The row that the cursor stands on, the rows that are left, and how they end.
pub record Walk : Type 0 where
  pub current : Result (List Value)
  pub ahead : List (Result (List Value))
  pub ending : Option Error

abbrev step : Walk → List (Result (List Value)) → Bool × Walk
step w [] = (false, w)
step w (r ∷ rs) = (true, record w { current = r; ahead = rs })

-- The values that no insertion gives.
abbrev defaults : Record
defaults k =
    if k == "id" then integer (pos 1) else if k == "recorded_at" then text "12:00" else text ""

abbrev has_id : Value → Record → Bool
has_id v r = value_beq (r "event_id") v

abbrev same_id : List Value → Record → Bool
same_id [] r = false
same_id (v ∷ vs) r = has_id v r

abbrev insertion : List Value → Option Record → Result (List Value) × Option Record
insertion args none =
    let new = fill insert_columns args defaults in (ok (map new returning_columns), some new)
insertion args (some r) = (
  if same_id args r then err (plain "sql: no rows in result set") else err (plain "disk full"),
  some r,
)

abbrev selection : List Value → Option Record → Result (List Value) × Option Record
selection (v ∷ []) (some r) = (
  if has_id v r then ok (map r select_columns) else err (plain "sql: no rows in result set"),
  some r,
)
selection vs s = (err (plain "sql: no rows in result set"), s)

abbrev answer : String → List Value → Option Record → Result (List Value) × Option Record
answer q args s =
    if q == insert_event_query
    then insertion args s
    else if q == get_event_query
    then selection args s
    else (err (plain "unknown query"), s)

-- What a listing finds, by its arguments and the table.
abbrev pub Finds : Type 0
Finds = List Value → Option Record → List (Result (List Value))

abbrev pub memory : Finds → Dbtx columns
memory found = record {
  State = Option Record;
  Row = Result (List Value);
  Cursor = Walk;
  scan_errors = record {
    count_error = plain "sql: expected other number";
    convert_error = λ n. plain "sql: Scan error";
  };
  no_rows = plain "sql: no rows in result set";
  query_row = answer;
  row_values = λ r. r;
  query = λ q args s. (ok (record { current = ok []; ahead = found args s; ending = none }), s);
  next = λ w. step w w.ahead;
  values = λ w. w.current;
  close = λ w. (none, w);
  cursor_error = λ w. w.ending;
}

step_nil : (w : Walk) → w.ahead ≡ [] → step w w.ahead ≡ (false, w)
step_nil w h = rw h refl

step_cons :
    (w : Walk) (x : Result (List Value)) (xs : List (Result (List Value)))
    → w.ahead ≡ x ∷ xs
    → step w w.ahead ≡ (true, record w { current = x; ahead = xs })
step_cons w x xs h = rw h refl

pub halts : (w : Walk) → w.ahead ≡ [] → (step w w.ahead).0 ≡ false
halts w h = ground (arith, step_nil w h)

pub ends : (w : Walk) → w.ahead ≡ [] → (step w w.ahead).1.ending ≡ w.ending
ends w h = ground (arith, step_nil w h)

pub moves :
    (w : Walk) (x : Result (List Value)) (xs : List (Result (List Value)))
    → w.ahead ≡ x ∷ xs
    → ((step w w.ahead).0 ≡ true)
      × ((step w w.ahead).1.current ≡ x)
      × ((step w w.ahead).1.ahead ≡ xs)
      × ((step w w.ahead).1.ending ≡ w.ending)
moves w x xs h = ground (arith, step_cons w x xs h)

unfoldable pub memory-IsCursor : (found : Finds) → IsCursor (memory found)
memory-IsCursor found = record {
  left = λ w. w.ahead;
  fate = λ w. w.ending;
  next_nil = halts;
  close_nil = λ w h. (refl, ends w h);
  next_cons = moves;
}

abbrev pub stored : Option Record → List Record
stored none = []
stored (some r) = r ∷ []

pub inserted :
    (args vs : List Value) (s : Option Record)
    → (answer insert_event_query args s).0 ≡ ok vs
    → (new : Record) × (stored (answer insert_event_query args s).1 ≡ stored s ++ new ∷ [])
      × (vs ≡ map new returning_columns)
      × Carries columns.kept insert_columns args new
      × (new "prev_hash" ≡ text "")
      × (new "hash" ≡ text "")
inserted args vs none h = (
  fill insert_columns args defaults,
  refl,
  ground (arith, h),
  Carries-fill insert_columns args defaults refl,
  fill_other "prev_hash" insert_columns args defaults refl,
  fill_other "hash" insert_columns args defaults refl,
)
inserted args vs (some r) h = elim (Bool-cases (same_id args r)) [
  | inl same ↦ ground (arith, h, same)
  | inr other ↦ ground (arith, h, other)
]

-- A table without rows has none.
nobody : (q : Record) (xs ys : List Record) → [] ≡ xs ++ q ∷ ys → ⊥
nobody q [] ys h = ground (arith, h)
nobody q (x ∷ xs) ys h = ground (arith, h)

-- The row of the table that has an id is found under it.
holding :
    (v : Value) (r q : Record) (xs ys : List Record)
    → r ∷ [] ≡ xs ++ q ∷ ys
    → q "event_id" ≡ v
    → (r ≡ q) × (has_id v r ≡ true)
holding v r q xs ys h id =
    let same = alone xs ys h in
    (same, (value_beq_iff (r "event_id") v).1 (ap (λ t. t "event_id") same ∙ id))

pub conflicting :
    (v : Value) (args : List Value) (s : Option Record) (xs ys : List Record) (q : Record)
    → stored s ≡ xs ++ q ∷ ys
    → q "event_id" ≡ v
    → ((e : Error) × ((answer insert_event_query (v ∷ args) s).0 ≡ err e)
        × (true ≡ true → e ≡ plain "sql: no rows in result set"))
      × (stored (answer insert_event_query (v ∷ args) s).1 ≡ stored s)
conflicting v args none xs ys q h id = absurd (nobody q xs ys h)
conflicting v args (some r) xs ys q h id =
    let (same, held) = holding v r q xs ys h id in
    ((plain "sql: no rows in result set", ground (arith, held), λ _. refl), refl)

pub selected :
    (v : Value) (s : Option Record) (xs ys : List Record) (q : Record)
    → stored s ≡ xs ++ q ∷ ys
    → q "event_id" ≡ v
    → ((answer get_event_query (v ∷ []) s).0 ≡ ok (map q select_columns))
      × (stored (answer get_event_query (v ∷ []) s).1 ≡ stored s)
selected v none xs ys q h id = absurd (nobody q xs ys h)
selected v (some r) xs ys q h id =
    let (same, held) = holding v r q xs ys h id in
    (ground (arith, held) ∙ ap (λ t. ok (map t select_columns)) same, refl)

pub missing :
    (v : Value) (s : Option Record)
    → All (λ (r : Record). r "event_id" ≢ v) (stored s)
    → ((answer get_event_query (v ∷ []) s).0 ≡ err (plain "sql: no rows in result set"))
      × (stored (answer get_event_query (v ∷ []) s).1 ≡ stored s)
missing v none h = (refl, refl)
missing v (some r) h = elim (Bool-cases (has_id v r)) [
  | inl same ↦ absurd (h.0 ((value_beq_iff (r "event_id") v).0 same))
  | inr other ↦ (ground (arith, other), refl)
]

unfoldable pub memory-IsTable : (found : Finds) → IsTable (memory found)
memory-IsTable found = record {
  rows = stored;
  admits = λ args. true;
  inserted = inserted;
  conflicting = λ v args s xs ys q h id. conflicting v args s xs ys q h id;
  selected = selected;
  missing = missing;
}
