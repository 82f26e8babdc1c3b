-- ===== src/Audit/Store/Examples.antt =====
-- A table in memory that keeps the laws; it has room for one event.
pub mod Memory
use micro_services.Base.{
  ℕ, String, ◌≡◌, refl, ap, sym, ◌∙◌, Bool, true, false, Bool-cases, ℤ, pos, Option, none, some,
  List, [], ◌∷◌, ◌++◌, map, All, ◌==◌, ==_iff, Eq, string_eq, int_eq, not, ◌&&◌, if◌then◌else◌,
  arith, inl, inr, ◌↔◌, ◌≢◌,
}
use micro_services.Errors.{Error, plain, Result, ok, err, Result-cases}
use micro_services.Audit.Store.Rows.{Columns, insert_event_query, get_event_query}
use micro_services.Audit.Store.QueryTexts.{insert_columns, returning_columns, select_columns}
use micro_services.Audit.Store.{Dbtx}
use micro_services.Audit.Store.Listing.{IsCursor}
use micro_services.Audit.Store.Table.{Codec, Carries, IsTable}

pub data Value : Type 0 where
  integer : ℤ → Value
  text : String → Value

abbrev value_beq : Value → Value → Bool
value_beq (integer a) (integer b) = a == b
value_beq (text a) (text b) = a == b
value_beq (integer a) (text b) = false
value_beq (text a) (integer b) = false

value_beq_iff : (a b : Value) → (value_beq a b ≡ true) ↔ (a ≡ b)
value_beq_iff (integer a) (integer b) = ground (arith, ==_iff a b)
value_beq_iff (text a) (text b) = ground (arith, ==_iff a b)
value_beq_iff (integer a) (text b) = ground arith
value_beq_iff (text a) (integer b) = ground arith

abbrev read_integer : Value → Option ℤ
read_integer (integer x) = some x
read_integer (text x) = none

abbrev read_text : Value → Option String
read_text (text x) = some x
read_text (integer x) = none

abbrev pub columns : Columns
columns = record {
  Uuid = String;
  Time = String;
  Inet = String;
  NullString = String;
  NullRawMessage = String;
  zero_uuid = "";
  zero_time = "";
  zero_inet = "";
  zero_null_text = "";
  zero_json = "";
  Value = Value;
  bind_integer = integer;
  bind_uuid = text;
  bind_time = text;
  bind_text = text;
  bind_inet = text;
  bind_null_text = text;
  bind_json = text;
  kept = λ c v. v;
  read_integer = read_integer;
  read_uuid = read_text;
  read_time = read_text;
  read_text = read_text;
  read_inet = read_text;
  read_null_text = read_text;
  read_json = read_text;
}

abbrev pub codec : Codec columns
codec = record {
  stored_text = λ c x. x;
  stored_null_text = λ c x. x;
  stored_time = λ x. x;
  stored_inet = λ x. x;
  stored_json = λ x. x;
  kept-bind_uuid = λ c x. refl;
  read_integer-kept = λ c x. refl;
  read-bind_uuid = λ x. refl;
  read_time-kept = λ c x. refl;
  read_text-kept = λ c x. refl;
  read_inet-kept = λ c x. refl;
  read_null_text-kept = λ c x. refl;
  read_json-kept = λ c x. refl;
  read_null = refl;
}

abbrev pub Record : Type 0
Record = String → Value

abbrev update : String → Value → Record → Record
update c v r = λ k. if k == c then v else r k

abbrev fill : List String → List Value → Record → Record
fill (c ∷ cs) (v ∷ vs) r = update c v (fill cs vs r)
fill [] vs r = r
fill (c ∷ cs) [] r = r

abbrev fresh : String → List String → Bool
fresh k [] = true
fresh k (c ∷ cs) = not (c == k) && fresh k cs

abbrev distinct : List String → Bool
distinct [] = true
distinct (c ∷ cs) = fresh c cs && distinct cs

Carries-update :
    (k : String) (v : Value) (cs : List String) (vs : List Value) (r : Record)
    → fresh k cs ≡ true
    → Carries columns.kept cs vs r
    → Carries columns.kept cs vs (update k v r)
Carries-update k v [] vs r h c = tt
Carries-update k v (x ∷ cs) [] r h c = tt
Carries-update k v (x ∷ cs) (w ∷ vs) r h (p, c) =
    (ground (arith, h, p), Carries-update k v cs vs r (ground (arith, h)) c)

Carries-fill :
    (cs : List String) (vs : List Value) (r : Record)
    → distinct cs ≡ true
    → Carries columns.kept cs vs (fill cs vs r)
Carries-fill [] vs r h = tt
Carries-fill (c ∷ cs) [] r h = tt
Carries-fill (c ∷ cs) (v ∷ vs) r h = (
  ground (arith, ==_iff c c),
  Carries-update c v cs vs (fill cs vs r) (ground (arith, h))
      (Carries-fill cs vs r (ground (arith, h))),
)

fill_other :
    (k : String) (cs : List String) (vs : List Value) (r : Record)
    → fresh k cs ≡ true
    → fill cs vs r k ≡ r k
fill_other k [] vs r h = refl
fill_other k (c ∷ cs) [] r h = refl
fill_other k (c ∷ cs) (v ∷ vs) r h =
    ground (arith, h, ==_iff k c, ==_iff c k, fill_other k cs vs r (ground (arith, h)))
