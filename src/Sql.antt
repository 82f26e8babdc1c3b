-- ===== src/Sql.antt =====
-- database/sql: the Scan of a row into destinations, as its documentation describes it.
pub mod Reading
use micro_services.Base.{ℕ, suc, Option, none, some, List, [], ◌∷◌}
use micro_services.Errors.{Error, Result, ok, err}

-- A destination `&i.Field`: the variable with the value read into the field, if it can be read.
abbrev pub Dest : Type 0 → Type 0 → Type 0
Dest V A = V → A → Option A

-- The errors of Scan: the number of destinations is wrong, or the value at this index is.
pub record ScanErrors : Type 0 where
  pub count_error : Error
  pub convert_error : ℕ → Error

module _ {V A : Type 0} (S : ScanErrors) where
  -- The number of destinations is tested before the first assignment.
  abbrev pub same_count : List (Dest V A) → List V → Option Error
  same_count [] [] = none
  same_count (d ∷ ds) (v ∷ vs) = same_count ds vs
  same_count _ _ = some S.count_error

  -- What was assigned before an error stays assigned.
  abbrev pub assign : ℕ → List (Dest V A) → List V → A → A × Option Error
  assign n (d ∷ ds) (v ∷ vs) i = elim (d v i) [
    | none ↦ (i, some (S.convert_error n))
    | some j ↦ assign (suc n) ds vs j
  ]
  assign n ds vs i = (i, none)

  abbrev pub scan : List (Dest V A) → A → Result (List V) → A × Option Error
  scan ds i (err e) = (i, some e)
  scan ds i (ok vs) = elim (same_count ds vs) [ some e ↦ (i, some e) | none ↦ assign 0 ds vs i ]
