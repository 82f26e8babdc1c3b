-- ===== src/Audit/Store/Listing.antt =====
-- What a listing returns, against the list of rows that the cursor goes through.
use micro_services.Base.{
  map, ℕ, zero, suc, ◌<◌, ◌≡◌, refl, true, false, Option, none, some, Option-cases, inl, inr, List,
  [], ◌∷◌, ◌++◌, length, arith,
}
use micro_services.Errors.{Error, Result, ok, err}
use micro_services.Audit.Store.Rows.{
  Columns, AuditEvent, ListEventsByTimeRangeParams, list_events_query,
}
use micro_services.Audit.Store.{Dbtx, scan_event, collect, list_events_by_time_range}

-- sql.Rows: Next moves to the next of the rows that are left, whose values Scan reads; once none is left,
-- Close reports no error and Err the error that ended the rows, if any.
pub record IsCursor {D : Columns} (B : Dbtx D) : Type 0 where
  pub left : B.Cursor → List (Result (List D.Value))
  pub fate : B.Cursor → Option Error
  pub next_nil : (c : B.Cursor) → left c ≡ [] → (B.next c).0 ≡ false
  pub close_nil :
      (c : B.Cursor)
      → left c ≡ []
      → ((B.close (B.next c).1).0 ≡ none) × (B.cursor_error (B.close (B.next c).1).1 ≡ fate c)
  pub next_cons :
      (c : B.Cursor) (x : Result (List D.Value)) (xs : List (Result (List D.Value)))
      → left c ≡ x ∷ xs
      → ((B.next c).0 ≡ true)
        × (B.values (B.next c).1 ≡ x)
        × (left (B.next c).1 ≡ xs)
        × (fate (B.next c).1 ≡ fate c)

module _ {D : Columns} where
  -- All events in order after the given ones, or the first error of a scan, or else the error that
  -- ended the rows.
  abbrev pub all_or_error :
      List (AuditEvent D)
      → List (AuditEvent D × Option Error)
      → Option Error
      → Result (List (AuditEvent D))
  all_or_error items [] none = ok items
  all_or_error items [] (some e) = err e
  all_or_error items ((i, some e) ∷ xs) f = err e
  all_or_error items ((i, none) ∷ xs) f = all_or_error (items ++ i ∷ []) xs f

module _ {D : Columns} (B : Dbtx D) (L : IsCursor B) where
  collect_lem :
      (n : ℕ) (c : B.Cursor) (rows : List (Result (List D.Value))) (items : List (AuditEvent D))
      → L.left c ≡ rows
      → length rows < n
      → (c' : B.Cursor) × (collect B n c items
          ≡ some (all_or_error items (map (scan_event B) rows) (L.fate c), c'))
  unfolding collect
  collect_lem zero c rows items h lt = absurd (omega (arith, lt))
  collect_lem (suc n) c [] items h lt =
      let (closed, cause) = L.close_nil c h in
      (
        (B.close (B.next c).1).1,
        elim (Option-cases (L.fate c)) [
          | inl well ↦ ground (arith, L.next_nil c h, closed, cause, well)
          | inr (e, broken) ↦ ground (arith, L.next_nil c h, closed, cause, broken)
        ],
      )
  collect_lem (suc n) c (x ∷ xs) items h lt =
      let (more, row, later, same) = L.next_cons c x xs h in
      elim (Option-cases (scan_event B x).1) [
        | inr (e, bad) ↦ ((B.next c).1, ground (arith, more, row, bad))
        | inl good ↦
            let (c', rest) =
              collect_lem n (B.next c).1 xs (items ++ (scan_event B x).0 ∷ []) later
                (omega (arith, lt)) in
            (c', ground (arith, more, row, good, rest, same))
      ]

  module _ (arg : ListEventsByTimeRangeParams D) (s : B.State) where
    -- The answer of the database to the listing.
    abbrev pub answered : Result B.Cursor × B.State
    answered =
        B.query list_events_query
          (D.bind_time arg.occurred_at
            ∷ D.bind_time arg.occurred_at_2
            ∷ D.bind_integer arg.limit
            ∷ [])
          s

    -- With more fuel than there are rows, a listing whose query is accepted returns every row in the
    -- cursor's order if all of them are scanned and the cursor ends well, and otherwise the first
    -- error of a scan or the cursor's own: never a part of the rows.
    pub list_events-eq-all_or_error :
        (fuel : ℕ) (c : B.Cursor)
        → answered.0 ≡ ok c
        → length (L.left c) < fuel
        → list_events_by_time_range B fuel arg s
          ≡ (some (all_or_error [] (map (scan_event B) (L.left c)) (L.fate c)), answered.1)
    unfolding list_events_by_time_range
    list_events-eq-all_or_error fuel c accepted lt =
        let (c', done) = collect_lem fuel c (L.left c) [] refl lt in ground (arith, accepted, done)
