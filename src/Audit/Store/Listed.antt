-- ===== src/Audit/Store/Listed.antt =====
-- What a listing returns from a table whose rows were inserted.
use mathlib.Core.List.{map, append-nil, append_assoc}
use mathlib.Core.Path.{subst}
use micro_services.Base.{
  ℕ, suc, ◌≤◌, String, ◌≡◌, refl, sym, ap, ◌∙◌, none, some, pos, List, [], ◌∷◌, ◌++◌, length, All,
  arith,
}
use micro_services.Errors.{Result, ok}
use micro_services.Audit.Store.Rows.{
  Columns, AuditEvent, InsertEventParams, InsertEventRow, ListEventsByTimeRangeParams,
  list_events_query,
}
use micro_services.Audit.Store.QueryTexts.{select_columns}
use micro_services.Audit.Store.{insert_event, Dbtx, scan_event, list_events_by_time_range}
use micro_services.Audit.Store.Listing.{
  IsCursor, all_or_error, answered, list_events-eq-all_or_error,
}
use micro_services.Audit.Store.Table.{Codec, IsTable}
use micro_services.Audit.Store.Stored.{event_of, Holds, scan_event-Holds}
use micro_services.Audit.Store.Events.{insertion}

module _ {V : Type 0} where
  -- The rows as Scan reads them.
  abbrev pub row_values : List (String → V) → List (Result (List V))
  row_values [] = []
  row_values (r ∷ rows) = ok (map r select_columns) ∷ row_values rows

module _ {D : Columns} (B : Dbtx D) (K : IsTable B) (L : IsCursor B) where
  -- SELECT … FROM audit_events WHERE … LIMIT $3: some of the table's rows, no more than the limit,
  -- each with the columns of the text.
  pub record IsSelection : Type 1 where
    pub chosen : (from to limit : D.Value) → List (String → D.Value) → List (String → D.Value)
    pub chosen-All :
        (P : (String → D.Value) → Type 0) (from to limit : D.Value) (rows : List (String → D.Value))
        → All P rows
        → All P (chosen from to limit rows)
    pub length-chosen :
        (from to : D.Value) (n : ℕ) (rows : List (String → D.Value))
        → length (chosen from to (D.bind_integer (pos n)) rows) ≤ n
    pub left-query :
        (from to limit : D.Value) (s : B.State) (c : B.Cursor)
        → (B.query list_events_query (from ∷ to ∷ limit ∷ []) s).0 ≡ ok c
        → L.left c ≡ row_values (chosen from to limit (K.rows s))

  module _ (C : Codec D) where
    -- An event that an insertion left in a row.
    pub record Recorded (r : String → D.Value) : Type 0 where
      pub params : InsertEventParams D
      pub returned : InsertEventRow D
      pub held : Holds C r params returned

    records_grow :
        (rows : List (String → D.Value)) (r : String → D.Value)
        → All Recorded rows
        → Recorded r
        → All Recorded (rows ++ r ∷ [])
    records_grow [] r _ x = (x, tt)
    records_grow (q ∷ rows) r (y, ys) x = (y, records_grow rows r ys x)

    -- A table whose rows were all inserted stays one after a further insertion.
    pub insert_event-Recorded :
        (arg : InsertEventParams D) (s : B.State) (r : InsertEventRow D)
        → All Recorded (K.rows s)
        → (insert_event B arg s).0 ≡ (r, none)
        → All Recorded (K.rows (insert_event B arg s).1)
    insert_event-Recorded arg s r recorded h =
        let (new, grown, _, held) = insertion B C K arg s r h in
        subst (All Recorded) (sym grown) (
          records_grow (K.rows s) new recorded (record { params = arg; returned = r; held = held }))

    abbrev pub event_in : (r : String → D.Value) → Recorded r → AuditEvent D
    event_in r x = event_of C x.params x.returned

    abbrev pub events : (rows : List (String → D.Value)) → All Recorded rows → List (AuditEvent D)
    events [] _ = []
    events (r ∷ rows) (x, xs) = event_in r x ∷ events rows xs

    length-events :
        (rows : List (String → D.Value)) (xs : All Recorded rows)
        → length (events rows xs) ≡ length rows
    length-events [] _ = refl
    length-events (r ∷ rows) (x, xs) = ap suc (length-events rows xs)

    rows_read :
        (rows : List (String → D.Value)) (xs : All Recorded rows) (items : List (AuditEvent D))
        → all_or_error items (map (scan_event B) (row_values rows)) none
          ≡ ok (items ++ events rows xs)
    rows_read [] xs items = ap ok (sym (append-nil items))
    rows_read (r ∷ rows) (x, xs) items =
        ap (λ i. all_or_error items (i ∷ map (scan_event B) (row_values rows)) none)
          (scan_event-Holds B C r x.params x.returned x.held)
        ∙ rows_read rows xs (items ++ event_in r x ∷ [])
        ∙ ap ok (append_assoc items (event_in r x ∷ []) (events rows xs))

    length-row_values : (rows : List (String → D.Value)) → length (row_values rows) ≡ length rows
    length-row_values [] = refl
    length-row_values (r ∷ rows) = ap suc (length-row_values rows)

    module _ (S : IsSelection) (arg : ListEventsByTimeRangeParams D) (s : B.State) (n : ℕ) where
      -- The rows that the query chooses.
      abbrev pub page : List (String → D.Value)
      page =
          S.chosen (D.bind_time arg.occurred_at) (D.bind_time arg.occurred_at_2)
            (D.bind_integer arg.limit) (K.rows s)

      in_limit : arg.limit ≡ pos n → length page ≤ n
      in_limit limit =
          subst
            (λ l.
              length (
                S.chosen (D.bind_time arg.occurred_at) (D.bind_time arg.occurred_at_2)
                  (D.bind_integer l) (K.rows s))
              ≤ n)
            (sym limit) (S.length-chosen _ _ n (K.rows s))

      -- On a table whose rows were all inserted, a listing with the limit n whose query is accepted
      -- and whose cursor ends well returns, with fuel n + 1, the events of the rows that the query
      -- chooses, in their order and every field in its place, and at most n of them.
      pub list_events-eq-events :
          (c : B.Cursor) (recorded : All Recorded (K.rows s))
          → arg.limit ≡ pos n
          → (answered B L arg s).0 ≡ ok c
          → L.fate c ≡ none
          → let es = events page (S.chosen-All Recorded _ _ _ (K.rows s) recorded) in
            (list_events_by_time_range B (suc n) arg s ≡ (some (ok es), (answered B L arg s).1))
            × (length es ≤ n)
      list_events-eq-events c recorded limit accepted well =
          let own = S.chosen-All Recorded _ _ _ (K.rows s) recorded in
          let left = S.left-query _ _ _ s c accepted in
          (
            list_events-eq-all_or_error B L arg s (suc n) c accepted
                  (omega (arith, ap length left, length-row_values page, in_limit limit))
                ∙ ap (λ r. (some r, (answered B L arg s).1))
                    (ap (λ rs. all_or_error [] (map (scan_event B) rs) (L.fate c)) left
                      ∙ ap (all_or_error [] (map (scan_event B) (row_values page))) well
                      ∙ rows_read page own []),
            omega (arith, length-events page own, in_limit limit),
          )
