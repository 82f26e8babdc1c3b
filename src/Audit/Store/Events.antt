-- ===== src/Audit/Store/Events.antt =====
-- An event that was inserted is the event that is found: the first insertion with an id wins.
use micro_services.Base.{
  String, ◌≡◌, sym, ◌∙◌, ap, none, some, inl, inr, true, List, [], ◌∷◌, ◌++◌, arith,
}
use micro_services.Errors.{ok, Result-cases}
use micro_services.Audit.Store.Rows.{
  Columns, InsertEventParams, InsertEventRow, insert_args, insert_event_query,
}
use micro_services.Audit.Store.{
  Dbtx, scan_event, scan_inserted, get_event_by_event_id, insert_event,
}
use micro_services.Audit.Store.Table.{Codec, IsTable}
use micro_services.Audit.Store.Stored.{
  event_of, Holds, scan_event-Holds, returned_read, carried-Holds,
}

module _ {D : Columns} (B : Dbtx D) (C : Codec D) (K : IsTable B) where
  -- The table after a successful insertion ends with a row that holds the event.
  pub insertion :
      (arg : InsertEventParams D) (s : B.State) (r : InsertEventRow D)
      → (insert_event B arg s).0 ≡ (r, none)
      → (new : String → D.Value) × (K.rows (insert_event B arg s).1 ≡ K.rows s ++ new ∷ [])
        × (new "event_id" ≡ D.bind_uuid arg.event_id)
        × Holds C new arg r
  unfolding insert_event
  insertion arg s r h =
      elim (Result-cases (B.row_values (B.query_row insert_event_query (insert_args arg) s).0)) [
        | inr (e, lost) ↦ ground (arith, lost)
        | inl (vs, there) ↦
            let (new, grown, returned, carried, p, q) = K.inserted (insert_args arg) vs s there in
            (
              new,
              grown,
              carried.0 ∙ C.kept-bind_uuid _ _,
              carried-Holds B C new arg r carried p q (
                  returned_read B C new r
                    (ap (scan_inserted B) (sym (there ∙ ap ok returned)) ∙ h)),
            )
      ]

  found :
      (arg : InsertEventParams D) (s : B.State) (r : InsertEventRow D)
      (xs : List (String → D.Value)) (new : String → D.Value)
      → K.rows s ≡ xs ++ new ∷ []
      → new "event_id" ≡ D.bind_uuid arg.event_id
      → Holds C new arg r
      → (get_event_by_event_id B arg.event_id s).0 ≡ (event_of C arg r, none)
  unfolding get_event_by_event_id
  found arg s r xs new rows id held =
      ap (scan_event B) (K.selected _ s xs [] new rows id).0 ∙ scan_event-Holds B C new arg r held

  -- On a table that answers, an event that was inserted is found under its id, with every field that
  -- was given in its own place, as the column of that place keeps it (a VARCHAR may cut spaces at the
  -- end of a text), with the id and the time of recording that the insertion returned, and with no
  -- hashes.
  pub insert-get :
      (arg : InsertEventParams D) (s : B.State) (r : InsertEventRow D)
      → (insert_event B arg s).0 ≡ (r, none)
      → (get_event_by_event_id B arg.event_id (insert_event B arg s).1).0 ≡ (event_of C arg r, none)
  insert-get arg s r h =
      let (new, grown, id, held) = insertion arg s r h in found arg _ r (K.rows s) new grown id held

  -- The first insertion with an id wins: a second one with the same id, whatever else it gives,
  -- returns sql.ErrNoRows if its values are admitted, and leaves the event that is found under the id
  -- as the columns have kept what the first one gave.
  pub insert_again :
      (arg arg' : InsertEventParams D) (s : B.State) (r : InsertEventRow D)
      → (insert_event B arg s).0 ≡ (r, none)
      → arg'.event_id ≡ arg.event_id
      → K.admits (insert_args arg') ≡ true
      → let s' = (insert_event B arg s).1 in
        ((insert_event B arg' s').0.1 ≡ some B.no_rows)
        × ((get_event_by_event_id B arg.event_id (insert_event B arg' s').1).0
            ≡ (event_of C arg r, none))
  unfolding insert_event
  insert_again arg arg' s r h same ok' =
      let (new, grown, id, held) = insertion arg s r h in
      let ((e, refused, cause), kept) =
        K.conflicting (D.bind_uuid arg'.event_id) _ (insert_event B arg s).1 (K.rows s) [] new grown
          (id ∙ ap D.bind_uuid (sym same)) in
      (
        ap (λ vs. (scan_inserted B vs).1) refused ∙ ap some (cause ok'),
        found arg _ r (K.rows s) new (kept ∙ grown) id held,
      )
