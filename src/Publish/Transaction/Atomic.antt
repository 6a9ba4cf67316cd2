-- ===== src/Publish/Transaction/Atomic.antt =====
-- What an event's insert does to the transaction of its caller, in tmsdb/gorm_tm.go.
use backend_pkg.Common.{
  ℕ, ◌≡◌, ◌≢◌, refl, ap, ◌∙◌, ◌⊎◌, inl, inr, Bool, true, false, List, Bytes, if◌then◌else◌, Option,
  none, some, Bool-cases,
}
use backend_pkg.Events.Participants.{Uuid}
use backend_pkg.Publish.{EventBuilder, OutboxRow, Encoder, Caller, event_row}
use backend_pkg.Publish.Changes.{StructField}
use backend_pkg.Publish.Sql.{Sql, savepoint, rollback_to, create}
use backend_pkg.Publish.Transaction.{
  PublishError, savepoint_failed, rollback_failed, with_transaction, undo_insert, guarded_insert,
  insert_row, insert_event, write_event,
}

module _ (V : Type 0) (sql : Sql (OutboxRow V)) where
  open sql use {
    Conn, Rows, insert, seen, stored, kept, is_open, run, started, transaction, seen-savepoint,
    kept-savepoint, seen-create, kept-create, seen-rollback_to, seen-release, is_open-started,
    seen-started, transaction_committed, transaction_undone,
  }

  undo_insert-seen :
      (c : Conn) (rows : Rows)
      → kept c ≡ some rows
      → (undo_insert V sql c).1 ≡ none
      → seen (undo_insert V sql c).0 ≡ rows
  unfolding undo_insert
  undo_insert-seen c rows k h = elim (Bool-cases (run rollback_to c).1) [
    | inl ok ↦ rw ok (seen-release (run rollback_to c).0 ∙ seen-rollback_to c rows k ok)
    | inr failed ↦ let bad : some rollback_failed ≡ none = rw failed at h in cc
  ]

  -- The rows after an insert that was tried under a savepoint.
  abbrev after_insert : OutboxRow V → Conn → Rows
  after_insert row c =
      if (run (create row) (run savepoint c).0).1 then insert row (seen c) else seen c

  guarded_insert-seen :
      (row : OutboxRow V) (c : Conn)
      → (run savepoint c).1 ≡ true
      → (guarded_insert V sql row (run savepoint c).0).1 ≡ none
      → seen (guarded_insert V sql row (run savepoint c).0).0 ≡ after_insert row c
  unfolding guarded_insert
  guarded_insert-seen row c mark h =
      let marked = (run savepoint c).0 in
      elim (Bool-cases (run (create row) marked).1) [
        | inl ok ↦ rw ok (
            seen-release (run (create row) marked).0
            ∙ seen-create row marked ok
            ∙ ap (insert row) (seen-savepoint c mark))
        | inr failed ↦ rw failed (
            undo_insert-seen (run (create row) marked).0 (seen c)
              (kept-create row marked ∙ kept-savepoint c mark) (rw failed at h))
      ]

  insert_row-seen :
      (row : OutboxRow V) (c : Conn)
      → is_open c ≡ true
      → (insert_row V sql row c).1 ≡ none
      → seen (insert_row V sql row c).0 ≡ after_insert row c
  unfolding insert_row
  insert_row-seen row c opened h = elim (Bool-cases (run savepoint c).1) [
    | inl mark ↦ rw (opened, mark) (guarded_insert-seen row c mark (rw (opened, mark) at h))
    | inr failed ↦ let bad : some savepoint_failed ≡ none = rw (opened, failed) at h in cc
  ]

  insert_event-seen :
      (o : Option (OutboxRow V)) (c : Conn)
      → is_open c ≡ true
      → (insert_event V sql o c).1 ≡ none
      → (row : OutboxRow V) × (o ≡ some row)
        × (seen (insert_event V sql o c).0 ≡ after_insert row c)
  unfolding insert_event
  insert_event-seen none c opened h = cc
  insert_event-seen (some row) c opened h = (row, refl, insert_row-seen row c opened h)

  module _ (deep_equal : V → V → Bool) (fields_of : Bytes → List StructField) (enc : Encoder V)
      (source_service : Bytes) (caller : Caller) (event_id : Uuid) (now : ℕ)
      (b : EventBuilder V) where
    abbrev row_option : Option (OutboxRow V)
    row_option = event_row V deep_equal fields_of source_service enc caller event_id now b

    abbrev emit : Conn → Conn × Option PublishError
    emit = write_event V sql deep_equal fields_of enc source_service caller event_id now b

    -- Within a transaction, an event that is written without an error leaves the rows that were seen and
    -- its own row, or, if its insert failed, the rows that were seen.
    pub write_event-seen :
        (c : Conn)
        → is_open c ≡ true
        → (emit c).1 ≡ none
        → (row : OutboxRow V) × (row_option ≡ some row)
          × (seen (emit c).0
              ≡ (if (run (create row) (run savepoint c).0).1 then insert row (seen c) else seen c))
    unfolding write_event
    write_event-seen = insert_event-seen row_option

    abbrev no_error : Option PublishError → Bool
    no_error none = true
    no_error (some e) = false

    -- A handler in a transaction of its own: it does its work, then emits the event.
    abbrev pub work_and_emit : (Conn → Conn × Bool) → Bool → Conn → Conn × Bool
    work_and_emit work active c =
        let (c', e) = emit (work c).0 in if (work c).1 then (c', no_error e) else work c

    work_and_emit_state :
        (work : Conn → Conn × Bool) (c : Conn)
        → (work c).1 ≡ true
        → (work_and_emit work true c).0 ≡ (emit (work c).0).0
    work_and_emit_state work c ok = rw ok refl

    no_error→none : (e : Option PublishError) → no_error e ≡ true → e ≡ none
    no_error→none none h = refl
    no_error→none (some e) h = cc

    noisy→no_error : (e : Option PublishError) → e ≢ none → no_error e ≡ false
    noisy→no_error none h = absurd (h refl)
    noisy→no_error (some e) h = refl

    work_and_emit-true :
        (work : Conn → Conn × Bool) (c : Conn)
        → (work_and_emit work true c).1 ≡ true
        → ((work c).1 ≡ true) × ((emit (work c).0).1 ≡ none)
    work_and_emit-true work c h = elim (Bool-cases (work c).1) [
      | inl ok ↦ (ok, no_error→none (emit (work c).0).1 (rw ok at h))
      | inr failed ↦ let bad : false ≡ true = rw failed at h in cc
    ]

    work_and_emit-false :
        (work : Conn → Conn × Bool) (c : Conn)
        → ((work c).1 ≡ false) ⊎ ((emit (work c).0).1 ≢ none)
        → (work_and_emit work true c).1 ≡ false
    work_and_emit-false work c (inl failed) = rw failed refl
    work_and_emit-false work c (inr noisy) = elim (Bool-cases (work c).1) [
      | inl ok ↦ rw ok (noisy→no_error (emit (work c).0).1 noisy)
      | inr failed ↦ rw failed refl
    ]

    -- A handler that works and then emits an event in one transaction: if the transaction reports no
    -- error, the work is stored, with the row of the event or, exactly if the insert failed under its
    -- savepoint, without it; if the work or the event reports an error, nothing is stored. The work must
    -- leave the transaction open.
    pub with_transaction-emit :
        (work : Conn → Conn × Bool) (c : Conn)
        → is_open (work (started c)).0 ≡ true
        → let done = with_transaction V sql false (work_and_emit work) c in
          let worked = (work (started c)).0 in
          (done.1 ≡ true
            → ((work (started c)).1 ≡ true)
              × (row : OutboxRow V) × (row_option ≡ some row)
              × (stored done.0 ≡ (
                  if (run (create row) (run savepoint worked).0).1
                  then insert row (seen worked)
                  else seen worked)))
          × (((work (started c)).1 ≡ false) ⊎ ((emit worked).1 ≢ none)
              → (done.1 ≡ false) × (stored done.0 ≡ stored c))
    unfolding with_transaction
    with_transaction-emit work c opened = (
      λ done.
          let (ended, same) = transaction_committed (work_and_emit work true) c done in
          let (worked, quiet) = work_and_emit-true work (started c) ended in
          let (row, e, rows) = write_event-seen (work (started c)).0 opened quiet in
          (worked, row, e, same ∙ ap seen (work_and_emit_state work (started c) worked) ∙ rows),
      λ bad.
          transaction_undone (work_and_emit work true) c (work_and_emit-false work (started c) bad),
    )
