-- ===== src/Publish/Transaction.antt =====
-- tmsdb/gorm_tm.go: WithTransaction, and how writeEvent inserts the row of an event.
pub mod Atomic
use backend_pkg.Common.{ℕ, ◌≡◌, Bool, true, false, List, Bytes, if◌then◌else◌, Option, none, some}
use backend_pkg.Events.Participants.{Uuid}
use backend_pkg.Publish.{EventBuilder, OutboxRow, Encoder, Caller, event_row}
use backend_pkg.Publish.Changes.{StructField}
use backend_pkg.Publish.Sql.{Sql, savepoint, rollback_to, release, create}

pub data PublishError : Type 0 where
  not_json insert_failed savepoint_failed rollback_failed : PublishError

module _ (V : Type 0) (sql : Sql (OutboxRow V)) where
  open sql use {Conn, is_open, run, transaction}

  -- The function runs with a context that holds the transaction.
  unfoldable pub with_transaction : Bool → (Bool → Conn → Conn × Bool) → Conn → Conn × Bool
  with_transaction true fn c = fn true c
  with_transaction false fn c = transaction (fn true) c

  -- The insert failed: the event is given up, unless the transaction cannot go on.
  undo_insert : Conn → Conn × Option PublishError
  undo_insert c =
      let (c', ok) = run rollback_to c in
      if ok then ((run release c').0, none) else (c', some rollback_failed)

  guarded_insert : OutboxRow V → Conn → Conn × Option PublishError
  unfolding undo_insert
  guarded_insert row c =
      let (c', ok) = run (create row) c in if ok then ((run release c').0, none) else undo_insert c'

  unfoldable pub insert_row : OutboxRow V → Conn → Conn × Option PublishError
  unfolding guarded_insert
  insert_row row c =
      let (c', ok) = run (create row) c in
      let (marked, can_mark) = run savepoint c in
      if is_open c
      then (if can_mark then guarded_insert row marked else (marked, some savepoint_failed))
      else (c', if ok then none else some insert_failed)

  insert_event : Option (OutboxRow V) → Conn → Conn × Option PublishError
  unfolding insert_row
  insert_event none c = (c, some not_json)
  insert_event (some row) c = insert_row row c

  module _ (deep_equal : V → V → Bool) (fields_of : Bytes → List StructField) (enc : Encoder V)
      (source_service : Bytes) where
    unfoldable pub write_event :
        Caller → Uuid → ℕ → EventBuilder V → Conn → Conn × Option PublishError
    unfolding insert_event
    write_event caller event_id now b =
        insert_event (event_row V deep_equal fields_of source_service enc caller event_id now b)
