-- ===== src/Events/Outbox/Outcome.antt =====
-- How a batch of eventlog/outbox/relay.go ends, without an error and with one.
use mathlib.Core.List.{map, append-nil}
use backend_pkg.Common.{ℕ, ◌≡◌, refl, List, [], ◌∷◌, ◌++◌, Bytes, ◌∙◌, Option, none, some}
use backend_pkg.Events.Participants.{Uuid}
use backend_pkg.Events.Outbox.{
  OutboxEvent, Message, State, Fetched, fetched, fetch_failed, Written, delivered, write_failed,
  World, delete_batch, message_of, commit_all, deleted, written, processed, process_batch,
}
use backend_pkg.Events.Outbox.Delivery.{rows}

delete_none : (table : List OutboxEvent) → delete_batch [] table ≡ table
unfolding delete_batch
delete_none [] = refl
delete_none (e ∷ es) = rw (delete_none es) refl

module _ (show : Uuid → Bytes) where
  commit_ok :
      (before after : State) (o : Option Bytes)
      → (commit_all show before after o).1 ≡ none
      → (commit_all show before after o).0 ≡ after
  unfolding commit_all
  commit_ok before after none h = refl
  commit_ok before after (some err) h = cc

  commit_error :
      (before after : State) (o : Option Bytes) (err : Bytes)
      → (commit_all show before after o).1 ≡ some err
      → (commit_all show before after o).0.table ≡ before.table
  unfolding commit_all
  commit_error before after none err h = cc
  commit_error before after (some e) err h = refl

  -- The state after a batch that was sent and removed.
  abbrev pub sent_and_removed : State → List OutboxEvent → State
  sent_and_removed st batch = record {
    table = delete_batch batch st.table;
    log = st.log ++ map (message_of show) batch;
  }

  deleted_ok :
      (w : World) (st : State) (batch : List OutboxEvent) (o : Option Bytes)
      → (deleted show w st batch (st.log ++ map (message_of show) batch) o).1 ≡ none
      → (deleted show w st batch (st.log ++ map (message_of show) batch) o).0
        ≡ sent_and_removed st batch
  unfolding deleted
  deleted_ok w st batch none h = commit_ok st _ w.commit h
  deleted_ok w st batch (some err) h = cc

  deleted_error :
      (w : World) (st : State) (batch : List OutboxEvent) (log : List Message) (o : Option Bytes)
      (err : Bytes)
      → (deleted show w st batch log o).1 ≡ some err
      → (deleted show w st batch log o).0.table ≡ st.table
  unfolding deleted
  deleted_error w st batch log none err h = commit_error st _ w.commit err h
  deleted_error w st batch log (some e) err h = refl

  written_ok :
      (w : World) (st : State) (batch : List OutboxEvent) (r : Written)
      → (written show w st batch r).1 ≡ none
      → (written show w st batch r).0 ≡ sent_and_removed st batch
  unfolding written
  written_ok w st batch delivered h = deleted_ok w st batch w.delete h
  written_ok w st batch (write_failed err ms) h = cc

  written_error :
      (w : World) (st : State) (batch : List OutboxEvent) (r : Written) (err : Bytes)
      → (written show w st batch r).1 ≡ some err
      → (written show w st batch r).0.table ≡ st.table
  unfolding written
  written_error w st batch delivered err h = deleted_error w st batch _ w.delete err h
  written_error w st batch (write_failed e ms) err h = refl

  processed_lem :
      (w : World) (st : State) (f : Fetched)
      → (processed show w st f).1 ≡ none
      → (processed show w st f).0 ≡ sent_and_removed st (rows f)
  unfolding processed
  processed_lem w st (fetch_failed err) h = cc
  processed_lem w st (fetched []) h =
      commit_ok st st w.commit h ∙ rw (delete_none st.table, append-nil st.log) refl
  processed_lem w st (fetched (b ∷ bs)) h = written_ok w st (b ∷ bs) w.write h

  -- A batch that reports no error has sent the fetched events in their order, each once, and removed
  -- exactly those from the outbox.
  process_batch_success :
      (w : World) (st : State) (limit : ℕ)
      → (process_batch show w st limit).1 ≡ none
      → (process_batch show w st limit).0 ≡ sent_and_removed st (rows (w.fetch limit))
  unfolding process_batch
  process_batch_success w st limit h = processed_lem w st (w.fetch limit) h

  processed_error :
      (w : World) (st : State) (f : Fetched) (err : Bytes)
      → (processed show w st f).1 ≡ some err
      → (processed show w st f).0.table ≡ st.table
  unfolding processed
  processed_error w st (fetch_failed e) err h = refl
  processed_error w st (fetched []) err h = commit_error st st w.commit err h
  processed_error w st (fetched (b ∷ bs)) err h = written_error w st (b ∷ bs) w.write err h

  -- A batch that reports an error leaves the outbox as it was.
  process_batch_error :
      (w : World) (st : State) (limit : ℕ) (err : Bytes)
      → (process_batch show w st limit).1 ≡ some err
      → (process_batch show w st limit).0.table ≡ st.table
  unfolding process_batch
  process_batch_error w st limit err h = processed_error w st (w.fetch limit) err h
