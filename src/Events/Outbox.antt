-- ===== src/Events/Outbox.antt =====
-- eventlog/outbox/relay.go: one batch of the relay, in a transaction of its own. What the database and
-- the broker answer comes from outside; an error of the transaction restores the table, but not what
-- the broker already holds.
pub mod Delivery
pub mod Outcome
use mathlib.Core.List.{map}
use backend_pkg.Common.{
  ℕ, ◌≡◌, refl, Bool, true, false, ◌||◌, not, List, [], ◌∷◌, ◌++◌, Bytes, ◌==◌, ==→eq, ==_refl,
  ◌=ᵇ◌, if◌then◌else◌, Option, none, some, arith, keep, Any, ◌⊎◌, inl, inr, ap, Bool-cases,
}
use backend_pkg.Events.Participants.{Uuid}

pub record OutboxEvent : Type 0 where
  pub id : Uuid
  pub entity_id : Uuid
  pub entity_type : Bytes
  pub payload : Bytes
  pub topic : Bytes
  pub created_at : ℕ

pub record Message : Type 0 where
  pub topic : Bytes
  pub key : Bytes
  pub value : Bytes
  pub time : ℕ

-- The rows of the outbox, and what the broker holds, in the order of its arrival.
pub record State : Type 0 where
  pub table : List OutboxEvent
  pub log : List Message

pub data Fetched : Type 0 where
  fetched : List OutboxEvent → Fetched
  fetch_failed : Bytes → Fetched

-- A write that fails may have delivered some of the messages.
pub data Written : Type 0 where
  delivered : Written
  write_failed : Bytes → List Message → Written

pub record World : Type 0 where
  pub fetch : ℕ → Fetched
  pub write : Written
  pub delete : Option Bytes
  pub commit : Option Bytes

abbrev pub has_event : Uuid → List OutboxEvent → Bool
has_event i [] = false
has_event i (b ∷ bs) = b.id == i || has_event i bs

-- `DELETE ... WHERE id IN ?`.
pub delete_batch : List OutboxEvent → List OutboxEvent → List OutboxEvent
delete_batch batch table = keep (λ e. not (has_event e.id batch)) table

-- `show` is the text of a UUID.
module _ (show : Uuid → Bytes) where
  pub message_of : OutboxEvent → Message
  message_of e = record {
    topic = if e.topic =ᵇ [] then e.entity_type else e.topic;
    key = show e.entity_id;
    value = e.payload;
    time = e.created_at;
  }

  commit_all : State → State → Option Bytes → State × Option Bytes
  commit_all before after none = (after, none)
  commit_all before after (some err) = (record after { table = before.table }, some err)

  deleted : World → State → List OutboxEvent → List Message → Option Bytes → State × Option Bytes
  unfolding commit_all
  deleted w st batch log (some err) = (record st { log = log }, some err)
  deleted w st batch log none =
      commit_all st (record { table = delete_batch batch st.table; log = log }) w.commit

  written : World → State → List OutboxEvent → Written → State × Option Bytes
  unfolding deleted
  written w st batch (write_failed err some_messages) =
      (record st { log = st.log ++ some_messages }, some err)
  written w st batch delivered = deleted w st batch (st.log ++ map message_of batch) w.delete

  processed : World → State → Fetched → State × Option Bytes
  unfolding written
  processed w st (fetch_failed err) = (st, some err)
  processed w st (fetched []) = commit_all st st w.commit
  processed w st (fetched (e ∷ es)) = written w st (e ∷ es) w.write

  unfoldable pub process_batch : World → State → ℕ → State × Option Bytes
  unfolding processed
  process_batch w st limit = processed w st (w.fetch limit)
