-- ===== src/Events/Outbox/Delivery.antt =====
-- What one batch of eventlog/outbox/relay.go does to the events of the outbox.
use mathlib.Core.List.{map}
use backend_pkg.Common.{
  ℕ, ◌≡◌, refl, Bool, true, not, List, [], ◌∷◌, ◌++◌, Bytes, ◌==◌, ==→eq, Option, none, some, keep,
  Any, ◌⊎◌, inl, inr, ap, Bool-cases,
}
use backend_pkg.Events.Participants.{Uuid}
use backend_pkg.Events.Outbox.{
  OutboxEvent, State, Fetched, fetched, fetch_failed, Written, delivered, write_failed, World,
  has_event, delete_batch, message_of, commit_all, deleted, written, processed, process_batch,
}

-- The item stands in the list.
abbrev In : {A : Type 0} → A → List A → Type 0
In a xs = Any (λ x. x ≡ a) xs

In-keep :
    (p : OutboxEvent → Bool) (e : OutboxEvent) (xs : List OutboxEvent)
    → In e xs
    → p e ≡ true
    → In e (keep p xs)
In-keep p e [] h k = absurd h
In-keep p e (x ∷ xs) (inl q) k = rw (q, k) (inl refl)
In-keep p e (x ∷ xs) (inr h) k = elim (Bool-cases (p x)) [
  | inl b ↦ rw b (inr (In-keep p e xs h k))
  | inr b ↦ rw b (In-keep p e xs h k)
]

In-append : {A : Type 0} (a : A) (xs ys : List A) → In a ys → In a (xs ++ ys)
In-append a [] ys h = h
In-append a (x ∷ xs) ys h = inr (In-append a xs ys h)

-- A row and an event of the batch with the same id are the same event.
abbrev IsKeyed : List OutboxEvent → OutboxEvent → Type 0
IsKeyed batch e = (b : OutboxEvent) → In b batch → b.id ≡ e.id → b ≡ e

-- The events that were fetched.
abbrev pub rows : Fetched → List OutboxEvent
rows (fetched batch) = batch
rows (fetch_failed err) = []

module _ (show : Uuid → Bytes) where
  In-message :
      (e : OutboxEvent) (batch : List OutboxEvent)
      → IsKeyed batch e
      → has_event e.id batch ≡ true
      → In (message_of show e) (map (message_of show) batch)
  In-message e [] k h = cc
  In-message e (b ∷ bs) k h = elim (Bool-cases (b.id == e.id)) [
    | inl q ↦ inl (ap (message_of show) (k b (inl refl) (==→eq b.id e.id q)))
    | inr q ↦ inr (In-message e bs (λ c m. k c (inr m)) (rw q at h))
  ]

  -- The event is still in the outbox, or the broker holds its message.
  abbrev pub Survives : OutboxEvent → State → Type 0
  Survives e st = In e st.table ⊎ In (message_of show e) st.log

  kept_or_sent :
      (e : OutboxEvent) (batch : List OutboxEvent) (st : State)
      → In e st.table
      → IsKeyed batch e
      → Survives e (record {
        table = delete_batch batch st.table;
        log = st.log ++ map (message_of show) batch;
      })
  unfolding delete_batch
  kept_or_sent e batch st h k = elim (Bool-cases (has_event e.id batch)) [
    | inl q ↦ inr (In-append (message_of show e) st.log _ (In-message e batch k q))
    | inr q ↦ inl (In-keep (λ x. not (has_event x.id batch)) e st.table h (rw q refl))
  ]

  commit-Survives :
      (e : OutboxEvent) (before after : State) (o : Option Bytes)
      → In e before.table
      → Survives e after
      → Survives e (commit_all show before after o).0
  unfolding commit_all
  commit-Survives e before after none h k = k
  commit-Survives e before after (some err) h k = inl h

  deleted-Survives :
      (w : World) (st : State) (batch : List OutboxEvent) (e : OutboxEvent) (o : Option Bytes)
      → In e st.table
      → IsKeyed batch e
      → Survives e (deleted show w st batch (st.log ++ map (message_of show) batch) o).0
  unfolding deleted
  deleted-Survives w st batch e none h k =
      commit-Survives e st _ w.commit h (kept_or_sent e batch st h k)
  deleted-Survives w st batch e (some err) h k = inl h

  written-Survives :
      (w : World) (st : State) (batch : List OutboxEvent) (e : OutboxEvent) (r : Written)
      → In e st.table
      → IsKeyed batch e
      → Survives e (written show w st batch r).0
  unfolding written
  written-Survives w st batch e delivered h k = deleted-Survives w st batch e w.delete h k
  written-Survives w st batch e (write_failed err ms) h k = inl h

  processed-Survives :
      (w : World) (st : State) (e : OutboxEvent) (f : Fetched)
      → In e st.table
      → IsKeyed (rows f) e
      → Survives e (processed show w st f).0
  unfolding processed
  processed-Survives w st e (fetch_failed err) h k = inl h
  processed-Survives w st e (fetched []) h k = commit-Survives e st st w.commit h (inl h)
  processed-Survives w st e (fetched (b ∷ bs)) h k = written-Survives w st (b ∷ bs) e w.write h k

  -- No event is lost, whatever fails: after a batch an event of the outbox is still there, or the
  -- broker holds its message. Ids are not shared between events.
  pub process_batch-Survives :
      (w : World) (st : State) (limit : ℕ) (e : OutboxEvent)
      → In e st.table
      → IsKeyed (rows (w.fetch limit)) e
      → Survives e (process_batch show w st limit).0
  unfolding process_batch
  process_batch-Survives w st limit e h k = processed-Survives w st e (w.fetch limit) h k
