-- ===== src/Events/Examples.antt =====
-- The theorems on audit events at concrete inputs.
use backend_pkg.Common.{ℕ, refl, [], ◌∷◌, Bytes, codes, some, none, inl, inr, sym}
use backend_pkg.Events.Outbox.{OutboxEvent, State, World, fetched, delivered, process_batch}
use backend_pkg.Events.Outbox.Delivery.{Survives, process_batch-Survives}

abbrev created : OutboxEvent
created = record {
  id = 1;
  entity_id = 20;
  entity_type = codes "customer_comments";
  payload = codes "{}";
  topic = codes "customers";
  created_at = 5;
}

abbrev renamed : OutboxEvent
renamed = record created { id = 2; topic = []; created_at = 6 }

abbrev outbox : State
outbox = record { table = created ∷ (renamed ∷ []); log = [] }

abbrev show_id : ℕ → Bytes
show_id i = i ∷ []

-- One event is fetched; in `calm` all goes well, in `lost` the transaction is not committed.
abbrev calm : World
calm = record {
  fetch = λ n. fetched (created ∷ []);
  write = delivered;
  delete = none;
  commit = none;
}

abbrev lost : World
lost = record calm { commit = some (codes "connection reset") }

process_batch-Survives_example : Survives show_id created (process_batch show_id lost outbox 50).0
process_batch-Survives_example =
    process_batch-Survives show_id lost outbox 50 created (inl refl)
      (λ b m e. elim m [ inl q ↦ sym q | inr q ↦ absurd q ])
