-- ===== src/Publish.antt =====
-- tmsdb/event_builder.go, and the event that writeEvent of tmsdb/gorm_tm.go makes of a builder. The JSON of
-- a value, the new id and the clock come from outside.
pub mod Changes
pub mod Sql
pub mod Transaction
pub mod Stamp
mod Examples
use mathlib.Core.List.{map}
use backend_pkg.Common.{
  ℕ, ◌≡◌, refl, Bool, true, false, List, [], ◌∷◌, ◌++◌, Bytes, codes, ◌=ᵇ◌, if◌then◌else◌, Option,
  none, some,
}
use backend_pkg.Auth.Actor.{Context, Got, not_found, got, get_actor, get_company_id}
use backend_pkg.Auth.Origin.{ClientOrigin}
use backend_pkg.Events.Participants.{Uuid, nil_uuid, Participant, with_actor}
use backend_pkg.Events.Sensitivity.{Sensitivity}
use backend_pkg.Events.Classify.{classify}
use backend_pkg.Publish.Changes.{
  StructField, Snapshot, nil_value, other_value, struct_value, Change, calculate_changes,
}

-- What the context tells of who calls.
pub record Caller : Type 0 where
  pub request : Context
  pub origin : Option ClientOrigin

-- The actor and its company. A missing actor and a nil one are alike.
pub actor_identity : Context → Option Uuid × Option Uuid
unfolding get_company_id
actor_identity ctx = elim (get_actor ctx) [
  | not_found ↦ (none, none)
  | got none ↦ (none, none)
  | got (some a) ↦ (some a.id, get_company_id a)
]

abbrev text_or_nil : Bytes → Option Bytes
text_or_nil s = if s =ᵇ [] then none else some s

abbrev actor_ip : Option ClientOrigin → Option Bytes
actor_ip none = none
actor_ip (some o) = text_or_nil o.ip

abbrev origin_agent : Option ClientOrigin → Option Bytes
origin_agent none = none
origin_agent (some o) = text_or_nil o.user_agent

module _ (V : Type 0) where
  pub record EventBuilder : Type 0 where
    pub agg_type : Bytes
    pub evt_type : Bytes
    pub agg_id : Uuid
    pub root_type : Bytes
    pub root_id : Uuid
    pub topic : Bytes
    pub payload : Snapshot V
    pub old_payload : Snapshot V
    pub reason : Option Bytes
    pub sensitivity : Sensitivity
    pub participants : List Participant

  unfoldable pub event : Bytes → Bytes → Uuid → EventBuilder
  event agg_type evt_type agg_id = record {
    agg_type = agg_type;
    evt_type = evt_type;
    agg_id = agg_id;
    root_type = [];
    root_id = nil_uuid;
    topic = [];
    payload = nil_value;
    old_payload = nil_value;
    reason = none;
    sensitivity = [];
    participants = [];
  }

  unfoldable pub with_root : EventBuilder → Bytes → Uuid → EventBuilder
  with_root b root_type root_id = record b { root_type = root_type; root_id = root_id }

  unfoldable pub with_topic : EventBuilder → Bytes → EventBuilder
  with_topic b topic = record b { topic = topic }

  unfoldable pub with_data : EventBuilder → Snapshot V → EventBuilder
  with_data b v = record b { payload = v }

  unfoldable pub with_reason : EventBuilder → Bytes → EventBuilder
  with_reason b reason = record b { reason = some reason }

  unfoldable pub with_old_data : EventBuilder → Snapshot V → EventBuilder
  with_old_data b v = record b { old_payload = v }

  unfoldable pub with_sensitivity : EventBuilder → Sensitivity → EventBuilder
  with_sensitivity b s = record b { sensitivity = s }

  unfoldable pub with_participants : EventBuilder → List Participant → EventBuilder
  with_participants b ps = record b { participants = b.participants ++ ps }

  pub record EventPayload : Type 0 where
    pub source_service : Bytes
    pub event_id : Uuid
    pub actor_id : Option Uuid
    pub company_id : Option Uuid
    pub entity_type : Bytes
    pub entity_id : Uuid
    pub action : Bytes
    pub content : Bytes
    pub changes : List (Change V)
    pub reason : Option Bytes
    pub actor_ip : Option Bytes
    pub user_agent : Option Bytes
    pub timestamp : ℕ
    pub root_entity_type : Bytes
    pub root_entity_id : Uuid
    pub sensitivity : Sensitivity
    pub participants : List Participant

  -- A row of `outbox_events` as it is inserted; the database gives the id.
  pub record OutboxRow : Type 0 where
    pub entity_id : Uuid
    pub entity_type : Bytes
    pub event_type : Bytes
    pub payload : Bytes
    pub status : Bytes
    pub topic : Bytes
    pub created_at : ℕ

  pub record Encoder : Type 0 where
    pub marshal : Snapshot V → Option Bytes
    pub marshal_payload : EventPayload → Option Bytes

  -- The old data of the legacy shorthand is optional.
  unfoldable pub publish_builder :
      Bytes → Bytes → Uuid → Snapshot V → List (Snapshot V) → EventBuilder
  unfolding event with_data with_old_data
  publish_builder agg_type evt_type agg_id v [] = with_data (event agg_type evt_type agg_id) v
  publish_builder agg_type evt_type agg_id v (old ∷ rest) =
      with_old_data (with_data (event agg_type evt_type agg_id) v) old

  module _ (deep_equal : V → V → Bool) (fields_of : Bytes → List StructField)
      (source_service : Bytes) where
    -- `if b.oldData != nil`: nil has no changes.
    unfoldable pub changes_of : EventBuilder → List (Change V)
    unfolding calculate_changes
    changes_of b = calculate_changes V deep_equal fields_of b.old_payload b.payload

    unfoldable pub sensitivity_of : EventBuilder → Sensitivity
    sensitivity_of b =
        if b.sensitivity =ᵇ []
        then classify source_service b.agg_type b.evt_type (map (λ c. c.field) (changes_of b))
        else b.sensitivity

    unfoldable pub payload_of : Caller → Uuid → ℕ → EventBuilder → Bytes → EventPayload
    payload_of caller event_id now b content =
        let (actor_id, company_id) = actor_identity caller.request in
        let is_leaf = b.root_type =ᵇ [] in
        record {
          source_service = source_service;
          event_id = event_id;
          actor_id = actor_id;
          company_id = company_id;
          entity_type = b.agg_type;
          entity_id = b.agg_id;
          action = b.evt_type;
          content = content;
          changes = changes_of b;
          reason = b.reason;
          actor_ip = actor_ip caller.origin;
          user_agent = origin_agent caller.origin;
          timestamp = now;
          root_entity_type = if is_leaf then b.agg_type else b.root_type;
          root_entity_id = if is_leaf then b.agg_id else b.root_id;
          sensitivity = sensitivity_of b;
          participants = with_actor b.participants actor_id;
        }

    abbrev row_of : EventBuilder → ℕ → Bytes → OutboxRow
    row_of b now payload = record {
      entity_id = b.agg_id;
      entity_type = b.agg_type;
      event_type = b.evt_type;
      payload = payload;
      status = codes "PENDING";
      topic = b.topic;
      created_at = now;
    }

    -- The row of an event, if its data and its payload can be written as JSON.
    unfoldable pub event_row : Encoder → Caller → Uuid → ℕ → EventBuilder → Option OutboxRow
    event_row enc caller event_id now b = elim (enc.marshal b.payload) [
      | none ↦ none
      | some content ↦ elim (enc.marshal_payload (payload_of caller event_id now b content)) [
        | none ↦ none
        | some payload ↦ some (row_of b now payload)
      ]
    ]
