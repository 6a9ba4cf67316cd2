-- ===== src/Publish/Stamp.antt =====
-- What tmsdb/gorm_tm.go stamps on an event: who acted, and how sensitive the event is.
use Prim.Native.Nat.{max}
use mathlib.Core.List.{map}
use backend_pkg.Common.{
  ℕ, ◌≤◌, ◌≡◌, ◌≢◌, refl, ap, ◌∙◌, inl, inr, Bool, true, false, List, [], ◌∷◌, Bytes, ◌=ᵇ◌, some,
  get_elem?, Any, arith,
}
use backend_pkg.Auth.Actor.{Actor, present, get_actor, claims_company}
use backend_pkg.Events.Participants.{Uuid, nil_uuid, actors, with_actor_lem}
use backend_pkg.Events.Sensitivity.{rank, financial}
use backend_pkg.Events.Classify.{is_money_field, any_money, classify-rank}
use backend_pkg.Publish.{
  Caller, EventBuilder, EventPayload, actor_identity, payload_of, changes_of, sensitivity_of,
}
use backend_pkg.Publish.Changes.{
  StructField, StructValue, Change, struct_value, field_name, calculate_changes,
}
use backend_pkg.Publish.Changes.Exact.{IsAudited, change_at, calculate_changes_lem}

module _ (V : Type 0) (deep_equal : V → V → Bool) (fields_of : Bytes → List StructField)
    (source_service : Bytes) where
  abbrev stamped : Caller → Uuid → ℕ → EventBuilder V → Bytes → EventPayload V
  stamped = payload_of V deep_equal fields_of source_service

  any_money_found :
      (c : Change V) (cs : List (Change V))
      → is_money_field c.field ≡ true
      → Any (λ d. d ≡ c) cs
      → any_money (map (λ d. d.field) cs) ≡ true
  any_money_found c [] money h = absurd h
  any_money_found c (d ∷ cs) money (inl e) =
      rw (ap (λ (x : Change V). is_money_field x.field) e ∙ money) refl
  any_money_found c (d ∷ cs) money (inr h) = let rest = any_money_found c cs money h in ground arith

  -- An event that the producer gave no class of its own, with the data before and after of one struct
  -- type, is at least as sensitive as FINANCIAL if some audited field whose name is about money differs.
  pub payload_of-money :
      (caller : Caller) (event_id : Uuid) (now : ℕ) (b : EventBuilder V) (content : Bytes)
      (old new : StructValue V) (j : ℕ) (f : StructField)
      → b.sensitivity ≡ []
      → b.old_payload ≡ struct_value old
      → b.payload ≡ struct_value new
      → old.type_name ≡ new.type_name
      → get_elem? (fields_of old.type_name) j ≡ some f
      → IsAudited f
      → is_money_field (field_name f) ≡ true
      → deep_equal (old.field j) (new.field j) ≡ false
      → rank financial ≤ rank (stamped caller event_id now b content).sensitivity
  unfolding payload_of sensitivity_of changes_of ◌=ᵇ◌
  payload_of-money caller event_id now b content old new j f unset eo en same at audited money
        differ =
      let found =
        (calculate_changes_lem V deep_equal fields_of old new same).1 j f at audited differ in
      let cs = calculate_changes V deep_equal fields_of (struct_value old) (struct_value new) in
      let any =
        any_money_found (change_at V deep_equal fields_of f old.field new.field j) cs money found in
      let (known, ranked) =
        classify-rank source_service b.agg_type b.evt_type (map (λ c. c.field) cs) in
      rw (unset, eo, en) (ground arith)

  -- An event of an actor with an id names the actor and the company of its claims, none if it has no
  -- claims, and counts the actor once among those who took part, unless the producer named others.
  payload_of-actor :
      (caller : Caller) (event_id : Uuid) (now : ℕ) (b : EventBuilder V) (content : Bytes)
      (a : Actor)
      → caller.request.actor ≡ present a
      → a.id ≢ nil_uuid
      → let p = stamped caller event_id now b content in
        (p.actor_id ≡ some a.id)
        × (p.company_id ≡ claims_company a.claims)
        × (actors p.participants ≡ max 1 (actors b.participants))
  unfolding payload_of actor_identity get_actor
  payload_of-actor caller event_id now b content a e known =
      rw e (refl, refl, (with_actor_lem b.participants a.id a.id known).0)
