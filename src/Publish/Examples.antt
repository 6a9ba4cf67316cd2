-- ===== src/Publish/Examples.antt =====
-- The theorems on the publishing of events at a connection that keeps lists of rows.
use backend_pkg.Common.{
  ℕ, ◌+◌, ◌≤◌, ◌≡◌, ◌≢◌, ◌⊎◌, refl, Bool, true, false, List, [], ◌∷◌, codes, ◌=ᵇ◌, ◌==◌, Option,
  none, some, arith, if◌then◌else◌, get_elem?, has_part, All, Any,
}
use backend_pkg.Auth.Actor.{Actor, present}
use backend_pkg.Events.Sensitivity.{rank, financial}
use backend_pkg.Events.Classify.{is_money_field}
use backend_pkg.Publish.{Caller, EventBuilder, OutboxRow, Encoder, event_row, payload_of}
use backend_pkg.Publish.Changes.{
  StructField, StructValue, plain, struct_type, pointer_to, struct_value, calculate_changes,
  is_association_field, is_tracked, field_name,
}
use backend_pkg.Publish.Changes.Exact.{change_at, calculate_changes_lem, IsOfUnequal, IsAudited}
use backend_pkg.Publish.Sql.{Sql, Statement, savepoint, rollback_to, release, create}
use backend_pkg.Publish.Transaction.{with_transaction, write_event}
use backend_pkg.Publish.Transaction.Atomic.{with_transaction-emit, work_and_emit}
use backend_pkg.Publish.Stamp.{payload_of-money}

abbrev Row : Type 0
Row = OutboxRow ℕ

record Link : Type 0 where
  rows : List Row
  saved : List Row
  mark : Option (List Row)
  opened : Bool

abbrev back : Link → Option (List Row) → Link × Bool
back c none = (c, false)
back c (some rows) = (record c { rows = rows }, true)

-- The insert of a row with a topic fails.
abbrev run_on : Statement Row → Link → Link × Bool
run_on savepoint c = (record c { mark = some c.rows }, true)
run_on (create row) c =
    if row.topic =ᵇ [] then (record c { rows = row ∷ c.rows }, true) else (c, false)
run_on rollback_to c = back c c.mark
run_on release c = (c, true)

abbrev begun : Link → Link
begun c = record c { rows = c.saved; opened = true }

abbrev ended : Link → Link × Bool → Link × Bool
ended c (c', true) = (record c' { saved = c'.rows; opened = false }, true)
ended c (c', false) = (c, false)

ended-true :
    (c : Link) (r : Link × Bool)
    → (ended c r).1 ≡ true
    → (r.1 ≡ true) × ((ended c r).0.saved ≡ r.0.rows)
ended-true c (c', true) h = (refl, refl)
ended-true c (c', false) h = cc

ended-false :
    (c : Link) (r : Link × Bool)
    → r.1 ≡ false
    → ((ended c r).1 ≡ false) × ((ended c r).0.saved ≡ c.saved)
ended-false c (c', true) h = cc
ended-false c (c', false) h = (refl, refl)

rows-create :
    (row : Row) (c : Link)
    → (run_on (create row) c).1 ≡ true
    → (run_on (create row) c).0.rows ≡ row ∷ c.rows
rows-create row c h = ground arith

mark-create : (row : Row) (c : Link) → (run_on (create row) c).0.mark ≡ c.mark
mark-create row c = ground arith

rows-back :
    (c : Link) (m : Option (List Row)) (rows : List Row)
    → m ≡ some rows
    → (back c m).1 ≡ true
    → (back c m).0.rows ≡ rows
rows-back c none rows e h = cc
rows-back c (some r) rows e h = cc

abbrev memory : Sql Row
memory = record {
  Conn = Link;
  Rows = List Row;
  insert = λ row rows. row ∷ rows;
  seen = λ c. c.rows;
  stored = λ c. c.saved;
  kept = λ c. c.mark;
  is_open = λ c. c.opened;
  run = run_on;
  started = begun;
  transaction = λ f c. ended c (f (begun c));
  seen-savepoint = λ c h. refl;
  kept-savepoint = λ c h. refl;
  seen-create = rows-create;
  kept-create = mark-create;
  seen-rollback_to = λ c rows e h. rows-back c c.mark rows e h;
  seen-release = λ c. refl;
  is_open-started = λ c. refl;
  seen-started = λ c. refl;
  transaction_committed = λ f c h. ended-true c (f (begun c)) h;
  transaction_undone = λ f c h. ended-false c (f (begun c)) h;
}

abbrev load_fields : List StructField
load_fields =
    record { name = codes "Notes"; exported = true; json_tag = codes "notes"; field_type = plain }
    ∷ record {
      name = codes "Total";
      exported = true;
      json_tag = codes "gross_total,omitempty";
      field_type = pointer_to plain;
    }
    ∷ record {
      name = codes "BillTo";
      exported = true;
      json_tag = codes "bill_to";
      field_type = pointer_to (struct_type (codes "Customer"));
    }
    ∷ []

abbrev total_field : StructField
total_field = record {
  name = codes "Total";
  exported = true;
  json_tag = codes "gross_total,omitempty";
  field_type = pointer_to plain;
}

abbrev load_was : StructValue ℕ
load_was = record { type_name = codes "Load"; field = λ i. i }

abbrev load_is : StructValue ℕ
load_is = record { type_name = codes "Load"; field = λ i. i + i }

abbrev same : ℕ → ℕ → Bool
same a b = a == b

calculate_changes_lem_example :
    All
      (IsOfUnequal ℕ same (λ n. load_fields) load_fields load_was.field load_is.field)
      (calculate_changes ℕ same (λ n. load_fields) (struct_value load_was) (struct_value load_is))
    × ((j : ℕ) (f : StructField)
        → get_elem? load_fields j ≡ some f
        → IsAudited f
        → same (load_was.field j) (load_is.field j) ≡ false
        → Any
            (λ c. c ≡ change_at ℕ same (λ n. load_fields) f load_was.field load_is.field j)
            (calculate_changes ℕ same
              (λ n. load_fields)
              (struct_value load_was)
              (struct_value load_is)))
calculate_changes_lem_example =
    calculate_changes_lem ℕ same (λ n. load_fields) load_was load_is refl

-- Only the amount is a change: the note is as it was, and the customer is an object.
one_change :
    calculate_changes ℕ same (λ n. load_fields) (struct_value load_was) (struct_value load_is)
    ≡ record { field = codes "gross_total"; old_value = 1; new_value = 2 } ∷ []
unfolding calculate_changes is_tracked field_name
one_change = refl

abbrev dispatcher : Actor
dispatcher = record {
  id = 7;
  claims =
      some
        (record { user_id = 7; company_id = some 3; roles = []; resource = []; issued_at = none });
  is_system = false;
  is_guest = false;
}

abbrev by_dispatcher : Caller
by_dispatcher = record {
  request = record { actor = present dispatcher; user_perms = none; perms_unresolved = false };
  origin = none;
}

abbrev load_changed : EventBuilder ℕ
load_changed = record {
  agg_type = codes "shipments";
  evt_type = codes "updated";
  agg_id = 12;
  root_type = [];
  root_id = 0;
  topic = [];
  payload = struct_value load_is;
  old_payload = struct_value load_was;
  reason = none;
  sensitivity = [];
  participants = [];
}

payload_of-money_example :
    rank financial
    ≤ rank
        (payload_of ℕ same
          (λ n. load_fields)
          (codes "loads")
          by_dispatcher
          1
          50
          load_changed
          []).sensitivity
unfolding is_money_field field_name is_association_field has_part
payload_of-money_example =
    payload_of-money ℕ same (λ n. load_fields) (codes "loads") by_dispatcher 1 50 load_changed []
      load_was load_is 1 total_field refl refl refl refl refl (refl, (cc), refl) refl refl

abbrev json : Encoder ℕ
json = record { marshal = λ v. some (codes "{}"); marshal_payload = λ p. some (codes "{}") }

abbrev link : Link
link = record { rows = []; saved = []; mark = none; opened = false }

abbrev work : Link → Link × Bool
work c = (c, true)

with_transaction-emit_example :
    let done =
      with_transaction ℕ memory false
        (work_and_emit ℕ memory same
          (λ n. load_fields)
          json
          (codes "loads")
          by_dispatcher
          1
          50
          load_changed
          work)
        link in
    (done.1 ≡ true
      → (◌≡◌ {A = Bool} true true)
        × (row : Row) × (event_row ℕ same
              (λ n. load_fields)
              (codes "loads")
              json
              by_dispatcher
              1
              50
              load_changed
            ≡ some row)
        × (done.0.saved
            ≡ (if (run_on (create row) (run_on savepoint (begun link)).0).1 then row ∷ [] else [])))
    × ((◌≡◌ {A = Bool} true false)
          ⊎ ((write_event ℕ memory same
                (λ n. load_fields)
                json
                (codes "loads")
                by_dispatcher
                1
                50
                load_changed
                (begun link)).1
              ≢ none)
        → (done.1 ≡ false) × (done.0.saved ≡ []))
with_transaction-emit_example =
    with_transaction-emit ℕ memory same (λ n. load_fields) json (codes "loads") by_dispatcher 1 50
      load_changed work link refl

-- The row is stored with the work.
stored_with_work :
    (with_transaction ℕ memory false
      (work_and_emit ℕ memory same
        (λ n. load_fields)
        json
        (codes "loads")
        by_dispatcher
        1
        50
        load_changed
        work)
      link).1
    ≡ true
unfolding with_transaction write_event event_row ◌=ᵇ◌
stored_with_work = refl
