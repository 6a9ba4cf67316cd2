-- ===== src/Events/Hierarchy.antt =====
-- eventlog/events/hierarchy.go: the aggregate root to which each entity type rolls up.
use backend_pkg.Common.{
  ◌≡◌, refl, Bool, true, false, List, [], ◌∷◌, Bytes, codes, lookup, lookup→Any, Any, inl, inr,
  Option, none, some, ◌=ᵇ◌, =ᵇ_iff, ◌&&◌, Option-cases, arith,
}

abbrev RootEntity : Type 0
RootEntity = Bytes

abbrev root_shipment : RootEntity
root_shipment = codes "shipments"

abbrev root_user : RootEntity
root_user = codes "users"

abbrev root_company : RootEntity
root_company = codes "companies"

abbrev root_broker : RootEntity
root_broker = codes "brokers"

abbrev root_driver_crew : RootEntity
root_driver_crew = codes "driver_crews"

abbrev root_share_link : RootEntity
root_share_link = codes "share_links"

abbrev root_notification : RootEntity
root_notification = codes "notifications"

abbrev root_truck : RootEntity
root_truck = codes "trucks"

abbrev root_trailer : RootEntity
root_trailer = codes "trailers"

abbrev root_invoice : RootEntity
root_invoice = codes "invoices"

abbrev root_pay_batch : RootEntity
root_pay_batch = codes "pay_batches"

abbrev root_file : RootEntity
root_file = codes "files"

abbrev root_rate_confirmation : RootEntity
root_rate_confirmation = codes "rate_confirmations"

abbrev root_thread : RootEntity
root_thread = codes "conversations"

abbrev root_workspace : RootEntity
root_workspace = codes "workspaces"

abbrev leaf_to_root : List (Bytes × RootEntity)
leaf_to_root =
    (codes "shipments", root_shipment)
    ∷ (codes "shipment_events", root_shipment)
    ∷ (codes "shipment_legs", root_shipment)
    ∷ (codes "trips", root_shipment)
    ∷ (codes "trip_events", root_shipment)
    ∷ (codes "trip_stops", root_shipment)
    ∷ (codes "users", root_user)
    ∷ (codes "user_events", root_user)
    ∷ (codes "companies", root_company)
    ∷ (codes "brokers", root_broker)
    ∷ (codes "customers", root_broker)
    ∷ (codes "customer_contacts", root_broker)
    ∷ (codes "customer_comments", root_broker)
    ∷ (codes "customer_warnings", root_broker)
    ∷ (codes "customer_addresses", root_broker)
    ∷ (codes "customer_credit_scores", root_broker)
    ∷ (codes "driver_crews", root_driver_crew)
    ∷ (codes "driver_crew_items", root_driver_crew)
    ∷ (codes "driver_pto_events", root_driver_crew)
    ∷ (codes "driver_status", root_driver_crew)
    ∷ (codes "share_links", root_share_link)
    ∷ (codes "notifications", root_notification)
    ∷ (codes "trucks", root_truck)
    ∷ (codes "truck_events", root_truck)
    ∷ (codes "truck_locations", root_truck)
    ∷ (codes "trailers", root_trailer)
    ∷ (codes "trailer_events", root_trailer)
    ∷ (codes "invoices", root_invoice)
    ∷ (codes "invoice_events", root_invoice)
    ∷ (codes "invoice_lines", root_invoice)
    ∷ (codes "invoice_credit_memos", root_invoice)
    ∷ (codes "payments", root_invoice)
    ∷ (codes "pay_batches", root_pay_batch)
    ∷ (codes "pay_batch_items", root_pay_batch)
    ∷ (codes "files", root_file)
    ∷ (codes "file_events", root_file)
    ∷ (codes "order_files", root_file)
    ∷ (codes "rate_confirmations", root_rate_confirmation)
    ∷ (codes "rc_events", root_rate_confirmation)
    ∷ (codes "conversations", root_thread)
    ∷ (codes "messages", root_thread)
    ∷ (codes "mentions", root_thread)
    ∷ (codes "thread_access", root_thread)
    ∷ (codes "workspaces", root_workspace)
    ∷ (codes "boards", root_workspace)
    ∷ (codes "board_columns", root_workspace)
    ∷ (codes "board_values", root_workspace)
    ∷ []

-- `LeafToRoot[entityType]`.
unfoldable root_of : Bytes → Option RootEntity
unfolding lookup
root_of entity_type = lookup entity_type leaf_to_root

is_own_root : RootEntity → Bool
is_own_root r = elim (root_of r) [ none ↦ false | some s ↦ s =ᵇ r ]

all_own : List (Bytes × RootEntity) → Bool
all_own [] = true
all_own ((leaf, r) ∷ m) = is_own_root r && all_own m

all_own_table : all_own leaf_to_root ≡ true
unfolding all_own is_own_root root_of
all_own_table = refl

is_own_root→eq : (r : RootEntity) → is_own_root r ≡ true → root_of r ≡ some r
unfolding is_own_root
is_own_root→eq r h = elim (Option-cases (root_of r)) [
  | inl e ↦ ground arith
  | inr (s, e) ↦ ground (arith, =ᵇ_iff s r)
]

all_own→eq :
    (m : List (Bytes × RootEntity)) (leaf : Bytes) (r : RootEntity)
    → all_own m ≡ true
    → Any {A = Bytes × RootEntity} (λ e. (e.0 ≡ leaf) × (e.1 ≡ r)) m
    → root_of r ≡ some r
unfolding all_own
all_own→eq [] leaf r h a = absurd a
all_own→eq ((j, q) ∷ m) leaf r h (inl e) = rw (← e.1) (is_own_root→eq q (ground arith))
all_own→eq ((j, q) ∷ m) leaf r h (inr a) = all_own→eq m leaf r (ground arith) a

-- Roots are roots of themselves: the root of any entity type that has one is listed as its own root,
-- so going up a second time changes nothing.
root_of-root_of :
    (entity_type : Bytes) (r : RootEntity) → root_of entity_type ≡ some r → root_of r ≡ some r
root_of-root_of entity_type r h =
    all_own→eq leaf_to_root entity_type r all_own_table
      (lookup→Any entity_type leaf_to_root r (unfold root_of in h))
