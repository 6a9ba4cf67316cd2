-- ===== src/Events/Classify.antt =====
-- eventlog/events/classify.go: the default class of an event, from its entity, its action and the
-- names of the changed fields.
use backend_pkg.Common.{
  ◌≡◌, refl, Bool, true, false, List, [], ◌∷◌, ◌++◌, Bytes, codes, contains, to_lower, has_part,
  ◌||◌, if◌then◌else◌, arith,
}
use Prim.Native.Nat.{max}
use backend_pkg.Events.Sensitivity.{
  rank_injective, Sensitivity, operational, financial, hr, compliance, security, stricter, rank,
  is_valid, rank-stricter, stricter-IsValid,
}

abbrev financial_entities : List Bytes
financial_entities =
    codes "invoices"
    ∷ codes "invoice_lines"
    ∷ codes "invoice_credit_memos"
    ∷ codes "invoice_events"
    ∷ codes "payments"
    ∷ codes "pay_batches"
    ∷ codes "pay_batch_items"
    ∷ codes "pay_statements"
    ∷ codes "statement_events"
    ∷ codes "adjustments"
    ∷ codes "driver_tariff_assignments"
    ∷ []

abbrev compliance_entities : List Bytes
compliance_entities = codes "files" ∷ []

abbrev hr_entities : List Bytes
hr_entities = codes "drivers" ∷ []

abbrev security_entities : List Bytes
security_entities =
    codes "sessions" ∷ codes "user_permissions" ∷ codes "role_permissions" ∷ codes "ip_rules" ∷ []

-- Some text of the list is a part of `s`.
any_part : Bytes → List Bytes → Bool
any_part s [] = false
any_part s (t ∷ ts) = if has_part s t then true else any_part s ts

is_security_action : Bytes → Bool
unfolding any_part
is_security_action action = any_part (to_lower action) (
    codes "permission"
    ∷ codes "session_revoked"
    ∷ codes "session_kicked"
    ∷ codes "role_changed"
    ∷ [])

abbrev money_field_tokens : List Bytes
money_field_tokens =
    codes "pay"
    ∷ codes "rate"
    ∷ codes "margin"
    ∷ codes "amount"
    ∷ codes "price"
    ∷ codes "cost"
    ∷ codes "charge"
    ∷ codes "invoice"
    ∷ codes "tariff"
    ∷ codes "deduction"
    ∷ codes "salary"
    ∷ codes "wage"
    ∷ codes "balance"
    ∷ codes "revenue"
    ∷ codes "linehaul"
    ∷ codes "gross_"
    ∷ codes "_gross"
    ∷ codes "net_"
    ∷ codes "_net"
    ∷ codes "fee"
    ∷ []

unfoldable pub is_money_field : Bytes → Bool
unfolding any_part
is_money_field field = any_part (to_lower field) money_field_tokens

pub base_class : Bytes → Bytes → Sensitivity
base_class entity_type action =
    if contains financial_entities entity_type
    then financial
    else if contains compliance_entities entity_type
    then compliance
    else if contains hr_entities entity_type
    then hr
    else if contains security_entities entity_type || is_security_action action
    then security
    else operational

-- The loop over the changed fields.
escalate : Sensitivity → List Bytes → Sensitivity
escalate c [] = c
escalate c (f ∷ fs) = escalate (if is_money_field f then stricter c financial else c) fs

pub classify : Bytes → Bytes → Bytes → List Bytes → Sensitivity
unfolding escalate
classify source_service entity_type action changed_fields =
    escalate (base_class entity_type action) changed_fields

abbrev pub any_money : List Bytes → Bool
any_money [] = false
any_money (f ∷ fs) = is_money_field f || any_money fs

base_class-IsValid : (e a : Bytes) → is_valid (base_class e a) ≡ true
unfolding base_class is_valid
base_class-IsValid e a = ground arith

stricter-financial :
    (c : Sensitivity) → stricter (stricter c financial) financial ≡ stricter c financial
unfolding stricter
stricter-financial c = ground arith

escalate_lem :
    (c : Sensitivity) (fs : List Bytes)
    → escalate c fs ≡ (if any_money fs then stricter c financial else c)
unfolding escalate
escalate_lem c [] = refl
escalate_lem c (f ∷ fs) =
    ground (arith, escalate_lem (stricter c financial) fs, escalate_lem c fs, stricter-financial c)

classify_lem :
    (source e a : Bytes) (fs : List Bytes)
    → classify source e a fs
      ≡ (if any_money fs then stricter (base_class e a) financial else base_class e a)
unfolding classify
classify_lem source e a fs = escalate_lem (base_class e a) fs

rank-financial : rank financial ≡ 3
unfolding rank
rank-financial = refl

financial-IsValid : is_valid financial ≡ true
unfolding is_valid
financial-IsValid = refl

classify-IsValid : (source e a : Bytes) (fs : List Bytes) → is_valid (classify source e a fs) ≡ true
classify-IsValid source e a fs = ground (
  arith,
  classify_lem source e a fs,
  base_class-IsValid e a,
  stricter-IsValid (base_class e a) financial (base_class-IsValid e a) financial-IsValid,
)

rank-classify :
    (source e a : Bytes) (fs : List Bytes)
    → rank (classify source e a fs)
      ≡ (if any_money fs then max (rank (base_class e a)) 3 else rank (base_class e a))
rank-classify source e a fs =
    ground
      (arith, classify_lem source e a fs, rank-stricter (base_class e a) financial, rank-financial)

-- The class of an event is always a known one. Its rank is that of its entity and action, raised to
-- the rank of FINANCIAL if a changed field is about money.
pub classify-rank :
    (source e a : Bytes) (fs : List Bytes)
    → (is_valid (classify source e a fs) ≡ true)
      × (rank (classify source e a fs)
          ≡ max (rank (base_class e a)) (if any_money fs then rank financial else 0))
classify-rank source e a fs =
    (classify-IsValid source e a fs, ground (arith, rank-classify source e a fs, rank-financial))

any_money-append : (fs gs : List Bytes) → any_money (fs ++ gs) ≡ (any_money fs || any_money gs)
any_money-append [] gs = refl
any_money-append (f ∷ fs) gs = ground (arith, any_money-append fs gs)

-- Classifying a write with two groups of changed fields gives the stricter of the two classes that
-- each group alone would have, in either order.
classify-append :
    (source e a : Bytes) (fs gs : List Bytes)
    → (classify source e a (fs ++ gs) ≡ stricter (classify source e a fs) (classify source e a gs))
      × (classify source e a (fs ++ gs) ≡ classify source e a (gs ++ fs))
classify-append source e a fs gs = (
  rank_injective _ _ (classify-IsValid source e a (fs ++ gs))
      (stricter-IsValid _ _ (classify-IsValid source e a fs) (classify-IsValid source e a gs))
      (ground (
        arith,
        rank-classify source e a (fs ++ gs),
        rank-classify source e a fs,
        rank-classify source e a gs,
        any_money-append fs gs,
        rank-stricter (classify source e a fs) (classify source e a gs),
      )),
  rank_injective _ _ (classify-IsValid source e a (fs ++ gs))
      (classify-IsValid source e a (gs ++ fs))
      (ground (
        arith,
        rank-classify source e a (fs ++ gs),
        rank-classify source e a (gs ++ fs),
        any_money-append fs gs,
        any_money-append gs fs,
      )),
)
