-- ===== src/Factoring/Rules.antt =====
-- client/factoring/rules.go: what a provider asks of a batch, and the first violation of it.
use backend_pkg.Common.{
  ℕ, ◌≤◌, ◌≡◌, ◌≢◌, ◌↔◌, refl, Bool, true, false, not, ◌&&◌, List, [], ◌∷◌, Bytes, codes, ◌=ᵇ◌,
  contains, if◌then◌else◌, Option, none, some, ℤ, pos, negsuc, length, ltb, trim_space, arith, All,
  Bool-cases, Option-cases, inl, inr, =ᵇ_iff,
}
use backend_pkg.Factoring.Invoices.{ProviderType, InvoiceLine, is_rts}

pub record ProviderRules : Type 0 where
  pub max_records : ℕ
  pub min_submission_gap : ℕ
  pub require_unique_invoice_numbers : Bool
  pub require_positive_amounts : Bool
  pub require_all_fields : Bool
  pub trigger_and_clear : Bool

-- The gap is in nanoseconds.
abbrev rts_rules : ProviderRules
rts_rules = record {
  max_records = 999;
  min_submission_gap = 300000000000;
  require_unique_invoice_numbers = true;
  require_positive_amounts = true;
  require_all_fields = true;
  trigger_and_clear = true;
}

abbrev no_rules : ProviderRules
no_rules = record {
  max_records = 0;
  min_submission_gap = 0;
  require_unique_invoice_numbers = false;
  require_positive_amounts = false;
  require_all_fields = false;
  trigger_and_clear = false;
}

unfoldable pub rules_for : ProviderType → ProviderRules
unfolding is_rts
rules_for pt = if is_rts pt then rts_rules else no_rules

-- The texts of the source, with the amounts and counts that they print.
pub data Reason : Type 0 where
  too_many : ℕ → ℕ → Reason
  duplicate_number blank_number blank_debtor blank_po : Reason
  not_positive : ℤ → Reason

pub record BatchValidationError : Type 0 where
  pub provider_type : ProviderType
  pub invoice_number : Bytes
  pub field : Bytes
  pub reason : Reason

abbrev pub is_blank : Bytes → Bool
is_blank s = trim_space s =ᵇ []

abbrev pub is_positive : ℤ → Bool
is_positive (pos n) = ltb 0 n
is_positive (negsuc n) = false

-- The number of the first invoice whose number was seen before.
first_duplicate : List Bytes → List InvoiceLine → Option Bytes
first_duplicate seen [] = none
first_duplicate seen (inv ∷ invs) =
    let rest = first_duplicate (inv.invoice_number ∷ seen) invs in
    if contains seen inv.invoice_number then some inv.invoice_number else rest

module _ (rules : ProviderRules) (pt : ProviderType) where
  field_error : Bytes → Bytes → Reason → BatchValidationError
  field_error number field reason = record {
    provider_type = pt;
    invoice_number = number;
    field = field;
    reason = reason;
  }

  amount_violation : InvoiceLine → Option BatchValidationError
  unfolding field_error
  amount_violation inv =
      if rules.require_positive_amounts && not (is_positive inv.amount)
      then some (field_error inv.invoice_number (codes "invoice amount") (not_positive inv.amount))
      else none

  line_violation : InvoiceLine → Option BatchValidationError
  unfolding field_error amount_violation
  line_violation inv =
      if rules.require_all_fields && is_blank inv.invoice_number
      then some (field_error [] (codes "invoice number") blank_number)
      else if rules.require_all_fields && is_blank inv.debtor_name
      then some (field_error inv.invoice_number (codes "debtor name") blank_debtor)
      else if rules.require_all_fields && is_blank inv.po_number
      then some (field_error inv.invoice_number (codes "po number") blank_po)
      else amount_violation inv

  first_violation : List InvoiceLine → Option BatchValidationError
  first_violation [] = none
  first_violation (inv ∷ invs) = elim (line_violation inv) [
    | some e ↦ some e
    | none ↦ first_violation invs
  ]

  abbrev duplicate_or : Option Bytes → Option BatchValidationError → Option BatchValidationError
  duplicate_or none rest = rest
  duplicate_or (some number) rest = some (field_error number [] duplicate_number)

  validate_with : List InvoiceLine → Option BatchValidationError
  unfolding first_violation first_duplicate
  validate_with invs =
      if ltb 0 rules.max_records && ltb rules.max_records (length invs)
      then some (field_error [] [] (too_many (length invs) rules.max_records))
      else if rules.require_unique_invoice_numbers
      then duplicate_or (first_duplicate [] invs) (first_violation invs)
      else first_violation invs

unfoldable pub validate_invoices_for_provider :
    ProviderType → List InvoiceLine → Option BatchValidationError
unfolding rules_for validate_with line_violation field_error
validate_invoices_for_provider pt invs = validate_with (rules_for pt) pt invs

-- What RTS accepts, said apart from the code.
abbrev pub IsComplete : InvoiceLine → Type 0
IsComplete inv =
    (is_blank inv.invoice_number ≡ false)
    × (is_blank inv.debtor_name ≡ false)
    × (is_blank inv.po_number ≡ false)
    × (is_positive inv.amount ≡ true)

-- No two invoices have one number.
abbrev pub AreDistinct : List InvoiceLine → Type 0
AreDistinct [] = Unit
AreDistinct (inv ∷ invs) =
    All {A = InvoiceLine} (λ j. inv.invoice_number ≢ j.invoice_number) invs × AreDistinct invs

abbrev AreUnseen : List Bytes → List InvoiceLine → Type 0
AreUnseen seen = All {A = InvoiceLine} (λ j. contains seen j.invoice_number ≡ false)

unseen_cons :
    (n : Bytes) (seen : List Bytes) (invs : List InvoiceLine)
    → AreUnseen (n ∷ seen) invs
      ↔ (All {A = InvoiceLine} (λ j. n ≢ j.invoice_number) invs × AreUnseen seen invs)
unfolding contains
unseen_cons n seen [] = (λ h. (tt, tt), λ h. tt)
unseen_cons n seen (inv ∷ invs) =
    let (to, from) = unseen_cons n seen invs in
    (
      λ h.
          let (rest, old) = to h.1 in
          (
            (λ e. ground (arith, h.0, =ᵇ_iff n inv.invoice_number), rest),
            (ground (arith, h.0), old),
          ),
      λ h. (ground (arith, h.0.0, h.1.0, =ᵇ_iff n inv.invoice_number), from (h.0.1, h.1.1)),
    )

first_duplicate_iff :
    (seen : List Bytes) (invs : List InvoiceLine)
    → (first_duplicate seen invs ≡ none) ↔ (AreUnseen seen invs × AreDistinct invs)
unfolding first_duplicate
first_duplicate_iff seen [] = (λ h. (tt, tt), λ h. refl)
first_duplicate_iff seen (inv ∷ invs) =
    let n = inv.invoice_number in
    let (to, from) = first_duplicate_iff (n ∷ seen) invs in
    let (split, join) = unseen_cons n seen invs in
    elim (Bool-cases (contains seen n)) [
      | inl e ↦ (λ h. absurd (ground arith), λ h. absurd (ground (arith, h.0.0)))
      | inr e ↦ (
        λ h.
            let (unseen, distinct) = to (rw e at h) in
            let (other, old) = split unseen in ((e, old), (other, distinct)),
        λ h. rw e (from (join (h.1.0, h.0.1), h.1.1)),
      )
    ]

all_unseen : (invs : List InvoiceLine) → AreUnseen [] invs
unfolding contains
all_unseen [] = tt
all_unseen (inv ∷ invs) = (refl, all_unseen invs)

line_violation_iff :
    (pt : ProviderType) (inv : InvoiceLine)
    → (line_violation rts_rules pt inv ≡ none) ↔ IsComplete inv
unfolding line_violation
line_violation_iff pt inv =
    (λ h. (ground arith, ground arith, ground arith, ground arith), λ h. ground arith)

first_violation_iff :
    (pt : ProviderType) (invs : List InvoiceLine)
    → (first_violation rts_rules pt invs ≡ none) ↔ All IsComplete invs
unfolding first_violation
first_violation_iff pt [] = (λ h. tt, λ h. refl)
first_violation_iff pt (inv ∷ invs) =
    let (to, from) = line_violation_iff pt inv in
    let (rest, back) = first_violation_iff pt invs in
    elim (Option-cases (line_violation rts_rules pt inv)) [
      | inl e ↦ (λ h. (to e, rest (ground arith)), λ h. let r = back h.1 in ground arith)
      | inr (v, e) ↦ (λ h. absurd (ground arith), λ h. absurd (ground (arith, from h.0)))
    ]

-- A batch for RTS passes exactly if it has at most 999 invoices, no two with one number, each with its
-- fields filled in and an amount above zero.
pub validate_invoices_for_provider_iff :
    (pt : ProviderType) (invs : List InvoiceLine)
    → is_rts pt ≡ true
    → (validate_invoices_for_provider pt invs ≡ none)
      ↔ ((length invs ≤ 999) × AreDistinct invs × All IsComplete invs)
unfolding validate_invoices_for_provider
validate_invoices_for_provider_iff pt invs h =
    let (to, from) = first_duplicate_iff [] invs in
    let (complete, back) = first_violation_iff pt invs in
    elim (Option-cases (first_duplicate [] invs)) [
      | inl e ↦ (
        λ h'. (ground arith, (to e).1, complete (ground arith)),
        λ h'. let r = back h'.2 in ground (arith, h'.0),
      )
      | inr (number, e) ↦
          (λ h'. absurd (ground arith), λ h'. absurd (ground (arith, from (all_unseen invs, h'.1))))
    ]
