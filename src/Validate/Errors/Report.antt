-- ===== src/Validate/Errors/Report.antt =====
-- What the collector of validate/errors.go reports of a field after many additions.
use backend_pkg.Common.{
  ℕ, ◌==◌, ◌≡◌, refl, ap, sym, ◌∙◌, true, false, List, [], ◌∷◌, ◌++◌, Bytes, ◌=ᵇ◌, Option, none,
  some, lookup, lookup-insert, length, get_elem?, if◌then◌else◌, Bool-cases, Option-cases, inl, inr,
  =ᵇ→eq, =ᵇ_refl, get_or, ==_refl, ==→eq,
}
use mathlib.Core.List.{append-nil, append_assoc}
use backend_pkg.Validate.Errors.{FieldValidationError, ValidationErrors, merged, added, add}
use backend_pkg.Validate.Errors.Fields.{
  IsConsistent, add-IsConsistent, get_elem?-merge_at, get_elem?-append_left, get_elem?-append_last,
}

module _ {V : Type 0} where
  abbrev place_in : List (FieldValidationError V) → Option ℕ → Option (FieldValidationError V)
  place_in es none = none
  place_in es (some i) = get_elem? es i

  -- What is reported of a field.
  abbrev pub error_for : Bytes → ValidationErrors V → Option (FieldValidationError V)
  error_for f ve = place_in ve.errors (lookup f ve.error_map)

  abbrev joined : FieldValidationError V → Option (FieldValidationError V) → FieldValidationError V
  joined new none = new
  joined new (some old) = merged new old

  module _ (f : Bytes) (ve : ValidationErrors V) (new : FieldValidationError V)
      (w : IsConsistent ve) where
    error_for-fresh :
        lookup new.field ve.error_map ≡ none
        → error_for f (added ve new none)
          ≡ (if new.field =ᵇ f then some (joined new (error_for f ve)) else error_for f ve)
    error_for-fresh e =
        let looked = lookup-insert new.field f (length ve.errors) ve.error_map in
        elim (Bool-cases (new.field =ᵇ f)) [
          | inl q ↦
              let same : lookup f ve.error_map ≡ none = rw (← =ᵇ→eq new.field f q) e in
              rw (looked, q, same, get_elem?-append_last ve.errors new) refl
          | inr q ↦ elim (Option-cases (lookup f ve.error_map)) [
            | inl k ↦ rw (looked, q, k) refl
            | inr (j, k) ↦
                let (old, place, _) = w.leads f j k in
                rw (looked, q, k, place, get_elem?-append_left ve.errors j new old place) refl
          ]
        ]

    other_place :
        (i j : ℕ)
        → lookup new.field ve.error_map ≡ some i
        → lookup f ve.error_map ≡ some j
        → new.field =ᵇ f ≡ false
        → (i == j) ≡ false
    other_place i j e k q = elim (Bool-cases (i == j)) [
      | inr d ↦ d
      | inl d ↦
          let here : lookup f ve.error_map ≡ some i = rw (==→eq i j d) k in
          let (old, place, name) = w.leads new.field i e in
          let (old', place', name') = w.leads f i here in
          let one = ap (get_or old) (sym place ∙ place') in
          let fields : new.field ≡ f = sym name ∙ ap (λ x. x.field) one ∙ name' in
          let true_now : (new.field =ᵇ f) ≡ true = rw fields (=ᵇ_refl f) in absurd (cc)
    ]

    error_for-merged :
        (i : ℕ)
        → lookup new.field ve.error_map ≡ some i
        → error_for f (added ve new (some i))
          ≡ (if new.field =ᵇ f then some (joined new (error_for f ve)) else error_for f ve)
    error_for-merged i e = elim (Bool-cases (new.field =ᵇ f)) [
      | inl q ↦
          let same : lookup f ve.error_map ≡ some i = rw (← =ᵇ→eq new.field f q) e in
          let (old, place, _) = w.leads f i same in
          rw (q, same, get_elem?-merge_at i i new ve.errors, place, ==_refl i) refl
      | inr q ↦ elim (Option-cases (lookup f ve.error_map)) [
        | inl k ↦ rw (q, k) refl
        | inr (j, k) ↦
            let (old, place, name) = w.leads f j k in
            let other = other_place i j e k q in
            rw (q, k, get_elem?-merge_at i j new ve.errors, place, other) refl
      ]
    ]

    error_for-add :
        error_for f (add ve new)
        ≡ (if new.field =ᵇ f then some (joined new (error_for f ve)) else error_for f ve)
    unfolding add
    error_for-add = elim (Option-cases (lookup new.field ve.error_map)) [
      | inl e ↦ rw e (error_for-fresh e)
      | inr (i, e) ↦ rw e (error_for-merged i e)
    ]

  -- Errors one after the other.
  unfoldable pub add_all : ValidationErrors V → List (FieldValidationError V) → ValidationErrors V
  add_all ve [] = ve
  add_all ve (e ∷ es) = add_all (add ve e) es

  abbrev pub rules_in : Option (FieldValidationError V) → List Bytes
  rules_in none = []
  rules_in (some e) = e.rules

  abbrev pub messages_in : Option (FieldValidationError V) → List Bytes
  messages_in none = []
  messages_in (some e) = e.messages

  -- The rules and the messages that were added for a field, in their order.
  unfoldable pub all_rules : Bytes → List (FieldValidationError V) → List Bytes
  all_rules f [] = []
  all_rules f (e ∷ es) = if e.field =ᵇ f then e.rules ++ all_rules f es else all_rules f es

  unfoldable pub all_messages : Bytes → List (FieldValidationError V) → List Bytes
  all_messages f [] = []
  all_messages f (e ∷ es) =
      if e.field =ᵇ f then e.messages ++ all_messages f es else all_messages f es

  rules_in-joined :
      (new : FieldValidationError V) (o : Option (FieldValidationError V))
      → (joined new o).rules ≡ rules_in o ++ new.rules
  rules_in-joined new none = refl
  rules_in-joined new (some e) = refl

  messages_in-joined :
      (new : FieldValidationError V) (o : Option (FieldValidationError V))
      → (joined new o).messages ≡ messages_in o ++ new.messages
  messages_in-joined new none = refl
  messages_in-joined new (some e) = refl

  -- A consistent collector reports each field under one entry, which holds the rules and the messages
  -- that it had and those added, in their order; it stays consistent.
  pub add_all_lem :
      (ve : ValidationErrors V) (es : List (FieldValidationError V)) (f : Bytes)
      → IsConsistent ve
      → (rules_in (error_for f (add_all ve es)) ≡ rules_in (error_for f ve) ++ all_rules f es)
        × (messages_in (error_for f (add_all ve es))
            ≡ messages_in (error_for f ve) ++ all_messages f es)
        × IsConsistent (add_all ve es)
  unfolding add_all all_rules all_messages
  add_all_lem ve [] f w = (rw append-nil refl, rw append-nil refl, w)
  add_all_lem ve (e ∷ es) f w =
      let (rules, messages, consistent) = add_all_lem (add ve e) es f (add-IsConsistent ve e w) in
      let step = error_for-add f ve e w in
      elim (Bool-cases (e.field =ᵇ f)) [
        | inl q ↦
            let now : error_for f (add ve e) ≡ some (joined e (error_for f ve)) = rw q at step in
            let r = ap rules_in now ∙ rules_in-joined e (error_for f ve) in
            let m = ap messages_in now ∙ messages_in-joined e (error_for f ve) in
            (
              rw q (
                  rules
                  ∙ ap (λ x. x ++ all_rules f es) r
                  ∙ append_assoc (rules_in (error_for f ve)) e.rules (all_rules f es)),
              rw q (
                  messages
                  ∙ ap (λ x. x ++ all_messages f es) m
                  ∙ append_assoc (messages_in (error_for f ve)) e.messages (all_messages f es)),
              consistent,
            )
        | inr q ↦
            let now : error_for f (add ve e) ≡ error_for f ve = rw q at step in
            (
              rw q (rules ∙ ap (λ x. rules_in x ++ all_rules f es) now),
              rw q (messages ∙ ap (λ x. messages_in x ++ all_messages f es) now),
              consistent,
            )
      ]
