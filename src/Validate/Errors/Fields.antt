-- ===== src/Validate/Errors/Fields.antt =====
-- The collector of validate/errors.go: its map and its list agree, and each field has what was added.
use backend_pkg.Common.{
  ℕ, zero, suc, ◌≡◌, refl, ap, sym, ◌∙◌, Bool, true, false, List, [], ◌∷◌, ◌++◌, Bytes, ◌=ᵇ◌,
  Option, none, some, lookup, insert, lookup-insert, length, get_elem?, if◌then◌else◌, arith,
  Bool-cases, ◌==◌, ◌⊎◌, get_or, Option-cases, inl, inr, =ᵇ→eq, =ᵇ_refl,
}
use backend_pkg.Validate.Errors.{FieldValidationError, ValidationErrors, merged, merge_at, add}

module _ {V : Type 0} where
  -- The map leads to the error of its field, and every error is found by its field.
  pub record IsConsistent (ve : ValidationErrors V) : Type 0 where
    pub leads :
        (f : Bytes) (i : ℕ)
        → lookup f ve.error_map ≡ some i
        → (e : FieldValidationError V) × (get_elem? ve.errors i ≡ some e) × (e.field ≡ f)
    pub is_found :
        (i : ℕ) (e : FieldValidationError V)
        → get_elem? ve.errors i ≡ some e
        → lookup e.field ve.error_map ≡ some i

  -- What is at a place after a merge.
  abbrev pub at_place :
      Bool
      → FieldValidationError V
      → Option (FieldValidationError V)
      → Option (FieldValidationError V)
  at_place same new none = none
  at_place same new (some e) = some (if same then merged new e else e)

  pub get_elem?-merge_at :
      (i j : ℕ) (new : FieldValidationError V) (es : List (FieldValidationError V))
      → get_elem? (merge_at i new es) j ≡ at_place (i == j) new (get_elem? es j)
  unfolding merge_at
  get_elem?-merge_at i j new [] = refl
  get_elem?-merge_at zero zero new (e ∷ es) = refl
  get_elem?-merge_at zero (suc j) new (e ∷ es) = ground arith
  get_elem?-merge_at (suc i) zero new (e ∷ es) = ground arith
  get_elem?-merge_at (suc i) (suc j) new (e ∷ es) = ground (arith, get_elem?-merge_at i j new es)

  pub get_elem?-append_left :
      (es : List (FieldValidationError V)) (j : ℕ) (new e : FieldValidationError V)
      → get_elem? es j ≡ some e
      → get_elem? (es ++ (new ∷ [])) j ≡ some e
  get_elem?-append_left [] j new e h = cc
  get_elem?-append_left (x ∷ es) zero new e h = h
  get_elem?-append_left (x ∷ es) (suc j) new e h = get_elem?-append_left es j new e h

  get_elem?-append_cases :
      (es : List (FieldValidationError V)) (j : ℕ) (new e : FieldValidationError V)
      → get_elem? (es ++ (new ∷ [])) j ≡ some e
      → (get_elem? es j ≡ some e) ⊎ ((j ≡ length es) × (new ≡ e))
  get_elem?-append_cases [] zero new e h = inr (refl, ap (get_or new) h)
  get_elem?-append_cases [] (suc j) new e h = cc
  get_elem?-append_cases (x ∷ es) zero new e h = inl h
  get_elem?-append_cases (x ∷ es) (suc j) new e h = elim (get_elem?-append_cases es j new e h) [
    | inl k ↦ inl k
    | inr k ↦ inr (omega (arith, k.0), k.1)
  ]

  pub get_elem?-append_last :
      (es : List (FieldValidationError V)) (new : FieldValidationError V)
      → get_elem? (es ++ (new ∷ [])) (length es) ≡ some new
  get_elem?-append_last [] new = refl
  get_elem?-append_last (x ∷ es) new = get_elem?-append_last es new

  at_field :
      (b : Bool) (new e : FieldValidationError V) → (if b then merged new e else e).field ≡ e.field
  at_field true new e = refl
  at_field false new e = refl

  module _ (ve : ValidationErrors V) (new : FieldValidationError V) (w : IsConsistent ve) where
    merged_leads :
        (i : ℕ) (f : Bytes) (j : ℕ)
        → lookup f ve.error_map ≡ some j
        → (e : FieldValidationError V) × (get_elem? (merge_at i new ve.errors) j ≡ some e)
          × (e.field ≡ f)
    merged_leads i f j h =
        let (e, place, name) = w.leads f j h in
        (
          (if i == j then merged new e else e),
          rw (get_elem?-merge_at i j new ve.errors, place) refl,
          at_field (i == j) new e ∙ name,
        )

    merged_is_found :
        (i j : ℕ) (e : FieldValidationError V)
        → get_elem? (merge_at i new ve.errors) j ≡ some e
        → lookup e.field ve.error_map ≡ some j
    merged_is_found i j e h =
        let there = get_elem?-merge_at i j new ve.errors in
        elim (Option-cases (get_elem? ve.errors j)) [
          | inl k ↦
              let gone : get_elem? (merge_at i new ve.errors) j ≡ none = rw k at there in
              absurd (cc)
          | inr (old, k) ↦
              let now : get_elem? (merge_at i new ve.errors) j
                  ≡ some (if i == j then merged new old else old) =
                rw k at there in
              let same = ap (get_or e) (sym now ∙ h) in
              let name : old.field ≡ e.field =
                sym (at_field (i == j) new old) ∙ ap (λ x. x.field) same in
              rw (← name) (w.is_found j old k)
        ]

    inserted_leads :
        (f : Bytes) (j : ℕ)
        → lookup f (insert new.field (length ve.errors) ve.error_map) ≡ some j
        → (e : FieldValidationError V) × (get_elem? (ve.errors ++ (new ∷ [])) j ≡ some e)
          × (e.field ≡ f)
    inserted_leads f j h =
        let looked = lookup-insert new.field f (length ve.errors) ve.error_map in
        elim (Bool-cases (new.field =ᵇ f)) [
          | inl e ↦
              let here : some (length ve.errors) ≡ some j = rw (looked, e) at h in
              let place = ap (get_or 0) here in
              (new, rw (← place) (get_elem?-append_last ve.errors new), =ᵇ→eq new.field f e)
          | inr e ↦
              let (old, place, name) = w.leads f j (rw (looked, e) at h) in
              (old, get_elem?-append_left ve.errors j new old place, name)
        ]

    inserted_is_found :
        lookup new.field ve.error_map ≡ none
        → (j : ℕ) (e : FieldValidationError V) → get_elem? (ve.errors ++ (new ∷ [])) j ≡ some e
        → lookup e.field (insert new.field (length ve.errors) ve.error_map) ≡ some j
    inserted_is_found fresh j e h =
        let looked = lookup-insert new.field e.field (length ve.errors) ve.error_map in
        elim (get_elem?-append_cases ve.errors j new e h) [
          | inl k ↦ elim (Bool-cases (new.field =ᵇ e.field)) [
            | inl q ↦
                let other : lookup new.field ve.error_map ≡ some j =
                  rw (=ᵇ→eq new.field e.field q) (w.is_found j e k) in
                absurd (cc)
            | inr q ↦ rw (looked, q) (w.is_found j e k)
          ]
          | inr (place, same) ↦
              let name : (new.field =ᵇ e.field) ≡ true = rw (← same) (=ᵇ_refl new.field) in
              rw (looked, name, place) refl
        ]

    pub add-IsConsistent : IsConsistent (add ve new)
    unfolding add
    add-IsConsistent = elim (Option-cases (lookup new.field ve.error_map)) [
      | inl e ↦ rw e (record { leads = inserted_leads; is_found = inserted_is_found e })
      | inr (i, e) ↦ rw e (record { leads = merged_leads i; is_found = merged_is_found i })
    ]
