-- ===== src/Publish/Changes/Exact.antt =====
-- Which changes tmsdb/gorm_tm.go finds between two values of a struct.
use backend_pkg.Common.{
  ℕ, zero, suc, ◌+◌, ◌≡◌, ◌≢◌, ◌↔◌, codes, =ᵇ_iff, refl, ap, sym, ◌∙◌, subst, Bool, true, false,
  List, [], ◌∷◌, Bytes, ◌=ᵇ◌, =ᵇ→eq, =ᵇ_refl, some, get_elem?, All, Any, arith, Bool-cases, inl,
  inr,
}
use backend_pkg.Publish.Changes.{
  StructField, StructValue, struct_value, Change, is_tracked, is_association_field, field_name,
  changes_from, calculate_changes,
}

abbrev pub IsAudited : StructField → Type 0
IsAudited f =
    (f.exported ≡ true) × (f.json_tag ≢ codes "-") × (is_association_field f.field_type ≡ false)

is_tracked_iff : (f : StructField) → (is_tracked f ≡ true) ↔ IsAudited f
unfolding is_tracked
is_tracked_iff f = (
  λ h. (ground arith, λ e. absurd (ground (arith, =ᵇ_iff f.json_tag (codes "-"))), ground arith),
  λ (e, t, a). elim (Bool-cases (f.json_tag =ᵇ codes "-")) [
    | inl same ↦ absurd (t (=ᵇ→eq f.json_tag (codes "-") same))
    | inr other ↦ rw (e, other, a) refl
  ],
)

module _ (V : Type 0) (deep_equal : V → V → Bool) (fields_of : Bytes → List StructField) where
  abbrev pub change_at : StructField → (ℕ → V) → (ℕ → V) → ℕ → Change V
  change_at f old new i = record { field = field_name f; old_value = old i; new_value = new i }

  -- The change is that of a tracked field whose values differ; `i` is the position of the first field.
  abbrev IsGenuine : ℕ → List StructField → (ℕ → V) → (ℕ → V) → Change V → Type 0
  IsGenuine i fs old new c =
      (j : ℕ) × (f : StructField) × (get_elem? fs j ≡ some f)
      × (is_tracked f ≡ true)
      × (deep_equal (old (i + j)) (new (i + j)) ≡ false)
      × (c ≡ change_at f old new (i + j))

  later :
      (i : ℕ) (g : StructField) (fs : List StructField) (old new : ℕ → V) (c : Change V)
      → IsGenuine (suc i) fs old new c
      → IsGenuine i (g ∷ fs) old new c
  later i g fs old new c (j, f, at, tracked, differ, e) =
      let shift : suc i + j ≡ i + suc j = omega arith in
      (
        suc j,
        f,
        at,
        tracked,
        subst (λ k. deep_equal (old k) (new k) ≡ false) shift differ,
        subst (λ k. c ≡ change_at f old new k) shift e,
      )

  All-later :
      (i : ℕ) (g : StructField) (fs : List StructField) (old new : ℕ → V) (cs : List (Change V))
      → All (IsGenuine (suc i) fs old new) cs
      → All (IsGenuine i (g ∷ fs) old new) cs
  All-later i g fs old new [] h = tt
  All-later i g fs old new (c ∷ cs) (h, hs) =
      (later i g fs old new c h, All-later i g fs old new cs hs)

  changes_from_genuine :
      (i : ℕ) (fs : List StructField) (old new : ℕ → V)
      → All (IsGenuine i fs old new) (changes_from V deep_equal fields_of i fs old new)
  unfolding changes_from
  changes_from_genuine i [] old new = tt
  changes_from_genuine i (f ∷ fs) old new =
      let rest =
        All-later i f fs old new (changes_from V deep_equal fields_of (suc i) fs old new)
          (changes_from_genuine (suc i) fs old new) in
      elim (Bool-cases (is_tracked f)) [
        | inr e ↦ rw e rest
        | inl e ↦ elim (Bool-cases (deep_equal (old i) (new i))) [
          | inl same ↦ rw (e, same) rest
          | inr differ ↦
              let here : i ≡ i + 0 = omega arith in
              rw (e, differ)
                (
                  (
                    0,
                    f,
                    refl,
                    e,
                    subst (λ k. deep_equal (old k) (new k) ≡ false) here differ,
                    ap (change_at f old new) here,
                  ),
                  rest,
                )
        ]
      ]

  abbrev Found : ℕ → List StructField → (ℕ → V) → (ℕ → V) → StructField → ℕ → Type 0
  Found i fs old new f k =
      Any (λ c. c ≡ change_at f old new k) (changes_from V deep_equal fields_of i fs old new)

  Found-first :
      (i : ℕ) (f : StructField) (fs : List StructField) (old new : ℕ → V)
      → is_tracked f ≡ true
      → deep_equal (old i) (new i) ≡ false
      → Found i (f ∷ fs) old new f i
  unfolding changes_from
  Found-first i f fs old new tracked differ = rw (tracked, differ) (inl refl)

  Found-later :
      (i : ℕ) (g : StructField) (fs : List StructField) (old new : ℕ → V) (f : StructField) (k : ℕ)
      → Found (suc i) fs old new f k
      → Found i (g ∷ fs) old new f k
  unfolding changes_from
  Found-later i g fs old new f k h = elim (Bool-cases (is_tracked g)) [
    | inr e ↦ rw e h
    | inl e ↦ elim (Bool-cases (deep_equal (old i) (new i))) [
      | inl same ↦ rw (e, same) h
      | inr differ ↦ rw (e, differ) (inr h)
    ]
  ]

  changes_from_complete :
      (i : ℕ) (fs : List StructField) (old new : ℕ → V) (j : ℕ) (f : StructField)
      → get_elem? fs j ≡ some f
      → is_tracked f ≡ true
      → deep_equal (old (i + j)) (new (i + j)) ≡ false
      → Found i fs old new f (i + j)
  changes_from_complete i [] old new j f at tracked differ = cc
  changes_from_complete i (g ∷ fs) old new zero f at tracked differ =
      let here : i + 0 ≡ i = omega arith in
      let same : g ≡ f = cc in
      rw here (
        subst (λ h. Found i (h ∷ fs) old new f i) (sym same)
          (Found-first i f fs old new tracked (rw here at differ)))
  changes_from_complete i (g ∷ fs) old new (suc j) f at tracked differ =
      let shift : i + suc j ≡ suc i + j = omega arith in
      rw shift (
        Found-later i g fs old new f (suc i + j)
          (changes_from_complete (suc i) fs old new j f at tracked (rw shift at differ)))

  -- The change of a field that is exported, not left out by its tag, no object, and unequal.
  abbrev pub IsOfUnequal : List StructField → (ℕ → V) → (ℕ → V) → Change V → Type 0
  IsOfUnequal fs old new c =
      (j : ℕ) × (f : StructField) × (get_elem? fs j ≡ some f)
      × IsAudited f
      × (deep_equal (old j) (new j) ≡ false)
      × (c ≡ change_at f old new j)

  from_start :
      (fs : List StructField) (old new : ℕ → V) (cs : List (Change V))
      → All (IsGenuine 0 fs old new) cs
      → All (IsOfUnequal fs old new) cs
  from_start fs old new [] h = tt
  from_start fs old new (c ∷ cs) ((j, f, at, tracked, differ, e), hs) =
      let start : 0 + j ≡ j = omega arith in
      (
        (j, f, at, (is_tracked_iff f).0 tracked, rw start at differ, rw start at e),
        from_start fs old new cs hs,
      )

  -- Between two values of one struct type, every change is that of a field which is exported, not left
  -- out by its tag, no object and unequal, with its name and its two values; and each such field has its
  -- change.
  pub calculate_changes_lem :
      (a b : StructValue V)
      → a.type_name ≡ b.type_name
      → let fields = fields_of a.type_name in
        let cs = calculate_changes V deep_equal fields_of (struct_value a) (struct_value b) in
        All (IsOfUnequal fields a.field b.field) cs
        × ((j : ℕ) (f : StructField)
            → get_elem? fields j ≡ some f
            → IsAudited f
            → deep_equal (a.field j) (b.field j) ≡ false
            → Any (λ c. c ≡ change_at f a.field b.field j) cs)
  unfolding calculate_changes
  calculate_changes_lem a b same =
      let fields = fields_of a.type_name in
      rw (ap (λ n. n =ᵇ b.type_name) same ∙ =ᵇ_refl b.type_name) (
        from_start fields a.field b.field
            (changes_from V deep_equal fields_of 0 fields a.field b.field)
            (changes_from_genuine 0 fields a.field b.field),
        λ j f at audited differ.
            let start : 0 + j ≡ j = omega arith in
            rw start at (
              changes_from_complete 0 fields a.field b.field j f at ((is_tracked_iff f).1 audited)
                (rw start differ)),
      )
