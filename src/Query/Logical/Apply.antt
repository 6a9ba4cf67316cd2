-- ===== src/Query/Logical/Apply.antt =====
-- Which rows `ApplyLogical` of tmsdb/filter.go lets through.
use backend_pkg.Common.{
  ◌≡◌, refl, ◌∙◌, Bool, true, false, ◌&&◌, ◌||◌, List, [], ◌∷◌, Bytes, Option, none, some, arith,
  map,
}
use backend_pkg.Query.Gorm.{Gorm, Truth, is_yes, is_no}
use backend_pkg.Query.Builder.{FilterBuilder}
use backend_pkg.Query.Logical.{
  Condition, sub_builder, any_alone, HasConditions, apply_all, apply_or, apply_and, apply_not,
  apply_logical, or_group, and_group, passes-or_group, passes-and_one, passes-not_group,
}

module _ (g : Gorm) {T : Type 0} (apply_fn : FilterBuilder g → T → FilterBuilder g) where
  open g use {
    DB, Arg, passes, refutes, blank, takes_and, passes-fresh, refutes-fresh, takes_and-fresh,
    takes_and-where_db,
  }

  -- A function that adds the condition of an input to a builder: `holds` says what the condition is for
  -- each row, and no input is without one.
  pub record IsConjunct (holds : T → (Bytes → List Arg → Truth) → Truth) : Type 0 where
    pub conjunct :
        (fb : FilterBuilder g) (w : T) (meets : Bytes → List Arg → Truth)
        → takes_and fb.db ≡ true
        → passes (apply_fn fb w).db meets ≡ (passes fb.db meets && is_yes (holds w meets))
    pub refuted :
        (fb : FilterBuilder g) (w : T) (meets : Bytes → List Arg → Truth)
        → takes_and fb.db ≡ true
        → refutes (apply_fn fb w).db meets ≡ (refutes fb.db meets || is_no (holds w meets))
    pub restricts : (fb : FilterBuilder g) (w : T) → blank (apply_fn fb w).db ≡ false
    pub keeps : (fb : FilterBuilder g) (w : T) → takes_and (apply_fn fb w).db ≡ takes_and fb.db

  module _ (holds : T → (Bytes → List Arg → Truth) → Truth) where
    abbrev pub any_holds : List T → (Bytes → List Arg → Truth) → Bool
    any_holds [] meets = false
    any_holds (w ∷ ws) meets = is_yes (holds w meets) || any_holds ws meets

    abbrev pub all_hold : List T → (Bytes → List Arg → Truth) → Bool
    all_hold [] meets = true
    all_hold (w ∷ ws) meets = is_yes (holds w meets) && all_hold ws meets

    -- The three lists of a filter input; an absent one asks for nothing.
    abbrev pub meets_or : List T → (Bytes → List Arg → Truth) → Bool
    meets_or [] meets = true
    meets_or (w ∷ ws) meets = any_holds (w ∷ ws) meets

    abbrev pub meets_not : Option T → (Bytes → List Arg → Truth) → Bool
    meets_not none meets = true
    meets_not (some w) meets = is_no (holds w meets)

    one : T → Condition g
    one w b = apply_fn b w

    module _ (ic : IsConjunct holds) where
      alone_lem :
          (fb : FilterBuilder g) (w : T) (meets : Bytes → List Arg → Truth)
          → (passes (apply_fn (sub_builder g fb) w).db meets ≡ is_yes (holds w meets))
            × (refutes (apply_fn (sub_builder g fb) w).db meets ≡ is_no (holds w meets))
      alone_lem fb w meets =
          let sub = sub_builder g fb in
          let joins : takes_and sub.db ≡ true = takes_and-fresh fb.db in
          (
            ground (arith, ic.conjunct sub w meets joins, passes-fresh fb.db meets),
            ground (arith, ic.refuted sub w meets joins, refutes-fresh fb.db meets),
          )

      any_alone_lem :
          (fb : FilterBuilder g) (ws : List T) (meets : Bytes → List Arg → Truth)
          → any_alone g fb (map (λ v b. apply_fn b v) ws) meets ≡ any_holds ws meets
      any_alone_lem fb [] meets = refl
      any_alone_lem fb (w ∷ ws) meets =
          rw ((alone_lem fb w meets).0, any_alone_lem fb ws meets) refl

      map-HasConditions :
          (fb : FilterBuilder g) (ws : List T) → HasConditions g fb (map (λ v b. apply_fn b v) ws)
      map-HasConditions fb [] = tt
      map-HasConditions fb (w ∷ ws) = (ic.restricts (sub_builder g fb) w, map-HasConditions fb ws)

      passes-apply_or :
          (fb : FilterBuilder g) (ws : List T) (meets : Bytes → List Arg → Truth)
          → takes_and fb.db ≡ true
          → (passes (apply_or g apply_fn fb ws).db meets
              ≡ (passes fb.db meets && meets_or ws meets))
            × (takes_and (apply_or g apply_fn fb ws).db ≡ true)
      unfolding apply_or or_group
      passes-apply_or fb [] meets joins = (ground arith, joins)
      passes-apply_or fb (w ∷ ws) meets joins = (
        ground (
          arith,
          passes-or_group g fb (λ b. apply_fn b w) (map (λ v b. apply_fn b v) ws) meets joins
              (map-HasConditions fb (w ∷ ws)),
          any_alone_lem fb (w ∷ ws) meets,
        ),
        takes_and-where_db fb.db _ ∙ joins,
      )

      passes-apply_all :
          (ws : List T) (fb : FilterBuilder g) (meets : Bytes → List Arg → Truth)
          → takes_and fb.db ≡ true
          → passes (apply_all g apply_fn ws fb).db meets ≡ (passes fb.db meets && all_hold ws meets)
      unfolding apply_all
      passes-apply_all [] fb meets joins = ground arith
      passes-apply_all (w ∷ ws) fb meets joins = ground (
        arith,
        passes-apply_all ws (apply_fn fb w) meets (ic.keeps fb w ∙ joins),
        ic.conjunct fb w meets joins,
      )

      blank-apply_all :
          (w : T) (ws : List T) (fb : FilterBuilder g)
          → blank (apply_all g apply_fn (w ∷ ws) fb).db ≡ false
      unfolding apply_all
      blank-apply_all w [] fb = ic.restricts fb w
      blank-apply_all w (v ∷ ws) fb = blank-apply_all v ws (apply_fn fb w)

      passes-apply_and :
          (fb : FilterBuilder g) (ws : List T) (meets : Bytes → List Arg → Truth)
          → takes_and fb.db ≡ true
          → (passes (apply_and g apply_fn fb ws).db meets
              ≡ (passes fb.db meets && all_hold ws meets))
            × (takes_and (apply_and g apply_fn fb ws).db ≡ true)
      unfolding apply_and and_group
      passes-apply_and fb [] meets joins = (ground arith, joins)
      passes-apply_and fb (w ∷ ws) meets joins = (
        ground (
          arith,
          passes-and_one g fb (apply_all g apply_fn (w ∷ ws)) meets joins
              (blank-apply_all w ws (sub_builder g fb)),
          passes-apply_all (w ∷ ws) (sub_builder g fb) meets (takes_and-fresh fb.db),
          passes-fresh fb.db meets,
        ),
        takes_and-where_db fb.db _ ∙ joins,
      )

      passes-apply_not :
          (fb : FilterBuilder g) (o : Option T) (meets : Bytes → List Arg → Truth)
          → takes_and fb.db ≡ true
          → passes (apply_not g apply_fn fb o).db meets ≡ (passes fb.db meets && meets_not o meets)
      unfolding apply_not
      passes-apply_not fb none meets joins = ground arith
      passes-apply_not fb (some w) meets joins = ground (
        arith,
        passes-not_group g fb (λ b. apply_fn b w) meets joins (ic.restricts (sub_builder g fb) w),
        (alone_lem fb w meets).1,
      )

      -- On a statement to which conditions are joined by AND, so one that is not raw and has no OR at its
      -- top, the logical operators of a filter input let a row through exactly if it passed before, one
      -- of the OR inputs is true for it if there is any, all of the AND inputs are, and the NOT input is
      -- false for it: with a NULL an input may be neither. Each input adds a condition of its own.
      pub passes-apply_logical :
          (fb : FilterBuilder g) (ors ands : List T) (nots : Option T)
          (meets : Bytes → List Arg → Truth)
          → takes_and fb.db ≡ true
          → passes (apply_logical g apply_fn fb ors ands nots).db meets ≡ (
              passes fb.db meets
              && (meets_or ors meets && (all_hold ands meets && meets_not nots meets)))
      unfolding apply_logical
      passes-apply_logical fb ors ands nots meets joins =
          let (e, joins') = passes-apply_or fb ors meets joins in
          let (f, joins'') = passes-apply_and (apply_or g apply_fn fb ors) ands meets joins' in
          ground (
            arith,
            e,
            f,
            passes-apply_not (apply_and g apply_fn (apply_or g apply_fn fb ors) ands) nots meets
                joins'',
          )
