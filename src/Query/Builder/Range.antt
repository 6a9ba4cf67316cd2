-- ===== src/Query/Builder/Range.antt =====
-- What the filters on numbers and times of tmsdb/filter.go ask of a column's value.
use backend_pkg.Common.{
  ◌≡◌, refl, ◌∙◌, Bool, true, false, ◌&&◌, ◌||◌, not, List, [], ◌∷◌, ◌++◌, Bytes, codes, Option,
  none, some, arith, is_some,
}
use backend_pkg.Query.Gorm.{Gorm, Truth, is_yes}
use backend_pkg.Query.Filters.{RangeFilter}
use backend_pkg.Query.Builder.{where_some, where_many, where_null, range}

-- NULL satisfies no comparison.
abbrev pub holds_for : {A : Type 0} → Option A → (A → Bool) → Bool
holds_for none p = false
holds_for (some v) p = p v

abbrev pub asked : {A : Type 0} → (A → Bool) → Option A → Bool
asked p none = true
asked p (some a) = p a

-- An empty list asks for nothing.
abbrev pub asked_of : {A : Type 0} → (List A → Bool) → List A → Bool
asked_of p [] = true
asked_of p (x ∷ xs) = p (x ∷ xs)

abbrev pub same : Bool → Bool → Bool
same true b = b
same false b = not b

module _ {A : Type 0} (eq lt le : A → A → Bool) where
  abbrev pub among : List A → A → Bool
  among [] v = false
  among (x ∷ xs) v = eq v x || among xs v

  -- A value fits if each comparison that the filter names holds for it, and it is NULL or not as asked.
  abbrev pub fits : RangeFilter A → Option A → Bool
  fits f value =
      asked (λ a. holds_for value (λ v. eq v a)) f.equals
      && (asked (λ a. holds_for value (λ v. not (eq v a))) f.ne
          && (asked (λ a. holds_for value (λ v. lt v a)) f.lt
              && (asked (λ a. holds_for value (λ v. le v a)) f.lte
                  && (asked (λ a. holds_for value (λ v. lt a v)) f.gt
                      && (asked (λ a. holds_for value (λ v. le a v)) f.gte
                          && (asked_of (λ xs. holds_for value (λ v. among xs v)) f.in_list
                              && (asked_of (λ xs. holds_for value (λ v. not (among xs v))) f.not_in
                                  && asked (same (not (is_some value))) f.is_null)))))))

  module _ (g : Gorm) (one : A → g.Arg) (many : List A → g.Arg) (col : Bytes) where
    open g use {DB, Arg, passes, takes_and, passes-where_sql, takes_and-where_sql}

    -- What the operators of SQL are documented to mean, on a row whose column has this value.
    pub record HasValue (meets : Bytes → List Arg → Truth) (value : Option A) : Type 0 where
      pub equal :
          (a : A)
          → is_yes (meets (col ++ codes " = ?") (one a ∷ [])) ≡ holds_for value (λ v. eq v a)
      pub unequal :
          (a : A)
          → is_yes (meets (col ++ codes " != ?") (one a ∷ [])) ≡ holds_for value (λ v. not (eq v a))
      pub below :
          (a : A)
          → is_yes (meets (col ++ codes " < ?") (one a ∷ [])) ≡ holds_for value (λ v. lt v a)
      pub at_most :
          (a : A)
          → is_yes (meets (col ++ codes " <= ?") (one a ∷ [])) ≡ holds_for value (λ v. le v a)
      pub above :
          (a : A)
          → is_yes (meets (col ++ codes " > ?") (one a ∷ [])) ≡ holds_for value (λ v. lt a v)
      pub at_least :
          (a : A)
          → is_yes (meets (col ++ codes " >= ?") (one a ∷ [])) ≡ holds_for value (λ v. le a v)
      pub one_of :
          (xs : List A)
          → is_yes (meets (col ++ codes " IN ?") (many xs ∷ [])) ≡ holds_for value (λ v. among xs v)
      pub none_of :
          (xs : List A)
          → is_yes (meets (col ++ codes " NOT IN ?") (many xs ∷ []))
            ≡ holds_for value (λ v. not (among xs v))
      pub null : is_yes (meets (col ++ codes " IS NULL") []) ≡ not (is_some value)
      pub not_null : is_yes (meets (col ++ codes " IS NOT NULL") []) ≡ is_some value

    module _ (meets : Bytes → List Arg → Truth) where
      -- A statement that takes further conditions and lets the row through or not.
      abbrev Lets : DB → Bool → Type 0
      Lets d b = (takes_and d ≡ true) × (passes d meets ≡ b)

      where_some-Lets :
          (sql : Bytes) (o : Option A) (p : A → Bool) (d : DB) (b : Bool)
          → Lets d b
          → ((a : A) → is_yes (meets sql (one a ∷ [])) ≡ p a)
          → Lets (where_some g one sql o d) (b && asked p o)
      unfolding where_some
      where_some-Lets sql none p d b (joins, e) h = (joins, ground (arith, e))
      where_some-Lets sql (some a) p d b (joins, e) h = (
        takes_and-where_sql d sql (one a ∷ []) ∙ joins,
        ground (arith, passes-where_sql d sql (one a ∷ []) meets joins, h a, e),
      )

      where_many-Lets :
          (sql : Bytes) (xs : List A) (p : List A → Bool) (d : DB) (b : Bool)
          → Lets d b
          → ((ys : List A) → is_yes (meets sql (many ys ∷ [])) ≡ p ys)
          → Lets (where_many g many sql xs d) (b && asked_of p xs)
      unfolding where_many
      where_many-Lets sql [] p d b (joins, e) h = (joins, ground (arith, e))
      where_many-Lets sql (x ∷ xs) p d b (joins, e) h = (
        takes_and-where_sql d sql (many (x ∷ xs) ∷ []) ∙ joins,
        ground (arith, passes-where_sql d sql (many (x ∷ xs) ∷ []) meets joins, h (x ∷ xs), e),
      )

      module _ (value : Option A) (h : HasValue meets value) where
        where_null-Lets :
            (o : Option Bool) (d : DB) (b : Bool)
            → Lets d b
            → Lets (where_null g col o d) (b && asked (same (not (is_some value))) o)
        unfolding where_null
        where_null-Lets none d b (joins, e) = (joins, ground (arith, e))
        where_null-Lets (some true) d b (joins, e) = (
          takes_and-where_sql d (col ++ codes " IS NULL") [] ∙ joins,
          ground (arith, passes-where_sql d (col ++ codes " IS NULL") [] meets joins, h.null, e),
        )
        where_null-Lets (some false) d b (joins, e) = (
          takes_and-where_sql d (col ++ codes " IS NOT NULL") [] ∙ joins,
          ground (
            arith,
            passes-where_sql d (col ++ codes " IS NOT NULL") [] meets joins,
            h.not_null,
            e,
          ),
        )

        and_regroup : (a b c : Bool) → ((a && b) && c) ≡ (a && (b && c))
        and_regroup true b c = refl
        and_regroup false b c = refl

        -- On a statement to which conditions are joined by AND, a filter on a number or a time lets a row
        -- through exactly if it passed before and the value of the column fits the filter: every
        -- comparison that is named holds for it, where NULL satisfies none, and it is NULL or not as asked.
        pub passes-range :
            (f : RangeFilter A) (d : DB)
            → takes_and d ≡ true
            → passes (range g one many col f d) meets ≡ (passes d meets && fits f value)
        unfolding range
        passes-range f d joins =
            let s1 =
              where_some-Lets (col ++ codes " = ?") f.equals _ d (passes d meets) (joins, refl)
                h.equal in
            let s2 = where_some-Lets (col ++ codes " != ?") f.ne _ _ _ s1 h.unequal in
            let s3 = where_some-Lets (col ++ codes " < ?") f.lt _ _ _ s2 h.below in
            let s4 = where_some-Lets (col ++ codes " <= ?") f.lte _ _ _ s3 h.at_most in
            let s5 = where_some-Lets (col ++ codes " > ?") f.gt _ _ _ s4 h.above in
            let s6 = where_some-Lets (col ++ codes " >= ?") f.gte _ _ _ s5 h.at_least in
            let s7 = where_many-Lets (col ++ codes " IN ?") f.in_list _ _ _ s6 h.one_of in
            let s8 = where_many-Lets (col ++ codes " NOT IN ?") f.not_in _ _ _ s7 h.none_of in
            let s9 = where_null-Lets f.is_null _ _ s8 in s9.1 ∙ simp and_regroup
