-- ===== src/Query/Logical.antt =====
-- tmsdb/filter.go: search and the logical operators. A function that changes the builder returns the
-- new one. Which table or model a group inherits is left out: it does not change the conditions.
pub mod Apply
use backend_pkg.Common.{
  ℕ, ◌≡◌, Bool, true, false, ◌&&◌, ◌||◌, List, [], ◌∷◌, ◌++◌, Bytes, codes, ◌=ᵇ◌, if◌then◌else◌,
  Option, none, some, arith, All, map,
}
use backend_pkg.Query.Gorm.{Gorm, Truth, is_yes}
use backend_pkg.Query.Builder.{FilterBuilder, surround}

module _ (g : Gorm) where
  open g use {
    DB, Arg, text, fresh, where_sql, where_db, or_sql, or_db, not_db, passes, blank, passes-fresh,
    passes-where_sql, passes-where_db, passes-or_db, passes-or_sql, blank-or_db, blank-or_sql,
    blank-where_sql, passes-not_db, takes_and, takes_and-fresh, refutes,
  }

  abbrev Condition : Type 0
  Condition = FilterBuilder g → FilterBuilder g

  -- The builder that a condition of a group is given.
  abbrev sub_builder : FilterBuilder g → FilterBuilder g
  sub_builder fb = record { db = fresh fb.db; max_limit = fb.max_limit; default_order = [] }

  search_rest : Bytes → List Bytes → DB → DB
  search_rest pattern [] query = query
  search_rest pattern (col ∷ cols) query =
      search_rest pattern cols (or_sql query (col ++ codes " ILIKE ?") (text pattern ∷ []))

  search_columns : FilterBuilder g → Bytes → List Bytes → FilterBuilder g
  unfolding search_rest
  search_columns fb term [] = fb
  search_columns fb term (col ∷ cols) =
      let pattern = surround g term in
      let query = where_sql (fresh fb.db) (col ++ codes " ILIKE ?") (text pattern ∷ []) in
      record fb { db = where_db fb.db (search_rest pattern cols query) }

  pub search : FilterBuilder g → Option Bytes → List Bytes → FilterBuilder g
  unfolding search_columns
  search fb none columns = fb
  search fb (some term) columns = if term =ᵇ [] then fb else search_columns fb term columns

  or_rest : FilterBuilder g → List Condition → DB → DB
  or_rest fb [] result = result
  or_rest fb (c ∷ cs) result = or_rest fb cs (or_db result (c (sub_builder fb)).db)

  pub or_group : FilterBuilder g → List Condition → FilterBuilder g
  unfolding or_rest
  or_group fb [] = fb
  or_group fb (c ∷ cs) = record fb { db = where_db fb.db (or_rest fb cs (c (sub_builder fb)).db) }

  and_group : FilterBuilder g → List Condition → FilterBuilder g
  and_group fb [] = fb
  and_group fb (c ∷ cs) = and_group (record fb { db = where_db fb.db (c (sub_builder fb)).db }) cs

  pub not_group : FilterBuilder g → Condition → FilterBuilder g
  not_group fb c = record fb { db = not_db fb.db (c (sub_builder fb)).db }

  module _ {T : Type 0} (apply_fn : FilterBuilder g → T → FilterBuilder g) where
    apply_all : List T → Condition
    apply_all [] b = b
    apply_all (w ∷ ws) b = apply_all ws (apply_fn b w)

    apply_or : FilterBuilder g → List T → FilterBuilder g
    apply_or fb [] = fb
    apply_or fb (w ∷ ws) = or_group fb (map (λ v b. apply_fn b v) (w ∷ ws))

    apply_and : FilterBuilder g → List T → FilterBuilder g
    unfolding apply_all
    apply_and fb [] = fb
    apply_and fb (w ∷ ws) = and_group fb (apply_all (w ∷ ws) ∷ [])

    apply_not : FilterBuilder g → Option T → FilterBuilder g
    apply_not fb none = fb
    apply_not fb (some w) = not_group fb (λ b. apply_fn b w)

    pub apply_logical : FilterBuilder g → List T → List T → Option T → FilterBuilder g
    unfolding apply_or apply_and apply_not
    apply_logical fb or_list and_list not_one =
        apply_not (apply_and (apply_or fb or_list) and_list) not_one

  -- Rows that pass a condition on its own.
  abbrev pub alone : FilterBuilder g → Condition → (Bytes → List Arg → Truth) → Bool
  alone fb c meets = passes (c (sub_builder fb)).db meets

  abbrev pub any_alone : FilterBuilder g → List Condition → (Bytes → List Arg → Truth) → Bool
  any_alone fb [] meets = false
  any_alone fb (c ∷ cs) meets = alone fb c meets || any_alone fb cs meets

  abbrev all_alone : FilterBuilder g → List Condition → (Bytes → List Arg → Truth) → Bool
  all_alone fb [] meets = true
  all_alone fb (c ∷ cs) meets = alone fb c meets && all_alone fb cs meets

  abbrev HasConditions : FilterBuilder g → List Condition → Type 0
  HasConditions fb cs = All (λ c. blank (c (sub_builder fb)).db ≡ false) cs

  or_rest_lem :
      (fb : FilterBuilder g) (cs : List Condition) (d : DB) (meets : Bytes → List Arg → Truth)
      → blank d ≡ false
      → HasConditions fb cs
      → (passes (or_rest fb cs d) meets ≡ (passes d meets || any_alone fb cs meets))
        × (blank (or_rest fb cs d) ≡ false)
  unfolding or_rest
  or_rest_lem fb [] d meets h k = ground arith
  or_rest_lem fb (c ∷ cs) d meets h (k, ks) = ground (
    arith,
    or_rest_lem fb cs (or_db d (c (sub_builder fb)).db) meets
        (blank-or_db d (c (sub_builder fb)).db h) ks,
    passes-or_db d (c (sub_builder fb)).db meets h k,
  )

  passes-or_group :
      (fb : FilterBuilder g) (c : Condition) (cs : List Condition)
      (meets : Bytes → List Arg → Truth)
      → takes_and fb.db ≡ true
      → HasConditions fb (c ∷ cs)
      → passes (or_group fb (c ∷ cs)).db meets ≡ (passes fb.db meets && any_alone fb (c ∷ cs) meets)
  unfolding or_group
  passes-or_group fb c cs meets joins (h, hs) =
      let (e, b) = or_rest_lem fb cs (c (sub_builder fb)).db meets h hs in
      ground (arith, passes-where_db fb.db (or_rest fb cs (c (sub_builder fb)).db) meets joins b, e)

  passes-and_one :
      (fb : FilterBuilder g) (c : Condition) (meets : Bytes → List Arg → Truth)
      → takes_and fb.db ≡ true
      → blank (c (sub_builder fb)).db ≡ false
      → passes (and_group fb (c ∷ [])).db meets ≡ (passes fb.db meets && alone fb c meets)
  unfolding and_group
  passes-and_one fb c meets joins h = passes-where_db fb.db (c (sub_builder fb)).db meets joins h

  passes-not_group :
      (fb : FilterBuilder g) (c : Condition) (meets : Bytes → List Arg → Truth)
      → takes_and fb.db ≡ true
      → blank (c (sub_builder fb)).db ≡ false
      → passes (not_group fb c).db meets
        ≡ (passes fb.db meets && refutes (c (sub_builder fb)).db meets)
  unfolding not_group
  passes-not_group fb c meets joins h = passes-not_db fb.db (c (sub_builder fb)).db meets joins h

  -- The columns of a search.
  abbrev pub any_column : Bytes → List Bytes → (Bytes → List Arg → Truth) → Bool
  any_column pattern [] meets = false
  any_column pattern (col ∷ cols) meets =
      is_yes (meets (col ++ codes " ILIKE ?") (text pattern ∷ [])) || any_column pattern cols meets

  search_rest_lem :
      (pattern : Bytes) (cols : List Bytes) (d : DB) (meets : Bytes → List Arg → Truth)
      → blank d ≡ false
      → (passes (search_rest pattern cols d) meets
          ≡ (passes d meets || any_column pattern cols meets))
        × (blank (search_rest pattern cols d) ≡ false)
  unfolding search_rest
  search_rest_lem pattern [] d meets h = ground arith
  search_rest_lem pattern (col ∷ cols) d meets h =
      let sql = col ++ codes " ILIKE ?" in
      let args = text pattern ∷ [] in
      ground (
        arith,
        search_rest_lem pattern cols (or_sql d sql args) meets (blank-or_sql d sql args),
        passes-or_sql d sql args meets h,
      )

  -- A search for a term that is not blank lets a row through that passed before and has the term in
  -- one of the columns.
  passes-search :
      (fb : FilterBuilder g) (c : ℕ) (t : Bytes) (col : Bytes) (cols : List Bytes)
      (meets : Bytes → List Arg → Truth)
      → takes_and fb.db ≡ true
      → passes (search fb (some (c ∷ t)) (col ∷ cols)).db meets
        ≡ (passes fb.db meets && any_column (surround g (c ∷ t)) (col ∷ cols) meets)
  unfolding search ◌=ᵇ◌
  passes-search fb c t col cols meets joins =
      let sql = col ++ codes " ILIKE ?" in
      let args = text (surround g (c ∷ t)) ∷ [] in
      let first = where_sql (fresh fb.db) sql args in
      let (e, b) =
        search_rest_lem (surround g (c ∷ t)) cols first meets
          (blank-where_sql (fresh fb.db) sql args) in
      ground (
        arith,
        passes-where_db fb.db (search_rest (surround g (c ∷ t)) cols first) meets joins b,
        e,
        passes-where_sql (fresh fb.db) sql args meets (takes_and-fresh fb.db),
        passes-fresh fb.db meets,
      )
