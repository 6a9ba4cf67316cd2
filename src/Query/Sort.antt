-- ===== src/Query/Sort.antt =====
-- tmsdb/filter.go: sorting. Only the columns of a whitelist, or the default, reach `ORDER BY`.
use mathlib.Core.List.{append-nil, append_assoc}
use backend_pkg.Common.{
  ℕ, ◌≡◌, refl, sym, ◌∙◌, ap, subst, ◌⊎◌, inl, inr, Bool, true, false, ◌||◌, not, List, [], ◌∷◌,
  ◌++◌, Bytes, codes, ◌==◌, ◌=ᵇ◌, if◌then◌else◌, Option, none, some, arith, All, lookup, lookup→Any,
  Any, upper_byte, Option-cases, Bool-cases,
}
use backend_pkg.Query.Gorm.{Gorm}
use backend_pkg.Query.Filters.{SortOrder, SortInput, order_desc}
use backend_pkg.Query.Builder.{FilterBuilder}

abbrev underscore : ℕ
underscore = b'_'

abbrev upper_first : Bytes → Bytes
upper_first [] = []
upper_first (c ∷ s) = upper_byte c ∷ s

-- The parts of `strings.Split(s, "_")` behind the first, each with its first letter in upper case,
-- joined: the walk over the text knows whether a part begins.
camel : Bool → Bytes → Bytes
camel begins [] = []
camel begins (c ∷ s) =
    let skip = camel true s in
    let copy = (if begins then upper_byte c else c) ∷ camel false s in
    if c == underscore then skip else copy

snake_to_camel : Bytes → Bytes
unfolding camel
snake_to_camel s = camel false s

pub direction : SortOrder → Bytes
direction order = if order =ᵇ order_desc then codes "DESC" else codes "ASC"

pub column_of : Bytes → List (Bytes × Bytes) → Option Bytes
column_of field allowed = elim (lookup field allowed) [
  | some col ↦ some col
  | none ↦ lookup (snake_to_camel field) allowed
]

module _ (g : Gorm) where
  open g use {DB, order, orders, orders-order}

  order_by : FilterBuilder g → Bytes → Option SortOrder → FilterBuilder g
  order_by fb col none = fb
  order_by fb col (some o) = record fb { db = order fb.db (col ++ (codes " " ++ direction o)) }

  order_by_default : FilterBuilder g → Bytes → FilterBuilder g
  order_by_default fb s = record fb { db = order fb.db s }

  -- The loop: the statement, and whether an order was applied. `none` is a nil entry.
  sort_from : List (Option SortInput) → List (Bytes × Bytes) → DB → Bool → DB × Bool
  sort_from [] allowed d applied = (d, applied)
  sort_from (none ∷ ss) allowed d applied = sort_from ss allowed d applied
  sort_from (some s ∷ ss) allowed d applied = elim (column_of s.field allowed) [
    | none ↦ sort_from ss allowed d applied
    | some col ↦ sort_from ss allowed (order d (col ++ (codes " " ++ direction s.order))) true
  ]

  abbrev pub fallback : Bytes → Bytes
  fallback s = if s =ᵇ [] then codes "created_at DESC" else s

  finish : FilterBuilder g → DB × Bool → FilterBuilder g
  finish fb (d, true) = record fb { db = d }
  finish fb (d, false) = record fb { db = order d (fallback fb.default_order) }

  pub apply_sort :
      FilterBuilder g → List (Option SortInput) → List (Bytes × Bytes) → FilterBuilder g
  unfolding sort_from finish
  apply_sort fb sorts allowed = finish fb (sort_from sorts allowed fb.db false)

  -- The orders that the entries of the whitelist give.
  abbrev pub sorts_of : List (Option SortInput) → List (Bytes × Bytes) → List Bytes
  sorts_of [] allowed = []
  sorts_of (none ∷ ss) allowed = sorts_of ss allowed
  sorts_of (some s ∷ ss) allowed = elim (column_of s.field allowed) [
    | none ↦ sorts_of ss allowed
    | some col ↦ (col ++ (codes " " ++ direction s.order)) ∷ sorts_of ss allowed
  ]

  abbrev pub is_nil : List Bytes → Bool
  is_nil [] = true
  is_nil (x ∷ xs) = false

  sort_from_lem :
      (ss : List (Option SortInput)) (allowed : List (Bytes × Bytes)) (d : DB) (applied : Bool)
      → (orders (sort_from ss allowed d applied).0 ≡ orders d ++ sorts_of ss allowed)
        × ((sort_from ss allowed d applied).1 ≡ (applied || not (is_nil (sorts_of ss allowed))))
  unfolding sort_from
  sort_from_lem [] allowed d true = (sym (append-nil (orders d)), refl)
  sort_from_lem [] allowed d false = (sym (append-nil (orders d)), refl)
  sort_from_lem (none ∷ ss) allowed d applied = sort_from_lem ss allowed d applied
  sort_from_lem (some s ∷ ss) allowed d applied = elim (Option-cases (column_of s.field allowed)) [
    | inl e ↦ ground (arith, e, sort_from_lem ss allowed d applied)
    | inr (col, e) ↦
        let by = col ++ (codes " " ++ direction s.order) in
        ground (
          arith,
          e,
          sort_from_lem ss allowed (order d by) true,
          orders-order d by,
          append_assoc (orders d) (by ∷ []) (sorts_of ss allowed),
        )
  ]

  -- An order that names a column of the whitelist, in one of the two directions.
  abbrev pub IsWhitelisted : List (Bytes × Bytes) → Bytes → Type 0
  IsWhitelisted allowed o =
      Any {A = Bytes × Bytes} (λ e. (o ≡ e.1 ++ codes " ASC") ⊎ (o ≡ e.1 ++ codes " DESC")) allowed

  direction-cases :
      (col : Bytes) (o : SortOrder)
      → (col ++ (codes " " ++ direction o) ≡ col ++ codes " ASC")
        ⊎ (col ++ (codes " " ++ direction o) ≡ col ++ codes " DESC")
  unfolding direction
  direction-cases col o = elim (Bool-cases (o =ᵇ order_desc)) [
    | inl e ↦ inr (rw e refl)
    | inr e ↦ inl (rw e refl)
  ]

  found-IsWhitelisted :
      (allowed : List (Bytes × Bytes)) (key col : Bytes) (o : SortOrder)
      → Any {A = Bytes × Bytes} (λ e. (e.0 ≡ key) × (e.1 ≡ col)) allowed
      → IsWhitelisted allowed (col ++ (codes " " ++ direction o))
  found-IsWhitelisted [] key col o h = absurd h
  found-IsWhitelisted ((k, c) ∷ allowed) key col o (inl e) = inl (rw e.1 (direction-cases col o))
  found-IsWhitelisted ((k, c) ∷ allowed) key col o (inr h) =
      inr (found-IsWhitelisted allowed key col o h)

  column_of-IsWhitelisted :
      (field : Bytes) (allowed : List (Bytes × Bytes)) (col : Bytes) (o : SortOrder)
      → column_of field allowed ≡ some col
      → IsWhitelisted allowed (col ++ (codes " " ++ direction o))
  unfolding column_of
  column_of-IsWhitelisted field allowed col o h = elim (Option-cases (lookup field allowed)) [
    | inl e ↦
        found-IsWhitelisted allowed (snake_to_camel field) col o
          (lookup→Any (snake_to_camel field) allowed col (ground arith))
    | inr (c, e) ↦
        found-IsWhitelisted allowed field col o (lookup→Any field allowed col (ground arith))
  ]

  sorts_of-skip :
      (s : SortInput) (ss : List (Option SortInput)) (allowed : List (Bytes × Bytes))
      → column_of s.field allowed ≡ none
      → sorts_of (some s ∷ ss) allowed ≡ sorts_of ss allowed
  sorts_of-skip s ss allowed e = ground arith

  sorts_of-take :
      (s : SortInput) (ss : List (Option SortInput)) (allowed : List (Bytes × Bytes)) (col : Bytes)
      → column_of s.field allowed ≡ some col
      → sorts_of (some s ∷ ss) allowed
        ≡ (col ++ (codes " " ++ direction s.order)) ∷ sorts_of ss allowed
  sorts_of-take s ss allowed col e = ground arith

  sorts_of-IsWhitelisted :
      (ss : List (Option SortInput)) (allowed : List (Bytes × Bytes))
      → All (IsWhitelisted allowed) (sorts_of ss allowed)
  sorts_of-IsWhitelisted [] allowed = tt
  sorts_of-IsWhitelisted (none ∷ ss) allowed = sorts_of-IsWhitelisted ss allowed
  sorts_of-IsWhitelisted (some s ∷ ss) allowed = elim (Option-cases (column_of s.field allowed)) [
    | inl e ↦
        subst (All (IsWhitelisted allowed)) (sym (sorts_of-skip s ss allowed e))
          (sorts_of-IsWhitelisted ss allowed)
    | inr (col, e) ↦
        subst (All (IsWhitelisted allowed)) (sym (sorts_of-take s ss allowed col e))
          (column_of-IsWhitelisted s.field allowed col s.order e, sorts_of-IsWhitelisted ss allowed)
  ]

  orders-finish :
      (fb : FilterBuilder g) (p : DB × Bool) (base new : List Bytes)
      → orders p.0 ≡ base ++ new
      → p.1 ≡ not (is_nil new)
      → orders (finish fb p).db
        ≡ base ++ (if is_nil new then fallback fb.default_order ∷ [] else new)
  unfolding finish
  orders-finish fb (d, true) base [] e h = cc
  orders-finish fb (d, true) base (x ∷ new) e h = e
  orders-finish fb (d, false) base [] e h =
      orders-order d (fallback fb.default_order)
      ∙ ap (λ l. l ++ (fallback fb.default_order ∷ [])) (e ∙ append-nil base)
  orders-finish fb (d, false) base (x ∷ new) e h = cc

  -- Sorting adds the orders of the known fields, in their order, and the default order exactly if
  -- there is none. Whatever the input, each order that stems from it names a column of the whitelist
  -- and one of the two directions.
  pub orders-apply_sort :
      (fb : FilterBuilder g) (ss : List (Option SortInput)) (allowed : List (Bytes × Bytes))
      → (orders (apply_sort fb ss allowed).db
          ≡ orders fb.db
            ++ (if is_nil (sorts_of ss allowed)
                then fallback fb.default_order ∷ []
                else sorts_of ss allowed))
        × All (IsWhitelisted allowed) (sorts_of ss allowed)
  unfolding apply_sort
  orders-apply_sort fb ss allowed =
      let (e, h) = sort_from_lem ss allowed fb.db false in
      (
        orders-finish fb (sort_from ss allowed fb.db false) (orders fb.db) (sorts_of ss allowed) e
            h,
        sorts_of-IsWhitelisted ss allowed,
      )
