-- ===== src/Query/Builder.antt =====
-- tmsdb/filter.go: the methods of the builder that filter one column.
pub mod Range
use backend_pkg.Common.{
  ℕ, ℤ, ◌≡◌, refl, Bool, true, false, ◌&&◌, List, [], ◌∷◌, ◌++◌, Bytes, codes, ◌=ᵇ◌, if◌then◌else◌,
  Option, none, some,
}
use backend_pkg.Query.Gorm.{Gorm}
use backend_pkg.Query.Filters.{
  StringFilter, RangeFilter, IntFilter, FloatFilter, DateTimeFilter, BoolFilter, IdFilter,
  JsonFilter, mode_insensitive,
}

pub record FilterBuilder (g : Gorm) : Type 0 where
  pub db : g.DB
  pub max_limit : ℕ
  pub default_order : Bytes

module _ (g : Gorm) where
  open g use {DB, Arg, text, texts, int, ints, float, floats, time, times, bool, where_sql}

  -- The statement stands for `db.Model(model)`.
  unfoldable pub new_filter_builder : DB → FilterBuilder g
  new_filter_builder d = record { db = d; max_limit = 100; default_order = codes "created_at DESC" }

  set_max_limit : FilterBuilder g → ℕ → FilterBuilder g
  set_max_limit fb n = record fb { max_limit = n }

  set_default_order : FilterBuilder g → Bytes → FilterBuilder g
  set_default_order fb s = record fb { default_order = s }

  -- `if p != nil { db = db.Where(sql, *p) }`.
  pub where_some : {A : Type 0} → (A → Arg) → Bytes → Option A → DB → DB
  where_some box sql none d = d
  where_some box sql (some a) d = where_sql d sql (box a ∷ [])

  -- `if len(xs) > 0 { db = db.Where(sql, xs) }`.
  pub where_many : {A : Type 0} → (List A → Arg) → Bytes → List A → DB → DB
  where_many box sql [] d = d
  where_many box sql (x ∷ xs) d = where_sql d sql (box (x ∷ xs) ∷ [])

  pub where_null : Bytes → Option Bool → DB → DB
  where_null col none d = d
  where_null col (some b) d =
      if b
      then where_sql d (col ++ codes " IS NULL") []
      else where_sql d (col ++ codes " IS NOT NULL") []

  abbrev pub surround : Bytes → Bytes
  surround s = codes "%" ++ (s ++ codes "%")

  pub string : FilterBuilder g → Bytes → Option StringFilter → FilterBuilder g
  string fb col none = fb
  string fb col (some f) =
      let insensitive = f.mode =ᵇ mode_insensitive in
      let like = if insensitive then codes "ILIKE" else codes "LIKE" in
      let regex = if insensitive then codes "~*" else codes "~" in
      let d = where_some text (col ++ codes " = ?") f.equals fb.db in
      let d = where_some text (col ++ codes " != ?") f.ne d in
      let d = where_many texts (col ++ codes " IN ?") f.in_list d in
      let d = where_many texts (col ++ codes " NOT IN ?") f.not_in d in
      let d = where_some (λ s. text (surround s)) (col ++ codes " ILIKE ?") f.contains d in
      let d =
        where_some (λ s. text (s ++ codes "%")) (col ++ (codes " " ++ (like ++ codes " ?")))
          f.starts_with d in
      let d =
        where_some (λ s. text (codes "%" ++ s)) (col ++ (codes " " ++ (like ++ codes " ?")))
          f.ends_with d in
      let d = where_some text (col ++ (codes " " ++ (like ++ codes " ?"))) f.like d in
      let d = where_some text (col ++ (codes " " ++ (regex ++ codes " ?"))) f.regex d in
      record fb { db = where_null col f.is_null d }

  -- The body that `Int`, `Float` and `DateTime` share.
  pub range : {A : Type 0} → (A → Arg) → (List A → Arg) → Bytes → RangeFilter A → DB → DB
  range one many col f d =
      let d = where_some one (col ++ codes " = ?") f.equals d in
      let d = where_some one (col ++ codes " != ?") f.ne d in
      let d = where_some one (col ++ codes " < ?") f.lt d in
      let d = where_some one (col ++ codes " <= ?") f.lte d in
      let d = where_some one (col ++ codes " > ?") f.gt d in
      let d = where_some one (col ++ codes " >= ?") f.gte d in
      let d = where_many many (col ++ codes " IN ?") f.in_list d in
      let d = where_many many (col ++ codes " NOT IN ?") f.not_in d in where_null col f.is_null d

  pub int_filter : FilterBuilder g → Bytes → Option IntFilter → FilterBuilder g
  int_filter fb col none = fb
  int_filter fb col (some f) = record fb { db = range int ints col f fb.db }

  pub float_filter : FilterBuilder g → Bytes → Option (FloatFilter g.Float) → FilterBuilder g
  float_filter fb col none = fb
  float_filter fb col (some f) = record fb { db = range float floats col f fb.db }

  pub date_time : FilterBuilder g → Bytes → Option (DateTimeFilter g.Time) → FilterBuilder g
  date_time fb col none = fb
  date_time fb col (some f) = record fb { db = range time times col f fb.db }

  pub bool_filter : FilterBuilder g → Bytes → Option BoolFilter → FilterBuilder g
  bool_filter fb col none = fb
  bool_filter fb col (some f) =
      let d = where_some bool (col ++ codes " = ?") f.equals fb.db in
      record fb { db = where_null col f.is_null d }

  pub id_filter : FilterBuilder g → Bytes → Option IdFilter → FilterBuilder g
  id_filter fb col none = fb
  id_filter fb col (some f) =
      let d = where_some text (col ++ codes " = ?") f.equals fb.db in
      let d = where_some text (col ++ codes " != ?") f.ne d in
      let d = where_many texts (col ++ codes " IN ?") f.in_list d in
      let d = where_many texts (col ++ codes " NOT IN ?") f.not_in d in
      record fb { db = where_null col f.is_null d }

  uuid : FilterBuilder g → Bytes → Option IdFilter → FilterBuilder g
  uuid fb col f = id_filter fb col f

  pub json : FilterBuilder g → Bytes → Option JsonFilter → FilterBuilder g
  json fb col none = fb
  json fb col (some f) =
      let d = where_some text (col ++ codes " = ?::jsonb") f.equals fb.db in
      let d = where_some text (col ++ codes " @> ?::jsonb") f.contains d in
      let d = where_some text (col ++ codes " <@ ?::jsonb") f.contained_by d in
      let d = where_some text (col ++ codes " ? ?") f.has_key d in
      let d = where_many texts (col ++ codes " ?& ?") f.has_keys d in
      let d = where_many texts (col ++ codes " ?| ?") f.has_any_key d in
      record fb { db = where_null col f.is_null d }

  pub enum :
      FilterBuilder g
      → Bytes
      → Option Bytes
      → Option Bytes
      → List Bytes
      → List Bytes
      → FilterBuilder g
  enum fb col equals ne in_list not_in =
      let d = where_some text (col ++ codes " = ?") equals fb.db in
      let d = where_some text (col ++ codes " != ?") ne d in
      let d = where_many texts (col ++ codes " IN ?") in_list d in
      record fb { db = where_many texts (col ++ codes " NOT IN ?") not_in d }

  unfoldable pub in_ids : FilterBuilder g → Bytes → List Bytes → FilterBuilder g
  in_ids fb col [] = record fb { db = where_sql fb.db (codes "1 = 0") [] }
  in_ids fb col (i ∷ ids) = record fb {
    db = where_sql fb.db (col ++ codes " IN ?") (texts (i ∷ ids) ∷ []);
  }
