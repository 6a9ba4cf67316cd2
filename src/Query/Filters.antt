-- ===== src/Query/Filters.antt =====
-- tmsdb/filter.go: the filter inputs. A pointer is an `Option`, a slice a list.
use backend_pkg.Common.{ℤ, Bool, List, Bytes, Option, codes}

abbrev QueryMode : Type 0
QueryMode = Bytes

abbrev pub mode_default : QueryMode
mode_default = codes "default"

abbrev pub mode_insensitive : QueryMode
mode_insensitive = codes "insensitive"

abbrev pub SortOrder : Type 0
SortOrder = Bytes

abbrev pub order_asc : SortOrder
order_asc = codes "asc"

abbrev pub order_desc : SortOrder
order_desc = codes "desc"

pub record StringFilter : Type 0 where
  pub equals : Option Bytes
  pub ne : Option Bytes
  pub in_list : List Bytes
  pub not_in : List Bytes
  pub contains : Option Bytes
  pub starts_with : Option Bytes
  pub ends_with : Option Bytes
  pub like : Option Bytes
  pub regex : Option Bytes
  pub mode : QueryMode
  pub is_null : Option Bool

-- The fields that the filters of numbers and of times share.
pub record RangeFilter (A : Type 0) : Type 0 where
  pub equals : Option A
  pub ne : Option A
  pub in_list : List A
  pub not_in : List A
  pub lt : Option A
  pub lte : Option A
  pub gt : Option A
  pub gte : Option A
  pub is_null : Option Bool

abbrev pub IntFilter : Type 0
IntFilter = RangeFilter ℤ

abbrev pub FloatFilter : Type 0 → Type 0
FloatFilter F = RangeFilter F

abbrev pub DateTimeFilter : Type 0 → Type 0
DateTimeFilter T = RangeFilter T

pub record BoolFilter : Type 0 where
  pub equals : Option Bool
  pub is_null : Option Bool

pub record IdFilter : Type 0 where
  pub equals : Option Bytes
  pub ne : Option Bytes
  pub in_list : List Bytes
  pub not_in : List Bytes
  pub is_null : Option Bool

-- The values of a JSON filter stand as the texts that `json.Marshal` gives.
pub record JsonFilter : Type 0 where
  pub equals : Option Bytes
  pub contains : Option Bytes
  pub contained_by : Option Bytes
  pub has_key : Option Bytes
  pub has_keys : List Bytes
  pub has_any_key : List Bytes
  pub is_null : Option Bool

pub record PaginationInput : Type 0 where
  pub page : ℤ
  pub limit : ℤ

pub record Pagination : Type 0 where
  pub page : ℤ
  pub limit : ℤ
  pub total : ℤ
  pub total_pages : ℤ

pub record SortInput : Type 0 where
  pub field : Bytes
  pub order : SortOrder
