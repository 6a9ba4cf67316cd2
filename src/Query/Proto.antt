-- ===== src/Query/Proto.antt =====
-- tmsdb/proto_convert.go: the filters of the wire format and back. A wire number is 32 bits wide and
-- a wire list may be absent, which reads as the empty list; a wire time is a parameter's, and so is
-- its conversion.
use backend_pkg.Common.{
  ℤ, ◌≡◌, Bool, List, Bytes, ◌=ᵇ◌, if◌then◌else◌, Option, none, some, map, arith,
}
use backend_pkg.Query.Filters.{
  StringFilter, RangeFilter, IntFilter, FloatFilter, DateTimeFilter, BoolFilter, IdFilter,
  mode_default, mode_insensitive,
}

-- `filterspb.QueryMode`: a number, 0 for the default.
pub data ProtoMode : Type 0 where
  query_mode_default query_mode_insensitive query_mode_other : ProtoMode

pub record ProtoStringFilter : Type 0 where
  pub equals : Option Bytes
  pub ne : Option Bytes
  pub in_list : List Bytes
  pub not_in : List Bytes
  pub contains : Option Bytes
  pub starts_with : Option Bytes
  pub ends_with : Option Bytes
  pub like : Option Bytes
  pub regex : Option Bytes
  pub mode : ProtoMode
  pub is_null : Option Bool

record ProtoRangeFilter (A : Type 0) : Type 0 where
  pub equals : Option A
  pub ne : Option A
  pub in_list : List A
  pub not_in : List A
  pub lt : Option A
  pub lte : Option A
  pub gt : Option A
  pub gte : Option A
  pub is_null : Option Bool

record ProtoBoolFilter : Type 0 where
  pub equals : Option Bool
  pub is_null : Option Bool

pub record ProtoIdFilter : Type 0 where
  pub equals : Option Bytes
  pub ne : Option Bytes
  pub in_list : List Bytes
  pub not_in : List Bytes
  pub is_null : Option Bool

abbrev map_option : {A B : Type 0} → (A → B) → Option A → Option B
map_option f none = none
map_option f (some a) = some (f a)

pub mode_of : ProtoMode → Bytes
mode_of query_mode_insensitive = mode_insensitive
mode_of _ = mode_default

convert_string_filter : Option ProtoStringFilter → Option StringFilter
unfolding mode_of
convert_string_filter none = none
convert_string_filter (some pf) = some (record {
  equals = pf.equals;
  ne = pf.ne;
  in_list = pf.in_list;
  not_in = pf.not_in;
  contains = pf.contains;
  starts_with = pf.starts_with;
  ends_with = pf.ends_with;
  like = pf.like;
  regex = pf.regex;
  mode = mode_of pf.mode;
  is_null = pf.is_null;
})

-- The body that the converters of numbers and of times share; `f` reads a value of the wire.
convert_range : {A B : Type 0} → (A → B) → ProtoRangeFilter A → RangeFilter B
convert_range f pf = record {
  equals = map_option f pf.equals;
  ne = map_option f pf.ne;
  in_list = map f pf.in_list;
  not_in = map f pf.not_in;
  lt = map_option f pf.lt;
  lte = map_option f pf.lte;
  gt = map_option f pf.gt;
  gte = map_option f pf.gte;
  is_null = pf.is_null;
}

-- `int(v)` of an `int32` keeps the number.
convert_int_filter : Option (ProtoRangeFilter ℤ) → Option IntFilter
unfolding convert_range
convert_int_filter none = none
convert_int_filter (some pf) = some (convert_range (λ v. v) pf)

module _ {F : Type 0} where
  convert_float_filter : Option (ProtoRangeFilter F) → Option (FloatFilter F)
  unfolding convert_range
  convert_float_filter none = none
  convert_float_filter (some pf) = some (convert_range (λ v. v) pf)

convert_bool_filter : Option ProtoBoolFilter → Option BoolFilter
convert_bool_filter none = none
convert_bool_filter (some pf) = some (record { equals = pf.equals; is_null = pf.is_null })

module _ {Timestamp Time : Type 0} (as_time : Timestamp → Time) where
  convert_date_time_filter : Option (ProtoRangeFilter Timestamp) → Option (DateTimeFilter Time)
  unfolding convert_range
  convert_date_time_filter none = none
  convert_date_time_filter (some pf) = some (convert_range as_time pf)

convert_id_filter : Option ProtoIdFilter → Option IdFilter
convert_id_filter none = none
convert_id_filter (some pf) = some (record {
  equals = pf.equals;
  ne = pf.ne;
  in_list = pf.in_list;
  not_in = pf.not_in;
  is_null = pf.is_null;
})

to_proto_string_filter : Option StringFilter → Option ProtoStringFilter
to_proto_string_filter none = none
to_proto_string_filter (some f) = some (record {
  equals = f.equals;
  ne = f.ne;
  in_list = f.in_list;
  not_in = f.not_in;
  contains = f.contains;
  starts_with = f.starts_with;
  ends_with = f.ends_with;
  like = f.like;
  regex = f.regex;
  mode = if f.mode =ᵇ mode_insensitive then query_mode_insensitive else query_mode_default;
  is_null = f.is_null;
})

to_proto_id_filter : Option IdFilter → Option ProtoIdFilter
to_proto_id_filter none = none
to_proto_id_filter (some f) = some (record {
  equals = f.equals;
  ne = f.ne;
  in_list = f.in_list;
  not_in = f.not_in;
  is_null = f.is_null;
})

-- A mode as the platform reads it: every text but one stands for the default.
abbrev plain_mode : Bytes → Bytes
plain_mode m = if m =ᵇ mode_insensitive then mode_insensitive else mode_default

abbrev pub plain : Option StringFilter → Option StringFilter
plain none = none
plain (some f) = some (record f { mode = plain_mode f.mode })

-- A text filter that was sent and received is the filter, with every mode but the insensitive one
-- replaced by the default; an id filter is the filter itself.
convert-to_proto :
    (f : Option StringFilter) (i : Option IdFilter)
    → (convert_string_filter (to_proto_string_filter f) ≡ plain f)
      × (convert_id_filter (to_proto_id_filter i) ≡ i)
unfolding convert_string_filter to_proto_string_filter convert_id_filter to_proto_id_filter
convert-to_proto f i = ground arith
