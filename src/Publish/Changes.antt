-- ===== src/Publish/Changes.antt =====
-- tmsdb/gorm_tm.go: the fields of two values of a struct that differ. The fields of a type, what they
-- hold and reflect.DeepEqual come from outside.
pub mod Exact
use backend_pkg.Common.{
  ℕ, suc, ◌≡◌, refl, Bool, true, false, ◌&&◌, ◌||◌, not, List, [], ◌∷◌, Bytes, codes, ◌=ᵇ◌,
  if◌then◌else◌, Option, none, some, split_on, get_or, get_elem?,
}

-- A struct type is told by its name; `plain` stands for the other kinds.
pub data FieldType : Type 0 where
  struct_type : Bytes → FieldType
  pointer_to slice_of array_of : FieldType → FieldType
  map_type uint8 plain : FieldType

abbrev time_type : Bytes
time_type = codes "time.Time"

-- `for t.Kind() == reflect.Ptr { t = t.Elem() }`.
unfoldable pub target : FieldType → FieldType
target (pointer_to t) = target t
target (struct_type n) = struct_type n
target (slice_of t) = slice_of t
target (array_of t) = array_of t
target map_type = map_type
target uint8 = uint8
target plain = plain

abbrev is_struct : FieldType → Bool
is_struct (struct_type n) = true
is_struct t = false

-- Behind the pointers.
abbrev holds_object : FieldType → Bool
holds_object (struct_type n) = not (n =ᵇ time_type)
holds_object (slice_of t) = is_struct (target t)
holds_object (array_of t) = is_struct (target t)
holds_object map_type = true
holds_object (pointer_to t) = false
holds_object uint8 = false
holds_object plain = false

unfoldable pub is_association_field : FieldType → Bool
unfolding target
is_association_field t = holds_object (target t)

pub record StructField : Type 0 where
  pub name : Bytes
  pub exported : Bool
  pub json_tag : Bytes
  pub field_type : FieldType

abbrev pub comma : ℕ
comma = b','

-- The name in the tag up to the comma, if there is a tag.
unfoldable pub field_name : StructField → Bytes
unfolding split_on ◌=ᵇ◌
field_name f =
    if f.json_tag =ᵇ [] then f.name else get_or [] (get_elem? (split_on comma f.json_tag) 0)

unfoldable pub is_tracked : StructField → Bool
unfolding is_association_field ◌=ᵇ◌
is_tracked f = f.exported && not (f.json_tag =ᵇ codes "-" || is_association_field f.field_type)

module _ (V : Type 0) where
  pub record StructValue : Type 0 where
    pub type_name : Bytes
    pub field : ℕ → V

  -- Behind the pointers: nil, a struct, or anything else.
  pub data Snapshot : Type 0 where
    nil_value other_value : Snapshot
    struct_value : StructValue → Snapshot

  pub record Change : Type 0 where
    pub field : Bytes
    pub old_value : V
    pub new_value : V

  module _ (deep_equal : V → V → Bool) (fields_of : Bytes → List StructField) where
    pub changes_from : ℕ → List StructField → (ℕ → V) → (ℕ → V) → List Change
    changes_from i [] old new = []
    changes_from i (f ∷ fs) old new =
        let rest = changes_from (suc i) fs old new in
        if not (is_tracked f)
        then rest
        else if deep_equal (old i) (new i)
        then rest
        else record { field = field_name f; old_value = old i; new_value = new i } ∷ rest

    unfoldable pub calculate_changes : Snapshot → Snapshot → List Change
    unfolding changes_from ◌=ᵇ◌
    calculate_changes (struct_value a) (struct_value b) =
        if a.type_name =ᵇ b.type_name
        then changes_from 0 (fields_of a.type_name) a.field b.field
        else []
    calculate_changes (struct_value a) nil_value = []
    calculate_changes (struct_value a) other_value = []
    calculate_changes nil_value new = []
    calculate_changes other_value new = []
