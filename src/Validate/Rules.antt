-- ===== src/Validate/Rules.antt =====
-- validate/directive.go: the arguments of the directive and when each of its rules is violated. Floating
-- numbers, regular expressions, the readers of addresses and formats, and the printing of values belong
-- to Go's packages.
use backend_pkg.Common.{
  ℕ, ◌+◌, ◌-◌, ◌*◌, ◌%◌, Bool, true, false, not, ◌&&◌, ◌||◌, List, [], ◌∷◌, Bytes, ◌=ᵇ◌,
  if◌then◌else◌, Option, none, some, lookup, length, ltb, ◌==◌, is_digit, trim_space, ℤ, pos,
  negsuc, keep,
}
use mathlib.Core.List.{reverse}

-- A value after a pointer to a text, a number or a Boolean is followed; only such a pointer is followed,
-- and a nil one is nil. A value of another type, also a nil pointer to it, is `other`.
pub data Value (Num Item : Type 0) : Type 0 where
  nil_value : Value Num Item
  text : Bytes → Value Num Item
  number : Num → Value Num Item
  flag : Bool → Value Num Item
  items : List Item → Value Num Item
  other : Item → Value Num Item

pub record GoLibrary : Type 1 where
  pub Num : Type 0
  pub Item : Type 0
  pub num_lt : Num → Num → Bool
  pub num_le : Num → Num → Bool
  pub num_eq : Num → Num → Bool
  pub from_int : ℤ → Num
  pub parse_float : Bytes → Option Num
  pub show : Value Num Item → Bytes
  pub text_lt : Bytes → Bytes → Bool
  -- A regular expression that does not compile is none.
  pub compile : Bytes → Option (Bytes → Bool)
  -- Whether a text is an address, and one of IPv4.
  pub parse_ip : Bytes → Option Bool
  pub is_mac : Bytes → Bool
  pub is_cidr : Bytes → Bool
  pub is_base64 : Bytes → Bool
  pub is_json : Bytes → Bool
  pub is_location : Bytes → Bool

-- The rules by their names, in the order in which they are tried.
pub data Rule : Type 0 where
  required_with required_without excluded_with : Rule
  eq_field ne_field gt_field lt_field : Rule
  email url uuid ip ipv4 ipv6 mac cidr hostname fqdn base64 json_valid jwt : Rule
  lowercase uppercase credit_card latitude longitude timezone : Rule
  not_empty alphanumeric numeric alpha : Rule
  contains_text not_contains starts_with ends_with pattern : Rule
  min max eq ne gt lt : Rule
  min_len max_len len min_items max_items enum : Rule
  user_exist user_has_role : Rule

-- The arguments of the directive, each under its rule: a flag, a text, a number or a count.
pub record Arguments (Num : Type 0) : Type 0 where
  pub flag_of : Rule → Option Bool
  pub text_of : Rule → Option Bytes
  pub num_of : Rule → Option Num
  pub count_of : Rule → Option ℤ
  pub allowed : List Bytes
  pub own_message : Rule → Option Bytes
  pub message : Option Bytes

abbrev pub is_on : Option Bool → Bool
is_on none = false
is_on (some b) = b

-- `len(x) < int(n)` and `len(x) > int(n)`.
abbrev pub below : ℕ → ℤ → Bool
below k (pos n) = ltb k n
below k (negsuc n) = false

abbrev pub above : ℕ → ℤ → Bool
above k (pos n) = ltb n k
above k (negsuc n) = true

-- From the last digit on every second one is doubled, its digits added.
luhn_sum : Bool → Bytes → Option ℕ
luhn_sum alt [] = some 0
luhn_sum alt (c ∷ s) =
    let n = c - b'0' in
    let m = if alt then (if ltb 9 (n * 2) then n * 2 - 9 else n * 2) else n in
    let rest = luhn_sum (not alt) s in
    if is_digit c then elim rest [ none ↦ none | some k ↦ some (m + k) ] else none

abbrev is_kept : ℕ → Bool
is_kept c = not (c == b' ' || c == b'-')

abbrev ends_in_zero : Option ℕ → Bool
ends_in_zero none = false
ends_in_zero (some n) = n % 10 == 0

unfoldable pub luhn_check : Bytes → Bool
unfolding luhn_sum
luhn_check s =
    let cleaned = keep is_kept s in
    if ltb (length cleaned) 13 || ltb 19 (length cleaned)
    then false
    else ends_in_zero (luhn_sum false (reverse cleaned))

module _ (lib : GoLibrary) where
  open lib use {Num, Item, num_lt, num_le, num_eq, from_int, parse_float, show, text_lt, compile}

  abbrev pub Val : Type 0
  Val = Value Num Item

  unfoldable pub to_float64 : Val → Option Num
  to_float64 (number n) = some n
  to_float64 (text s) = parse_float s
  to_float64 nil_value = none
  to_float64 (flag b) = none
  to_float64 (other x) = none
  to_float64 (items xs) = none

  pub data Compared : Type 0 where
    less equal greater : Compared

  abbrev compare_by : Bool → Bool → Compared
  compare_by is_lt is_gt = if is_lt then less else if is_gt then greater else equal

  abbrev compare_floats : Option Num → Option Num → Compared → Compared
  compare_floats none b texts = texts
  compare_floats (some a) none texts = texts
  compare_floats (some a) (some b) texts = compare_by (num_lt a b) (num_lt b a)

  unfoldable pub compare_values : Val → Val → Compared
  unfolding to_float64
  compare_values a b =
      compare_floats (to_float64 a) (to_float64 b)
        (compare_by (text_lt (show a) (show b)) (text_lt (show b) (show a)))

  -- The object of the field, if it is a map.
  abbrev pub Obj : Type 0
  Obj = Option (List (Bytes × Val))

  unfoldable pub get_field_value : Obj → Bytes → Option Val
  get_field_value none f = none
  get_field_value (some m) f = lookup f m

  abbrev pub is_nil_value : Val → Bool
  is_nil_value nil_value = true
  is_nil_value (text s) = false
  is_nil_value (number n) = false
  is_nil_value (flag b) = false
  is_nil_value (other x) = false
  is_nil_value (items xs) = false

  unfoldable pub is_field_present : Obj → Bytes → Bool
  unfolding get_field_value
  is_field_present obj f = elim (get_field_value obj f) [
    | none ↦ false
    | some v ↦ not (is_nil_value v)
  ]

  unfoldable pub is_empty_value : Val → Bool
  is_empty_value nil_value = true
  is_empty_value (text s) = trim_space s =ᵇ []
  is_empty_value (items xs) = length xs == 0
  is_empty_value (number n) = false
  is_empty_value (flag b) = false
  is_empty_value (other x) = false

  abbrev pub text_test : (Bytes → Bool) → Val → Bool
  text_test bad (text s) = bad s
  text_test bad nil_value = false
  text_test bad (number n) = false
  text_test bad (flag b) = false
  text_test bad (other x) = false
  text_test bad (items xs) = false

  abbrev pub num_test : (Num → Bool) → Val → Bool
  num_test bad v = elim (to_float64 v) [ none ↦ false | some n ↦ bad n ]

  -- `min` and `max` read numbers only, not texts.
  abbrev pub own_num_test : (Num → Bool) → Val → Bool
  own_num_test bad (number n) = bad n
  own_num_test bad nil_value = false
  own_num_test bad (text s) = false
  own_num_test bad (flag b) = false
  own_num_test bad (other x) = false
  own_num_test bad (items xs) = false

  abbrev pub len_test : (ℕ → Bool) → Val → Bool
  len_test bad (text s) = bad (length s)
  len_test bad (items xs) = bad (length xs)
  len_test bad nil_value = false
  len_test bad (number n) = false
  len_test bad (flag b) = false
  len_test bad (other x) = false

  abbrev pub items_test : (ℕ → Bool) → Val → Bool
  items_test bad (items xs) = bad (length xs)
  items_test bad nil_value = false
  items_test bad (text s) = false
  items_test bad (number n) = false
  items_test bad (flag b) = false
  items_test bad (other x) = false

  -- A pattern that does not compile refuses nothing here: the directive has ended before.
  abbrev pub no_match : Bytes → Bytes → Bool
  no_match p s = elim (compile p) [ none ↦ false | some test ↦ not (test s) ]

  abbrev pub in_range : Num → Num → Val → Bool
  in_range lo hi v = elim (to_float64 v) [ none ↦ false | some n ↦ num_le lo n && num_le n hi ]

  abbrev pub with_arg {ℓ} : {A : Type ℓ} → Option A → (A → Bool) → Bool
  with_arg none bad = false
  with_arg (some a) bad = bad a

  abbrev pub is_less : Compared → Bool
  is_less less = true
  is_less equal = false
  is_less greater = false

  abbrev pub is_equal : Compared → Bool
  is_equal less = false
  is_equal equal = true
  is_equal greater = false

  abbrev pub is_greater : Compared → Bool
  is_greater less = false
  is_greater equal = false
  is_greater greater = true
