-- ===== src/Toll/Normalize.antt =====
-- client/toll/normalize.go: dates, amounts, plates, truck numbers and devices in the form for matching.
pub mod Idempotent
use backend_pkg.Common.{
  ℕ, ◌-◌, ◌≡◌, Bool, true, false, ◌&&◌, ◌||◌, not, List, [], ◌∷◌, Bytes, codes, ◌=ᵇ◌, ◌==◌, ltb,
  leb, if◌then◌else◌, Option, none, some, trim_space, to_upper, upper_byte, is_upper, is_lower,
  is_digit, keep, contains, length, has_prefix,
}
use backend_pkg.Toll.{TollLibrary}

abbrev max_excel_serial : ℕ
max_excel_serial = 2958465

abbrev text_date_layouts : List Bytes
text_date_layouts =
    codes "2006-01-02"
    ∷ codes "2006-01-02 15:04:05"
    ∷ codes "2006-01-02T15:04:05Z07:00"
    ∷ codes "01/02/2006"
    ∷ codes "1/2/2006"
    ∷ codes "01/02/2006 15:04"
    ∷ codes "1/2/2006 15:04"
    ∷ codes "01/02/2006 15:04:05"
    ∷ codes "1/2/2006 15:04:05"
    ∷ codes "01/02/2006 3:04:05 PM"
    ∷ codes "1/2/2006 3:04:05 PM"
    ∷ []

abbrev pub is_alpha : ℕ → Bool
is_alpha c = is_upper c || is_lower c

-- `strings.ToUpper` and the bytes of a plate.
abbrev pub is_plate_byte : ℕ → Bool
is_plate_byte c = is_alpha c || is_digit c

abbrev pub is_separator : ℕ → Bool
is_separator c = c == b'-' || (c == b' ' || c == b'/')

-- Two letters and a separator in front of at least one more byte are the code of a state.
abbrev pub without_state : Bytes → Bytes
without_state [] = []
without_state (a ∷ []) = a ∷ []
without_state (a ∷ (b ∷ [])) = a ∷ (b ∷ [])
without_state (a ∷ (b ∷ (c ∷ []))) = a ∷ (b ∷ (c ∷ []))
without_state (a ∷ (b ∷ (c ∷ (d ∷ s)))) =
    if is_alpha a && (is_alpha b && is_separator c) then d ∷ s else a ∷ (b ∷ (c ∷ (d ∷ s)))

unfoldable pub normalize_plate : Bytes → Bytes
unfolding trim_space
normalize_plate s = keep is_plate_byte (without_state (to_upper (trim_space s)))

unfoldable is_all_digits : Bytes → Bool
is_all_digits [] = false
is_all_digits (c ∷ []) = is_digit c
is_all_digits (c ∷ (d ∷ s)) = is_digit c && is_all_digits (d ∷ s)

abbrev placeholders : List Bytes
placeholders =
    codes "N/A"
    ∷ codes "NA"
    ∷ codes "-"
    ∷ codes "--"
    ∷ codes "NONE"
    ∷ codes "NULL"
    ∷ codes "UNKNOWN"
    ∷ []

-- `strings.TrimLeft(t, "0")`.
unfoldable trim_zeros : Bytes → Bytes
trim_zeros [] = []
trim_zeros (c ∷ s) = let rest = trim_zeros s in if c == b'0' then rest else c ∷ s

abbrev zero_if_blank : Bytes → Bytes
zero_if_blank [] = codes "0"
zero_if_blank (c ∷ s) = c ∷ s

unfoldable pub normalize_truck_ref : Bytes → Bytes
unfolding trim_space contains is_all_digits trim_zeros
normalize_truck_ref s =
    let t = trim_space s in
    if t =ᵇ []
    then []
    else if contains placeholders (to_upper t)
    then []
    else if is_all_digits t
    then zero_if_blank (trim_zeros t)
    else t

unfoldable pub normalize_device_id : Bytes → Bytes
unfolding trim_space
normalize_device_id s = trim_space s

-- The bytes between the parentheses of an accounting-style negative.
drop_last : ℕ → Bytes → Bytes
drop_last c [] = []
drop_last c (d ∷ s) = c ∷ drop_last d s

last_of : ℕ → Bytes → ℕ
last_of c [] = c
last_of c (d ∷ s) = last_of d s

-- A text in parentheses has two bytes at least.
unfoldable in_parentheses : Bytes → Option Bytes
unfolding last_of drop_last
in_parentheses [] = none
in_parentheses (a ∷ []) = none
in_parentheses (a ∷ (b ∷ s)) =
    if a == b'(' && last_of b s == b')' then some (drop_last b s) else none

-- The replacer: the dollar sign, commas and spaces; the second kind of space has two bytes.
abbrev is_money_byte : ℕ → Bool
is_money_byte c = not (c == b'$' || (c == b',' || c == b' '))

without_wide_spaces : Bytes → Bytes
without_wide_spaces [] = []
without_wide_spaces (c ∷ []) = c ∷ []
without_wide_spaces (c ∷ (d ∷ s)) =
    let rest = without_wide_spaces s in
    let next = c ∷ without_wide_spaces (d ∷ s) in if c == 0xC2 && d == 0xA0 then rest else next

unfoldable pub money_text : Bytes → Bytes
unfolding trim_space without_wide_spaces
money_text s = keep is_money_byte (without_wide_spaces (trim_space s))

module _ (lib : TollLibrary) where
  open lib use {
    Decimal, Time, zero_decimal, new_from_string, negated, round_cents, parse_float, below, above,
    whole_seconds, epoch_plus, parse_layout,
  }

  parse_serial_time : Bytes → Option Time
  parse_serial_time s = elim (parse_float s) [
    | none ↦ none
    | some f ↦
        if below f 61 || above f max_excel_serial then none else some (epoch_plus (whole_seconds f))
  ]

  unfoldable pub first_layout : List Bytes → Bytes → Option Time
  first_layout [] s = none
  first_layout (l ∷ ls) s =
      let rest = first_layout ls s in elim (parse_layout l s) [ none ↦ rest | some t ↦ some t ]

  unfoldable pub parse_file_time : Bytes → Option Time
  unfolding parse_serial_time first_layout ◌=ᵇ◌
  parse_file_time s =
      let t = trim_space s in
      let layout = first_layout text_date_layouts t in
      if t =ᵇ [] then none else elim (parse_serial_time t) [ none ↦ layout | some time ↦ some time ]

  signed_amount : Bool → Option Decimal → Option Decimal
  signed_amount neg none = none
  signed_amount neg (some d) = some (round_cents (if neg then negated d else d))

  amount_of : Bytes → Option Bytes → Option Decimal
  unfolding signed_amount
  amount_of t none = signed_amount false (new_from_string t)
  amount_of t (some inner) = signed_amount true (new_from_string inner)

  unfoldable pub parse_money : Bytes → Option Decimal
  unfolding amount_of money_text in_parentheses ◌=ᵇ◌
  parse_money s =
      let t = money_text s in if t =ᵇ [] then some zero_decimal else amount_of t (in_parentheses t)
