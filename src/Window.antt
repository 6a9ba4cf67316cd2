-- ===== src/Window.antt =====
-- timewindow/timewindow.go: reporting windows relative to now. A time is an instant of a zone, which is read as
-- a date with the nanoseconds since its midnight; the tables of the zones come from outside.
pub mod Dates
pub mod Months
pub mod Weeks
mod Examples
use backend_pkg.Common.{
  ℕ, zero, suc, ◌+◌, ◌-◌, ◌%◌, ◌≡◌, Bool, true, false, ◌&&◌, ◌||◌, not, List, [], ◌∷◌, Bytes, codes,
  ◌=ᵇ◌, ◌==◌, ltb, leb, if◌then◌else◌, Option, none, some, contains, ℤ, pos, negsuc, itoa, ◌++◌,
}
use backend_pkg.Window.Dates.{Date, back_days, weekday, prev_day, next_month}

abbrev Kind : Type 0
Kind = Bytes

abbrev pub last_week : Kind
last_week = codes "LAST_WEEK"

abbrev last_n_months : Kind
last_n_months = codes "LAST_N_MONTHS"

abbrev pub week_to_date : Kind
week_to_date = codes "WEEK_TO_DATE"

abbrev month_to_date : Kind
month_to_date = codes "MONTH_TO_DATE"

abbrev year_to_date : Kind
year_to_date = codes "YEAR_TO_DATE"

abbrev all_kinds : List Kind
all_kinds = last_week ∷ last_n_months ∷ week_to_date ∷ month_to_date ∷ year_to_date ∷ []

abbrev max_months : ℕ
max_months = 60

unfoldable pub is_valid : Kind → Bool
unfolding contains
is_valid k = contains all_kinds k

parse_kind : Bytes → Option Kind
parse_kind s = if is_valid s then some s else none

pub record Window : Type 0 where
  pub kind : Kind
  pub months : ℤ

last_months : ℤ → Window
last_months n = record { kind = last_n_months; months = n }

-- Whether a number of months is from 1 to 60, and 0.
abbrev pub in_range : ℤ → Bool
in_range (pos n) = leb 1 n && leb n max_months
in_range (negsuc n) = false

abbrev is_zero : ℤ → Bool
is_zero (pos n) = n == 0
is_zero (negsuc n) = false

pub data WindowError : Type 0 where
  unknown_window bad_months months_given : WindowError

unfoldable pub validate : Window → Option WindowError
unfolding is_valid ◌=ᵇ◌
validate w =
    if not (is_valid w.kind)
    then some unknown_window
    else if w.kind =ᵇ last_n_months
    then (if in_range w.months then none else some bad_months)
    else if is_zero w.months
    then none
    else some months_given

-- A location: how an instant reads there, and the instant of a date and a clock, as `time.Date` has it.
pub record Zone : Type 1 where
  pub Instant : Type 0
  pub read : Instant → Date × ℕ
  pub at : Date → ℕ → Instant
  pub before : Instant → Instant → Bool

-- The loop of monthsBefore: `m` is the source's month and the `n` that was taken from it.
month_loop : ℕ → ℕ → ℕ → ℕ → ℕ × ℕ
month_loop zero n y m = (y, m - n)
month_loop (suc rounds) n y m =
    let again = month_loop rounds n (y - 1) (m + 12) in if leb m n then again else (y, m - n)

-- A month needs a round for each year that it goes back.
unfoldable pub month_before : ℕ → Date → ℕ × ℕ
unfolding month_loop
month_before n d = month_loop n n d.year d.month

-- The day before the first of the next month.
unfoldable pub days_in : ℕ → ℕ → ℕ
unfolding prev_day next_month
days_in y m = (prev_day (next_month y m)).day

unfoldable pub clamped : ℕ → ℕ × ℕ → Date
unfolding days_in
clamped day (y, m) =
    let last = days_in y m in
    record { year = y; month = m; day = if ltb last day then last else day }

-- What follows `last` in the label of some months.
abbrev months_label : ℤ → Bytes
months_label (pos n) =
    if n == 1 then codes "last month" else codes "last " ++ (itoa n ++ codes " months")
months_label (negsuc n) = codes "last -" ++ (itoa (suc n) ++ codes " months")

-- The dash in the label of the week is written as its three bytes.
label : Window → Bytes
label w =
    if w.kind =ᵇ last_week
    then codes "last week (Mon" ++ (0xE2 ∷ 0x80 ∷ 0x93 ∷ codes "Sun)")
    else if w.kind =ᵇ week_to_date
    then codes "week to date"
    else if w.kind =ᵇ month_to_date
    then codes "month to date"
    else if w.kind =ᵇ year_to_date
    then codes "year to date"
    else if w.kind =ᵇ last_n_months
    then months_label w.months
    else w.kind

module _ (zone : Zone) where
  open zone use {Instant, read, at, before}

  pub record Range : Type 0 where
    pub from : Instant
    pub to : Instant

  unfoldable pub contains_time : Range → Instant → Bool
  contains_time r t = not (before t r.from) && before t r.to

  unfoldable pub start_of_day : Instant → Instant
  start_of_day t = at (read t).0 0

  -- `t.AddDate(0, 0, -n)`: the same clock some days before.
  unfoldable pub add_days_back : Instant → ℕ → Instant
  add_days_back t n = at (back_days n (read t).0) (read t).1

  -- Sunday is the weekday 0.
  unfoldable pub start_of_week : Instant → Instant
  unfolding start_of_day add_days_back
  start_of_week t = add_days_back (start_of_day t) ((weekday (read t).0 + 6) % 7)

  unfoldable pub months_before : Instant → ℕ → Instant
  unfolding month_before clamped
  months_before t n = let (d, clock) = read t in at (clamped d.day (month_before n d)) clock

  abbrev count_of : ℤ → ℕ
  count_of (pos n) = n
  count_of (negsuc n) = 0

  unfoldable pub range_of : Window → Instant → Range
  unfolding start_of_week months_before ◌=ᵇ◌
  range_of w now =
      if w.kind =ᵇ last_week
      then record { from = add_days_back (start_of_week now) 7; to = start_of_week now }
      else if w.kind =ᵇ week_to_date
      then record { from = start_of_week now; to = now }
      else if w.kind =ᵇ month_to_date
      then record { from = add_days_back (start_of_day now) ((read now).0.day - 1); to = now }
      else if w.kind =ᵇ year_to_date
      then record {
        from = at (record { year = (read now).0.year; month = 1; day = 1 }) 0;
        to = now;
      }
      else record { from = months_before now (count_of w.months); to = now }

  unfoldable pub resolve : Window → Instant → Option Range
  unfolding validate range_of
  resolve w now = elim (validate w) [ some e ↦ none | none ↦ some (range_of w now) ]
