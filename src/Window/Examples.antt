-- ===== src/Window/Examples.antt =====
-- timewindow/timewindow.go at fixed times, in a zone that leaves no time out.
use backend_pkg.Common.{
  ℕ, ◌+◌, ◌*◌, ◌<◌, ◌≤◌, ◌≡◌, refl, Bool, true, false, ◌&&◌, ◌||◌, ◌==◌, ltb, none, some, pos,
  codes, ◌=ᵇ◌, contains, itoa, arith,
}
use backend_pkg.Window.Dates.{
  Date, ymd, IsDate, day_number, weekday, back_days, prev_day, next_month, days_in_month,
}
use backend_pkg.Window.{
  Zone, Range, contains_time, resolve, is_valid, validate, months_before, month_before, month_loop,
  clamped, days_in, last_months, label, bad_months, months_given, unknown_window, week_to_date,
}
use backend_pkg.Window.Weeks.{whole, current, monday, last_week_lem}
use backend_pkg.Window.Months.{months_before_lem}
use Prim.Native.Nat.{min}

abbrev earlier : Date × ℕ → Date × ℕ → Bool
earlier t u =
    ltb (day_number t.0) (day_number u.0) || (day_number t.0 == day_number u.0 && ltb t.1 u.1)

abbrev utc : Zone
utc = record { Instant = Date × ℕ; read = λ t. t; at = λ d clock. (d, clock); before = earlier }

-- A Sunday at noon.
abbrev noon : Date × ℕ
noon = (ymd 2026 5 31, 43200000000000)

noon-IsDate : IsDate noon.0
noon-IsDate = record {
  year_range = omega arith;
  month_range = omega arith;
  month_range' = omega arith;
  day_range = omega arith;
  day_range' = omega arith;
}

sunday : weekday noon.0 ≡ 0
unfolding weekday day_number
sunday = refl

three_months : months_before utc noon 3 ≡ (ymd 2026 2 28, 43200000000000)
unfolding months_before month_before month_loop clamped days_in next_month prev_day
three_months = refl

monday_of_sunday : monday noon.0 ≡ ymd 2026 5 25
unfolding monday day_number back_days prev_day
monday_of_sunday = refl

checks :
    (validate (last_months (pos 61)) ≡ some bad_months)
    × (validate (record { kind = week_to_date; months = pos 1 }) ≡ some months_given)
    × (validate (record { kind = codes "WEEK"; months = pos 0 }) ≡ some unknown_window)
    × (validate (last_months (pos 60)) ≡ none)
unfolding validate is_valid contains ◌=ᵇ◌ last_months
checks = (refl, refl, refl, refl)

labels :
    (label (last_months (pos 1)) ≡ codes "last month")
    × (label (last_months (pos 12)) ≡ codes "last 12 months")
unfolding label last_months ◌=ᵇ◌ itoa
labels = (refl, refl)

months_before_lem_example :
    let today = noon.0 in
    (start : Date) × (months_before utc noon 3 ≡ utc.at start noon.1)
    × IsDate start
    × (start.year * 12 + start.month + 3 ≡ today.year * 12 + today.month)
    × (start.day ≡ min today.day (days_in_month start.year start.month))
months_before_lem_example = months_before_lem utc noon 3 noon-IsDate (omega arith)

last_week_lem_example :
    let today = noon.0 in
    let this = monday today in
    (week to_date : Range utc) × (resolve utc whole noon ≡ some week)
    × (resolve utc current noon ≡ some to_date)
    × (week.to ≡ utc.at this 0)
    × (to_date.from ≡ utc.at this 0)
    × (weekday this ≡ 1)
    × (day_number this ≤ day_number today)
    × (day_number today < day_number this + 7)
    × ((previous : Date) × (week.from ≡ utc.at previous 0)
        × (weekday previous ≡ 1)
        × (day_number previous + 7 ≡ day_number this))
    × ((t : utc.Instant) → contains_time utc week t ≡ true → contains_time utc to_date t ≡ false)
last_week_lem_example =
    last_week_lem utc noon noon-IsDate (unfold day_number in omega arith) refl refl
