-- ===== src/Window/Dates.antt =====
-- Dates of the proleptic Gregorian calendar as Go's package time has them: the day before, the weekday.
use backend_pkg.Common.{
  ℕ, zero, suc, ◌+◌, ◌-◌, ◌*◌, ◌/◌, ◌%◌, ◌≤◌, ◌<◌, ◌≡◌, refl, Bool, true, ◌||◌, not, ◌==◌, ◌&&◌,
  ltb, lt→ltb, if◌then◌else◌, arith, Bool-cases, inl, inr,
}

pub record Date : Type 0 where
  pub year : ℕ
  pub month : ℕ
  pub day : ℕ

-- In the order in which `time.Date` takes them.
abbrev pub ymd : ℕ → ℕ → ℕ → Date
ymd y m d = record { day = d; month = m; year = y }

abbrev is_leap : ℕ → Bool
is_leap y = y % 4 == 0 && (not (y % 100 == 0) || y % 400 == 0)

-- April, June, September and November.
abbrev is_short : ℕ → Bool
is_short m = m == 4 || (m == 6 || (m == 9 || m == 11))

abbrev pub days_in_month : ℕ → ℕ → ℕ
days_in_month y m =
    if m == 2 then 28 + (if is_leap y then 1 else 0) else if is_short m then 30 else 31

unfoldable pub prev_day : Date → Date
prev_day d =
    if ltb 1 d.day
    then record d { day = d.day - 1 }
    else if ltb 1 d.month
    then ymd d.year (d.month - 1) (days_in_month d.year (d.month - 1))
    else ymd (d.year - 1) 12 31

unfoldable pub back_days : ℕ → Date → Date
unfolding prev_day
back_days zero d = d
back_days (suc n) d = back_days n (prev_day d)

-- The first day of the month after.
unfoldable pub next_month : ℕ → ℕ → Date
next_month y m = if m == 12 then ymd (y + 1) 1 1 else ymd y (m + 1) 1

-- The days of the year before a month.
abbrev days_before_month : ℕ → ℕ → ℕ
days_before_month y zero = 0
days_before_month y (suc zero) = 0
days_before_month y (suc (suc m)) = days_before_month y (suc m) + days_in_month y (suc m)

abbrev days_before_year : ℕ → ℕ
days_before_year y = let p = y - 1 in p * 365 + p / 4 - p / 100 + p / 400

-- The days since the first of January of the year 1, a Monday.
unfoldable pub day_number : Date → ℕ
day_number d = days_before_year d.year + days_before_month d.year d.month + (d.day - 1)

-- `time.Weekday`: 0 is Sunday.
unfoldable pub weekday : Date → ℕ
unfolding day_number
weekday d = (day_number d + 1) % 7

pub record IsDate (d : Date) : Type 0 where
  pub year_range : 1 ≤ d.year
  pub month_range : 1 ≤ d.month
  pub month_range' : d.month ≤ 12
  pub day_range : 1 ≤ d.day
  pub day_range' : d.day ≤ days_in_month d.year d.month

-- The years of 365 and 366 days.
days_before_year-suc :
    (p : ℕ)
    → days_before_year (suc (suc p))
      ≡ days_before_year (suc p) + (if is_leap (suc p) then 366 else 365)
days_before_year-suc p = ground arith

days_of_year : (y : ℕ) → days_before_month y 12 + 31 ≡ (if is_leap y then 366 else 365)
days_of_year y = elim (Bool-cases (is_leap y)) [
  | inl leap ↦ rw leap refl
  | inr common ↦ rw common refl
]

-- Every day but the first has one before it.
abbrev Follows : Date → Date → Type 0
Follows d p = (day_number d ≡ suc (day_number p)) × IsDate p

same_month : (y m k : ℕ) → IsDate (ymd y m k) → 1 < k → Follows (ymd y m k) (prev_day (ymd y m k))
unfolding prev_day day_number
same_month y m k v h = rw (lt→ltb 1 k h) (ground arith, ground arith)

first_of_month :
    (y m : ℕ)
    → IsDate (ymd y (suc (suc m)) 1)
    → Follows (ymd y (suc (suc m)) 1) (prev_day (ymd y (suc (suc m)) 1))
unfolding prev_day day_number
first_of_month y m v =
    let later : ltb 1 (suc (suc m)) ≡ true = ground arith in
    let back : suc (suc m) - 1 ≡ suc m = omega arith in
    let last : 28 ≤ days_in_month y (suc m) = ground arith in
    rw (later, back)
      (
        omega arith,
        record {
          year_range = v.year_range;
          month_range = omega arith;
          month_range' = omega (arith, v.month_range');
          day_range = omega (arith, last);
          day_range' = omega arith;
        },
      )

first_of_year : (p : ℕ) → Follows (ymd (suc (suc p)) 1 1) (prev_day (ymd (suc (suc p)) 1 1))
unfolding prev_day day_number
first_of_year p =
    let back : suc (suc p) - 1 ≡ suc p = omega arith in
    rw back (omega (arith, days_before_year-suc p, days_of_year (suc p)), omega arith)

prev_day_parts :
    (y m k : ℕ)
    → IsDate (ymd y m k)
    → 1 ≤ day_number (ymd y m k)
    → Follows (ymd y m k) (prev_day (ymd y m k))
prev_day_parts y m zero v h = absurd (omega (arith, v.day_range))
prev_day_parts y m (suc (suc k)) v h = same_month y m (suc (suc k)) v (omega arith)
prev_day_parts y zero (suc zero) v h = absurd (omega (arith, v.month_range))
prev_day_parts y (suc (suc m)) (suc zero) v h = first_of_month y m v
prev_day_parts zero (suc zero) (suc zero) v h = absurd (omega (arith, v.year_range))
prev_day_parts (suc zero) (suc zero) (suc zero) v h = absurd (unfold day_number in omega arith)
prev_day_parts (suc (suc p)) (suc zero) (suc zero) v h = first_of_year p

pub back_days_lem :
    (n : ℕ) (d : Date)
    → IsDate d
    → n ≤ day_number d
    → (day_number (back_days n d) + n ≡ day_number d) × IsDate (back_days n d)
unfolding back_days
back_days_lem zero d v h = (omega arith, v)
back_days_lem (suc n) d v h =
    let (follows, v') = prev_day_parts d.year d.month d.day v (omega arith) in
    let (e, w) = back_days_lem n (prev_day d) v' (omega (arith, follows)) in
    (omega (arith, e, follows), w)
