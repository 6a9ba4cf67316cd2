-- ===== src/Window/Weeks.antt =====
-- The windows of weeks of timewindow/timewindow.go.
use backend_pkg.Common.{
  ℕ, ◌+◌, ◌%◌, ◌≤◌, ◌<◌, ◌≡◌, refl, ap, ◌∙◌, true, false, ◌=ᵇ◌, some, arith, pos, contains,
}
use backend_pkg.Window.Dates.{Date, IsDate, day_number, weekday, back_days, back_days_lem}
use backend_pkg.Window.{
  Zone, Window, Range, last_week, week_to_date, contains_time, start_of_day, add_days_back,
  start_of_week, range_of, resolve, is_valid, validate,
}

abbrev pub whole : Window
whole = record { kind = last_week; months = pos 0 }

abbrev pub current : Window
current = record { kind = week_to_date; months = pos 0 }

-- The Monday of the week of a date.
unfoldable pub monday : Date → Date
monday d = back_days (day_number d % 7) d

week_offset : (d : Date) → (weekday d + 6) % 7 ≡ day_number d % 7
unfolding weekday
week_offset d = omega arith

module _ (zone : Zone) where
  open zone use {Instant, read, at, before}

  -- The midnight of the date is not left out by the zone.
  abbrev pub HasMidnight : Date → Type 0
  HasMidnight d = read (at d 0) ≡ (d, 0)

  add_days_back_lem :
      (t : Instant) (d : Date) (n : ℕ)
      → read t ≡ (d, 0)
      → add_days_back zone t n ≡ at (back_days n d) 0
  unfolding add_days_back
  add_days_back_lem t d n e = ap (λ p. at (back_days n p.0) p.1) e

  start_of_week_lem :
      (now : Instant)
      → HasMidnight (read now).0
      → start_of_week zone now ≡ at (monday (read now).0) 0
  unfolding start_of_week monday start_of_day
  start_of_week_lem now mid =
      let d = (read now).0 in
      add_days_back_lem (at d 0) d ((weekday d + 6) % 7) mid
      ∙ ap (λ k. at (back_days k d) 0) (week_offset d)

  week_before :
      (now : Instant) (d : Date)
      → start_of_week zone now ≡ at d 0
      → HasMidnight d
      → add_days_back zone (start_of_week zone now) 7 ≡ at (back_days 7 d) 0
  week_before now d e mid = ap (λ t. add_days_back zone t 7) e ∙ add_days_back_lem (at d 0) d 7 mid

  -- No instant lies in two ranges of which one ends where the other begins.
  meeting :
      (r s : Range zone) (t : Instant)
      → r.to ≡ s.from
      → contains_time zone r t ≡ true
      → contains_time zone s t ≡ false
  unfolding contains_time
  meeting r s t e within =
      let same : before t r.to ≡ before t s.from = ap (before t) e in ground arith

  -- The last week and the week to date: the first ends where the second begins, at the midnight of the
  -- Monday of the current week, and begins at that of the Monday seven days before; no instant lies in
  -- both. The zone must have the midnights of today and of this Monday; dates of the first two weeks of
  -- the calendar are left out.
  pub last_week_lem :
      (now : Instant)
      → IsDate (read now).0
      → 13 ≤ day_number (read now).0
      → HasMidnight (read now).0
      → HasMidnight (monday (read now).0)
      → let today = (read now).0 in
        let this = monday today in
        (week to_date : Range zone) × (resolve zone whole now ≡ some week)
        × (resolve zone current now ≡ some to_date)
        × (week.to ≡ at this 0)
        × (to_date.from ≡ at this 0)
        × (weekday this ≡ 1)
        × (day_number this ≤ day_number today)
        × (day_number today < day_number this + 7)
        × ((previous : Date) × (week.from ≡ at previous 0)
            × (weekday previous ≡ 1)
            × (day_number previous + 7 ≡ day_number this))
        × ((t : Instant) → contains_time zone week t ≡ true → contains_time zone to_date t ≡ false)
  last_week_lem now v late mid first =
      let today = (read now).0 in
      let start = start_of_week_lem now mid in
      let (back, v1) = back_days_lem (day_number today % 7) today v (omega arith) in
      let back' : day_number (monday today) + day_number today % 7 ≡ day_number today =
        unfold monday in back in
      let v1' : IsDate (monday today) = unfold monday in v1 in
      let (back7, v7) = back_days_lem 7 (monday today) v1' (omega (arith, back')) in
      (
        range_of zone whole now,
        range_of zone current now,
        unfold resolve validate is_valid contains ◌=ᵇ◌ in refl,
        unfold resolve validate is_valid contains ◌=ᵇ◌ in refl,
        unfold range_of ◌=ᵇ◌ in start,
        unfold range_of ◌=ᵇ◌ in start,
        unfold weekday in omega (arith, back'),
        omega (arith, back'),
        omega (arith, back'),
        (
          back_days 7 (monday today),
          unfold range_of ◌=ᵇ◌ in week_before now (monday today) start first,
          unfold weekday in omega (arith, back', back7),
          back7,
        ),
        λ t.
            meeting (range_of zone whole now) (range_of zone current now) t
              (unfold range_of ◌=ᵇ◌ in refl),
      )
