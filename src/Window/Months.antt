-- ===== src/Window/Months.antt =====
-- How far back LAST_N_MONTHS of timewindow/timewindow.go reaches.
use Prim.Native.Nat.{min}
use backend_pkg.Common.{
  ℕ, zero, suc, ◌+◌, ◌-◌, ◌*◌, ◌≤◌, ◌<◌, ◌≡◌, refl, ap, ◌∙◌, true, false, ◌==◌, ltb, leb, ==→eq,
  arith, Bool-cases, inl, inr,
}
use backend_pkg.Window.Dates.{Date, ymd, IsDate, days_in_month, prev_day, next_month}
use backend_pkg.Window.{Zone, month_loop, month_before, days_in, clamped, months_before}

first_behind : (y m : ℕ) → (m == 12) ≡ false → next_month y m ≡ ymd y (m + 1) 1
unfolding next_month
first_behind y m other = rw other refl

last_before : (y m : ℕ) → 1 ≤ m → (prev_day (ymd y (m + 1) 1)).day ≡ days_in_month y m
unfolding prev_day
last_before y m low =
    let back : m + 1 - 1 ≡ m = omega arith in
    let later : ltb 1 (m + 1) ≡ true = ground arith in rw (later, back) refl

days_in_lem : (y m : ℕ) → 1 ≤ m → m ≤ 12 → days_in y m ≡ days_in_month y m
unfolding days_in
days_in_lem y m low high = elim (Bool-cases (m == 12)) [
  | inl december ↦ rw (==→eq m 12 december) refl
  | inr other ↦ ap (λ d. (prev_day d).day) (first_behind y m other) ∙ last_before y m low
]

-- Every month of the loop is the same month of the calendar, and the rounds are enough.
month_loop_lem :
    (rounds n y m : ℕ)
    → 1 ≤ m
    → m ≤ n + 12
    → n < m + rounds * 12
    → n + 12 < y * 12 + m
    → let (y', m') = month_loop rounds n y m in
      (1 ≤ m') × (m' ≤ 12) × (1 ≤ y') × (y' * 12 + m' + n ≡ y * 12 + m)
unfolding month_loop
month_loop_lem zero n y m low high enough wide = omega arith
month_loop_lem (suc rounds) n y m low high enough wide = elim (Bool-cases (leb m n)) [
  | inl again ↦ rw again (
      let (a, b, c, e) =
        month_loop_lem rounds n (y - 1) (m + 12) (omega arith) (ground arith) (omega arith)
          (ground arith) in
      (a, b, c, ground arith))
  | inr done ↦ rw done (ground arith, ground arith, ground arith, ground arith)
]

month_before_lem :
    (n : ℕ) (d : Date)
    → IsDate d
    → n + 12 < d.year * 12 + d.month
    → let (y, m) = month_before n d in
      (1 ≤ m) × (m ≤ 12) × (1 ≤ y) × (y * 12 + m + n ≡ d.year * 12 + d.month)
unfolding month_before
month_before_lem n d v wide =
    month_loop_lem n n d.year d.month v.month_range (omega (arith, v.month_range'))
      (omega (arith, v.month_range)) wide

clamped-IsDate :
    (day : ℕ) (p : ℕ × ℕ) → 1 ≤ day → 1 ≤ p.1 → p.1 ≤ 12 → 1 ≤ p.0 → IsDate (clamped day p)
unfolding clamped
clamped-IsDate day (y, m) some_day low high past =
    let e = days_in_lem y m low high in
    let least : 28 ≤ days_in_month y m = ground arith in
    record {
      year_range = past;
      month_range = low;
      month_range' = high;
      day_range = ground (arith, e);
      day_range' = ground (arith, e);
    }

clamped_day :
    (day : ℕ) (p : ℕ × ℕ)
    → 1 ≤ p.1
    → p.1 ≤ 12
    → (clamped day p).day ≡ min day (days_in_month (clamped day p).year (clamped day p).month)
unfolding clamped
clamped_day day (y, m) low high = rw (days_in_lem y m low high) (ground arith)

-- The window of the last n months starts in the month that is n months before, on the same day, or on the
-- last day of that month if the month is too short for it, and at the same clock. The year 1 and what is
-- before it are left out.
pub months_before_lem :
    (zone : Zone) (now : zone.Instant) (n : ℕ)
    → IsDate (zone.read now).0
    → n + 12 < (zone.read now).0.year * 12 + (zone.read now).0.month
    → let today = (zone.read now).0 in
      (start : Date) × (months_before zone now n ≡ zone.at start (zone.read now).1)
      × IsDate start
      × (start.year * 12 + start.month + n ≡ today.year * 12 + today.month)
      × (start.day ≡ min today.day (days_in_month start.year start.month))
months_before_lem zone now n v wide =
    let (today, clock) = zone.read now in
    let (low, high, past, e) = month_before_lem n today v wide in
    let (y, m) = month_before n today in
    let start = clamped today.day (month_before n today) in
    (
      start,
      unfold months_before in refl,
      clamped-IsDate today.day (month_before n today) v.day_range low high past,
      unfold clamped in e,
      clamped_day today.day (month_before n today) low high,
    )
