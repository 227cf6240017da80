-- ===== src/Time/MkTime.antt =====
-- mkTime of kernel/time.c against the calendar.
use operator_system.Common.{
  ℕ, zero, suc, ◌+◌, ◌-◌, ◌*◌, ◌/◌, ◌%◌, ◌^◌, ◌≤◌, ◌<◌, ◌≡◌, ◌≢◌, refl, ap, ◌∙◌, Bool, true, false,
  not, ◌&&◌, ◌==◌, ltb, leb, if◌then◌else◌, inl, inr, Bool-cases, ltb→lt, get_or, all_below,
  of-all_below, ==_iff, arith,
}
use operator_system.Time.{Time, minute, hour, day, year, month, years_since, mk_time}
use operator_system.Time.Calendar.{is_leap, days_of_years, days_of_months, seconds_since}

-- the fields of a two-digit date, each in its range
pub record IsDate (t : Time) : Type 0 where
  pub sec : t.tm_sec < 60
  pub min : t.tm_min < 60
  pub hour : t.tm_hour < 24
  pub day_from : 1 ≤ t.tm_mday
  pub day_to : t.tm_mday ≤ 31
  pub mon : t.tm_mon < 12
  pub year : t.tm_year < 100

-- Up to 2070 every fourth year is a leap year, 1972 the first.
is_leap-by_four : (n : ℕ) → n ≤ 100 → is_leap (1970 + n) ≡ ((n + 2) % 4 == 0)
unfolding is_leap
is_leap-by_four n h = ground arith

days_of_years-closed : (n : ℕ) → n ≤ 100 → days_of_years n ≡ 365 * n + (n + 1) / 4
unfolding days_of_years
days_of_years-closed zero h = refl
days_of_years-closed (suc n) h =
    ground (arith, days_of_years-closed n, is_leap-by_four n (omega arith))

-- the table `month`, less the day that the code takes back outside leap years
month_table : Bool → ℕ → Bool
month_table leap m =
    get_or month m 0 == day * days_of_months leap m + (if ltb 1 m && not leap then day else 0)

month_tables : (leap : Bool) → all_below 12 (month_table leap) ≡ true
unfolding all_below month_table days_of_months
month_tables true = refl
month_tables false = refl

month-eq :
    (leap : Bool) (m : ℕ)
    → m < 12
    → get_or month m 0 ≡ day * days_of_months leap m + (if ltb 1 m && not leap then day else 0)
unfolding month_table
month-eq leap m h = (==_iff _ _).0 (of-all_below 12 (month_table leap) m (month_tables leap) h)

months_short : (leap : Bool) → all_below 12 (λ m. ltb (days_of_months leap m) 336) ≡ true
unfolding all_below days_of_months
months_short true = refl
months_short false = refl

days_of_months-lt : (leap : Bool) (m : ℕ) → m < 12 → days_of_months leap m < 336
days_of_months-lt leap m h = ltb→lt _ _ (of-all_below 12 _ m (months_short leap) h)

-- the sum of mkTime with the leap-day test as a Boolean: no step wraps
sum-exact :
    (leap : Bool) (y days mon mday h min sec tab : ℕ)
    → y ≤ 100
    → days < 336
    → mday ≤ 31
    → 1 ≤ mday
    → h < 24
    → min < 60
    → sec < 60
    → tab ≡ day * days + (if ltb 1 mon && not leap then day else 0)
    → let rs = ((year * y + day * ((y + 1) / 4)) % 2 ^ 32 + tab) % 2 ^ 32 in
      let rs' = if ltb 1 mon && not leap then (rs + 2 ^ 32 - day) % 2 ^ 32 else rs in
      (rs' + day * (mday + 2 ^ 32 - 1) + hour * h + minute * min + sec) % 2 ^ 32
      ≡ 86400 * (365 * y + (y + 1) / 4 + days + (mday - 1)) + 3600 * h + 60 * min + sec
sum-exact leap y days mon mday h min sec tab p1 p2 p3 p4 p5 p6 p7 e =
    elim (Bool-cases (ltb 1 mon && not leap)) [
      | inl q ↦ rw (e, q) (omega arith)
      | inr q ↦ rw (e, q) (omega arith)
    ]

years_since-le : (t : ℕ) → t < 100 → years_since t ≤ 100
unfolding years_since
years_since-le t h = ground arith

-- For every date with fields in range mkTime computes, with no step wrapping, the calendar's count
-- of seconds from 1970-01-01, in the year that `years_since` reads off the two digits.
pub mk_time-years :
    (t : Time)
    → IsDate t
    → mk_time t
      ≡ seconds_since (years_since t.tm_year) t.tm_mon t.tm_mday t.tm_hour t.tm_min t.tm_sec
unfolding mk_time seconds_since
mk_time-years t d =
    let y : ℕ = years_since t.tm_year in
    let le = years_since-le t.tm_year d.year in
    rw (days_of_years-closed y le, is_leap-by_four y le)
      (sum-exact ((y + 2) % 4 == 0) y _ t.tm_mon t.tm_mday t.tm_hour t.tm_min t.tm_sec _ le
        (days_of_months-lt _ _ d.mon) d.day_to d.day_from d.hour d.min d.sec
        (month-eq _ t.tm_mon d.mon))

-- The usual reading of a two-digit year: 70 to 99 are of the last century.
unfoldable pub years_of_two_digits : ℕ → ℕ
years_of_two_digits tm_year = if leb 70 tm_year then tm_year - 70 else tm_year + 30

years-agree : (t : ℕ) → t ≢ 70 → years_since t ≡ years_of_two_digits t
unfolding years_since years_of_two_digits
years-agree t ne = ground arith

-- For every date with fields in range and a two-digit year other than 70, where 71 to 99 are of the
-- last century, mkTime returns the calendar's seconds since 1970-01-01 00:00:00 by the same clock (not
-- since 08:00:00, which the comments at STARTUP_TIME say).
pub mk_time-calendar :
    (t : Time)
    → IsDate t
    → t.tm_year ≢ 70
    → mk_time t
      ≡ seconds_since (years_of_two_digits t.tm_year) t.tm_mon t.tm_mday t.tm_hour t.tm_min t.tm_sec
mk_time-calendar t d ne =
    mk_time-years t d
    ∙ ap (λ y. seconds_since y t.tm_mon t.tm_mday t.tm_hour t.tm_min t.tm_sec) same
  where
    same : years_since t.tm_year ≡ years_of_two_digits t.tm_year
    same = years-agree t.tm_year ne

seventy :
    (mon mday h min sec : ℕ)
    → seconds_since (years_since 70) mon mday h min sec
      ≡ seconds_since (years_of_two_digits 70) mon mday h min sec + 36525 * day
unfolding seconds_since years_since years_of_two_digits
seventy mon mday h min sec = omega arith

-- For every date with fields in range and the two-digit year 70, mkTime returns the seconds of the
-- same day of 2070, which differs from the seconds of the day in 1970 by 100 years, 36525 days.
pub mk_time-seventy :
    (t : Time)
    → IsDate t
    → t.tm_year ≡ 70
    → mk_time t
      ≡ seconds_since (years_of_two_digits t.tm_year) t.tm_mon t.tm_mday t.tm_hour t.tm_min t.tm_sec
        + 36525 * day
mk_time-seventy t d e = rw (mk_time-years t d, e) (seventy t.tm_mon _ _ _ _)
