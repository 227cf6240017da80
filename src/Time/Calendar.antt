-- ===== src/Time/Calendar.antt =====
-- The Gregorian calendar from 1970 on, counted year by year and month by month: the reference that
-- kernel/time.c is held against.
use operator_system.Common.{
  ℕ, zero, suc, ◌+◌, ◌-◌, ◌*◌, ◌%◌, Bool, not, ◌&&◌, ◌||◌, ◌==◌, if◌then◌else◌,
}

-- divisible by 4, and by 100 only if by 400
unfoldable pub is_leap : ℕ → Bool
is_leap y = y % 4 == 0 && (not (y % 100 == 0) || y % 400 == 0)

-- the days of the `n` years from 1970 on
unfoldable pub days_of_years : ℕ → ℕ
unfolding is_leap
days_of_years zero = 0
days_of_years (suc n) = days_of_years n + (if is_leap (1970 + n) then 366 else 365)

-- the days of month `m`, counted from 0
unfoldable pub days_in_month : Bool → ℕ → ℕ
days_in_month leap m =
    if m == 1
    then (if leap then 29 else 28)
    else if m == 3 || m == 5 || m == 8 || m == 10
    then 30
    else 31

-- the days before month `m`
unfoldable pub days_of_months : Bool → ℕ → ℕ
unfolding days_in_month
days_of_months leap zero = 0
days_of_months leap (suc m) = days_of_months leap m + days_in_month leap m

-- The seconds from 1970-01-01 00:00:00 to a moment of the `y`-th year after 1970; `mon` counts from
-- 0 and `mday` from 1.
unfoldable pub seconds_since : (y mon mday h min sec : ℕ) → ℕ
unfolding days_of_years days_of_months
seconds_since y mon mday h min sec =
    86400 * (days_of_years y + days_of_months (is_leap (1970 + y)) mon + (mday - 1))
    + 3600 * h
    + 60 * min
    + sec
