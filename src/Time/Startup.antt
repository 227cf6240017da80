-- ===== src/Time/Startup.antt =====
-- initTime of kernel/time.c: the startup time from the CMOS clock.
use operator_system.Common.{ℕ, ◌+◌, ◌*◌, ◌/◌, ◌%◌, ◌≡◌, ◌≢◌, refl, ap, ◌∙◌, arith}
use operator_system.Time.{Time, bcd_to_bin, mk_time, read_clock, init_time}
use operator_system.Time.Calendar.{seconds_since}
use operator_system.Time.MkTime.{IsDate, years_of_two_digits, mk_time-calendar}

-- the byte that holds two decimal digits
unfoldable pub bcd : ℕ → ℕ
bcd n = n / 10 * 16 + n % 10

bcd_to_bin-bcd : (n : ℕ) → bcd_to_bin (bcd n) ≡ n
unfolding bcd_to_bin bcd
bcd_to_bin-bcd n = omega arith

-- The CMOS clock shows the date `t`, its month counted from 1, in binary-coded decimal.
pub record Shows (cmos : ℕ → ℕ) (t : Time) : Type 0 where
  pub sec : cmos 0x80 ≡ bcd t.tm_sec
  pub min : cmos 0x82 ≡ bcd t.tm_min
  pub hour : cmos 0x84 ≡ bcd t.tm_hour
  pub mday : cmos 0x87 ≡ bcd t.tm_mday
  pub mon : cmos 0x88 ≡ bcd (t.tm_mon + 1)
  pub year : cmos 0x89 ≡ bcd t.tm_year

decode : {b n : ℕ} → b ≡ bcd n → bcd_to_bin b ≡ n
decode {b} {n} e = ap bcd_to_bin e ∙ bcd_to_bin-bcd n

record SameMoment (a b : Time) : Type 0 where
  sec : a.tm_sec ≡ b.tm_sec
  min : a.tm_min ≡ b.tm_min
  hour : a.tm_hour ≡ b.tm_hour
  mday : a.tm_mday ≡ b.tm_mday
  mon : a.tm_mon ≡ b.tm_mon
  year : a.tm_year ≡ b.tm_year

mk_time-same : (a b : Time) → SameMoment a b → mk_time a ≡ mk_time b
unfolding mk_time
mk_time-same a b s = simp (s.sec, s.min, s.hour, s.mday, s.mon, s.year)

clock-fields : (cmos : ℕ → ℕ) (t : Time) → Shows cmos t → IsDate t → SameMoment (read_clock cmos) t
unfolding read_clock
clock-fields cmos t s d = record {
  sec = decode s.sec;
  min = decode s.min;
  hour = decode s.hour;
  mday = decode s.mday;
  mon = omega (arith, decode s.mon);
  year = decode s.year;
}

-- Where the clock shows a date with fields in range, and its two-digit year is not 70, initTime sets
-- STARTUP_TIME to the calendar's seconds since 1970-01-01 00:00:00 by the same clock (not since
-- 08:00:00, which the comments at STARTUP_TIME say), and TICKS to 0.
pub init_time-calendar :
    (cmos : ℕ → ℕ) (t : Time)
    → Shows cmos t
    → IsDate t
    → t.tm_year ≢ 70
    → ((init_time cmos).startup_time
        ≡ seconds_since
            (years_of_two_digits t.tm_year)
            t.tm_mon
            t.tm_mday
            t.tm_hour
            t.tm_min
            t.tm_sec)
      × ((init_time cmos).ticks ≡ 0)
unfolding init_time
init_time-calendar cmos t s d ne =
    (mk_time-same (read_clock cmos) t (clock-fields cmos t s d) ∙ mk_time-calendar t d ne, refl)
