-- ===== src/Time/Tests.antt =====
-- Dates through mkTime.
use operator_system.Common.{ℕ, ◌≡◌, refl, ◌==◌, if◌then◌else◌, arith}
use operator_system.Time
use operator_system.Time.{Time, day, mk_time, read_clock, init_time}
use operator_system.Time.Calendar.{seconds_since}
use operator_system.Time.MkTime.{IsDate, years_of_two_digits, mk_time-calendar}
use operator_system.Time.Startup.{bcd, Shows, init_time-calendar}

-- 2020-09-13 13:26:46
abbrev moment : Time
moment = record {
  tm_sec = 46;
  tm_min = 26;
  tm_hour = 13;
  tm_mday = 13;
  tm_mon = 8;
  tm_year = 20;
  tm_wday = 0;
  tm_yday = 0;
}

moment_seconds : mk_time moment ≡ 1600003606
unfolding mk_time Time.years_since
moment_seconds = refl

moment-IsDate : IsDate moment
moment-IsDate = omega arith

mk_time-calendar_example : mk_time moment ≡ seconds_since (years_of_two_digits 20) 8 13 13 26 46
mk_time-calendar_example = mk_time-calendar moment moment-IsDate (omega arith)

-- a clock that shows `moment`
abbrev clock : ℕ → ℕ
clock i =
    if i == 0x80
    then 0x46
    else if i == 0x82
    then 0x26
    else if i == 0x84
    then 0x13
    else if i == 0x87
    then 0x13
    else if i == 0x88
    then 0x09
    else 0x20

shows : Shows clock moment
unfolding bcd
shows = record { sec = refl; min = refl; hour = refl; mday = refl; mon = refl; year = refl }

init_time-calendar_example :
    ((init_time clock).startup_time ≡ seconds_since (years_of_two_digits 20) 8 13 13 26 46)
    × ((init_time clock).ticks ≡ 0)
init_time-calendar_example = init_time-calendar clock moment shows moment-IsDate (omega arith)
