-- ===== src/Time.antt =====
-- kernel/time.c: the CMOS clock, the seconds since the epoch and the timer interrupt.
pub mod Calendar
pub mod MkTime
pub mod Startup
mod Tests
use operator_system.Common.{
  ℕ, ◌+◌, ◌-◌, ◌*◌, ◌/◌, ◌%◌, ◌^◌, List, [], ◌∷◌, ltb, ◌==◌, if◌then◌else◌, not, ◌&&◌, get_or,
}

-- MINUTE, HOUR, DAY, YEAR
abbrev pub minute : ℕ
minute = 60

abbrev pub hour : ℕ
hour = 60 * minute

abbrev pub day : ℕ
day = 24 * hour

abbrev pub year : ℕ
year = 365 * day

-- BCD_TO_BIN(val): ((val) & 0xF) + ((val) >> 4) * 10
unfoldable pub bcd_to_bin : ℕ → ℕ
bcd_to_bin val = val % 2 ^ 4 + val / 2 ^ 4 * 10

-- `TIME`; the fields that mkTime does not read are kept.
pub record Time : Type 0 where
  pub tm_sec : ℕ
  pub tm_min : ℕ
  pub tm_hour : ℕ
  pub tm_mday : ℕ
  pub tm_mon : ℕ
  pub tm_year : ℕ
  pub tm_wday : ℕ
  pub tm_yday : ℕ

-- the table `month` of mkTime: the seconds of a leap year before each month
abbrev pub month : List ℕ
month =
    0
    ∷ (day * 31)
    ∷ (day * (31 + 29))
    ∷ (day * (31 + 29 + 31))
    ∷ (day * (31 + 29 + 31 + 30))
    ∷ (day * (31 + 29 + 31 + 30 + 31))
    ∷ (day * (31 + 29 + 31 + 30 + 31 + 30))
    ∷ (day * (31 + 29 + 31 + 30 + 31 + 30 + 31))
    ∷ (day * (31 + 29 + 31 + 30 + 31 + 30 + 31 + 31))
    ∷ (day * (31 + 29 + 31 + 30 + 31 + 30 + 31 + 31 + 30))
    ∷ (day * (31 + 29 + 31 + 30 + 31 + 30 + 31 + 31 + 30 + 31))
    ∷ (day * (31 + 29 + 31 + 30 + 31 + 30 + 31 + 31 + 30 + 31 + 30))
    ∷ []

-- the years since 1970 of a two-digit year
unfoldable pub years_since : ℕ → ℕ
years_since tm_year = if ltb 70 tm_year then tm_year - 70 else tm_year + 100 - 70

-- mkTime; `rs` is a u_32, and every `+=` and `-=` wraps. A read of `month` past its end gives 0.
unfoldable pub mk_time : Time → ℕ
mk_time time =
    let y = years_since time.tm_year in
    let rs = (year * y + day * ((y + 1) / 4)) % 2 ^ 32 in
    let rs = (rs + get_or month time.tm_mon 0) % 2 ^ 32 in
    let rs =
      if ltb 1 time.tm_mon && not ((y + 2) % 4 == 0) then (rs + 2 ^ 32 - day) % 2 ^ 32 else rs in
    (rs
      + day * (time.tm_mday + 2 ^ 32 - 1)
      + hour * time.tm_hour
      + minute * time.tm_min
      + time.tm_sec)
    % 2 ^ 32

-- What initTime leaves behind: TICKS, STARTUP_TIME, and the bytes that it writes to ports, in order
-- (an index written to CMOS_CTL before each read, then the 8253's control word and divisor).
pub record Started : Type 0 where
  pub ticks : ℕ
  pub startup_time : ℕ
  pub outs : List (ℕ × ℕ)

-- the six reads of initTime; `cmos i` is the byte that inByte(CMOS_VALUE) returns after `i` was
-- written to CMOS_CTL. `tm_mon--` is on a u_16.
unfoldable pub read_clock : (cmos : ℕ → ℕ) → Time
unfolding bcd_to_bin
read_clock cmos = record {
  tm_sec = bcd_to_bin (cmos 0x80);
  tm_min = bcd_to_bin (cmos 0x82);
  tm_hour = bcd_to_bin (cmos 0x84);
  tm_mday = bcd_to_bin (cmos 0x87);
  tm_mon = (bcd_to_bin (cmos 0x88) + 2 ^ 16 - 1) % 2 ^ 16;
  tm_year = bcd_to_bin (cmos 0x89);
  tm_wday = 0;
  tm_yday = 0;
}

-- TIMER_FREQ / HZ
abbrev pub timer_divisor : ℕ
timer_divisor = 1193182 / 100

-- initTime, without the two calls at its end that set the clock interrupt up
unfoldable pub init_time : (cmos : ℕ → ℕ) → Started
unfolding read_clock mk_time
init_time cmos = record {
  ticks = 0;
  startup_time = mk_time (read_clock cmos);
  outs =
      (0x70, 0x80)
      ∷ (0x70, 0x82)
      ∷ (0x70, 0x84)
      ∷ (0x70, 0x87)
      ∷ (0x70, 0x88)
      ∷ (0x70, 0x89)
      ∷ (0x43, 0x34)
      ∷ (0x40, timer_divisor % 2 ^ 8)
      ∷ (0x40, timer_divisor / 2 ^ 8 % 2 ^ 8)
      ∷ [];
}
