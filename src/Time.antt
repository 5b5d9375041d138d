-- ===== src/Time.antt =====
-- The clock of zenos-kernel/src/time.rs: the RTC's registers, the tick counter, the Unix epoch.
pub mod Epoch
pub mod Day
mod Tests
use zenos.Common.{
  ℕ, zero, suc, ◌+◌, ◌-◌, ◌*◌, ◌/◌, ◌%◌, min, Bool, true, false, ◌&&◌, ◌||◌, not, List, [], ◌∷◌,
  Option, none, some, if◌then◌else◌, ltb, leb, ◌==◌, get_or, u64_size,
}

-- The statics of the module. `tick_count` is what the timer interrupt counts, 100 to the second.
pub record Clock : Type 0 where
  pub boot_time_secs : ℕ
  pub boot_day : ℕ
  pub boot_month : ℕ
  pub boot_year : ℕ
  pub boot_time_initialized : Bool
  pub tick_count : ℕ

pub record CurrentTime : Type 0 where
  pub second : ℕ
  pub minute : ℕ
  pub hour : ℕ
  pub day : ℕ
  pub month : ℕ
  pub year : ℕ

unfoldable pub tick : Clock → Clock
tick c = record c { tick_count = (c.tick_count + 1) % u64_size }

unfoldable pub to_seconds_since_midnight : CurrentTime → ℕ
to_seconds_since_midnight t = t.hour * 3600 + t.minute * 60 + t.second

-- `day.saturating_add(days_elapsed as u8).min(31)`.
abbrev pub later_day : ℕ → ℕ → ℕ
later_day day days_elapsed = min (min (day + days_elapsed % 256) 255) 31

unfoldable pub from_seconds_with_date : ℕ → ℕ → ℕ → ℕ → CurrentTime
from_seconds_with_date secs day month year = record {
  second = secs % 86400 % 3600 % 60 % 256;
  minute = secs % 86400 % 3600 / 60 % 256;
  hour = secs % 86400 / 3600 % 256;
  day = later_day day (secs / 86400);
  month = month;
  year = year;
}

-- `(val & 0x0F) + ((val >> 4) * 10)`.
abbrev pub bcd_to_bin : ℕ → ℕ
bcd_to_bin val = val % 16 + val / 16 * 10

-- The registers 0x00, 0x02, 0x04, 0x07, 0x08 and 0x09, read in one go; there is no century register.
pub record Registers : Type 0 where
  pub seconds : ℕ
  pub minutes : ℕ
  pub hours : ℕ
  pub day_of_month : ℕ
  pub month_of_year : ℕ
  pub year_of_century : ℕ

abbrev pub current_year : ℕ
current_year = 2026

-- Whether bit 2 of register B is clear: the registers hold BCD.
abbrev pub is_bcd : ℕ → Bool
is_bcd register_b = register_b / 4 % 2 == 0

-- Bit 1 clear is the 12-hour clock; bit 7 of the hour says that it is after noon.
abbrev pub is_pm : ℕ → ℕ → Bool
is_pm register_b hours = register_b / 2 % 2 == 0 && hours / 128 % 2 == 1

-- `hr & 0x7F` is done for BCD only; `hr + 12` is a `u8`.
unfoldable pub hour_24 : ℕ → ℕ → ℕ
hour_24 register_b hours =
    let hr = if is_bcd register_b then bcd_to_bin (hours % 128) else hours in
    if is_pm register_b hours then (hr + 12) % 256 % 24 else hr

abbrev pub full_year : ℕ → ℕ
full_year yr =
    let full = current_year / 100 * 100 + yr in if ltb full current_year then full + 100 else full

abbrev pub decode : ℕ → ℕ → ℕ
decode register_b val = if is_bcd register_b then bcd_to_bin val else val

unfoldable pub from_registers : ℕ → Registers → CurrentTime
from_registers register_b r = record {
  second = decode register_b r.seconds;
  minute = decode register_b r.minutes;
  hour = hour_24 register_b r.hours;
  day = decode register_b r.day_of_month;
  month = decode register_b r.month_of_year;
  year = full_year (decode register_b r.year_of_century);
}

abbrev pub same : Registers → Registers → Bool
same a b =
    a.seconds == b.seconds
    && a.minutes == b.minutes
    && a.hours == b.hours
    && a.day_of_month == b.day_of_month
    && a.month_of_year == b.month_of_year
    && a.year_of_century == b.year_of_century

abbrev pub zero_registers : Registers
zero_registers = record {
  seconds = 0;
  minutes = 0;
  hours = 0;
  day_of_month = 0;
  month_of_year = 0;
  year_of_century = 0;
}

-- The loop of `read_rtc` over what the registers hold each time that no update is going on, from the
-- last reading on; `none` where it still loops.
unfoldable pub read_stable : Registers → List Registers → Option Registers
read_stable last [] = none
read_stable last (current ∷ rest) =
    if same current last then some current else read_stable current rest

-- `read_rtc` with register B.
unfoldable pub read_rtc : ℕ → List Registers → Option CurrentTime
read_rtc register_b readings = elim (read_stable zero_registers readings) [
  | none ↦ none
  | some r ↦ some (from_registers register_b r)
]

-- The first call reads the RTC and keeps its time and date; `rtc` is what that reading gives.
unfoldable pub current_time : CurrentTime → Clock → CurrentTime × Clock
current_time rtc c =
    if c.boot_time_initialized
    then (
      from_seconds_with_date ((c.boot_time_secs + c.tick_count / 100) % u64_size) (c.boot_day % 256)
          (c.boot_month % 256) (c.boot_year % 65536),
      c,
    )
    else (
      rtc,
      record c {
        boot_time_secs = to_seconds_since_midnight rtc;
        boot_day = rtc.day;
        boot_month = rtc.month;
        boot_year = rtc.year;
        boot_time_initialized = true;
      },
    )

abbrev pub is_leap : ℕ → Bool
is_leap year = (year % 4 == 0 && not (year % 100 == 0)) || year % 400 == 0

abbrev pub days_in_month : List ℕ
days_in_month = 31 ∷ 28 ∷ 31 ∷ 30 ∷ 31 ∷ 30 ∷ 31 ∷ 31 ∷ 30 ∷ 31 ∷ 30 ∷ 31 ∷ []

-- The days after `years` turns of the loop over `1970..year`.
unfoldable pub year_days : ℕ → ℕ
year_days zero = 0
year_days (suc years) = year_days years + (if is_leap (1970 + years) then 366 else 365)

-- What month `m`, counted from 0, adds to the days.
abbrev pub month_len : ℕ → ℕ → ℕ
month_len year m = get_or days_in_month m 0 + (if m == 1 && is_leap year then 1 else 0)

-- The days after `months` turns of the loop over the months.
unfoldable pub month_days : ℕ → ℕ → ℕ
month_days year zero = 0
month_days year (suc months) = month_days year months + month_len year months

-- `none` where the code panics: a month 0 or past 13, which is no index of the table, or a day 0.
unfoldable pub as_unix_epoch : CurrentTime → Option ℕ
as_unix_epoch t =
    if t.month == 0 || ltb 13 t.month || t.day == 0
    then none
    else some (
        (year_days (t.year - 1970) + month_days t.year (t.month - 1) + t.day - 1) * 86400
        + t.hour * 3600
        + t.minute * 60
        + t.second)
