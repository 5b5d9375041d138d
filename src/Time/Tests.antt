-- ===== src/Time/Tests.antt =====
-- The theorems on the clock applied to a leap year's end of February and to a boot at 10:15:30.
use zenos.Common.{ℕ, ◌+◌, ◌/◌, ◌≡◌, ◌<◌, u64_size, false, some, arith}
use zenos.Time.{Clock, CurrentTime, to_seconds_since_midnight, as_unix_epoch}
use zenos.Time.Epoch.{ValidDate, next_day, as_unix_epoch-next_day}

-- 2024-02-29 10:15:30.
abbrev leap_day : CurrentTime
leap_day = record { second = 30; minute = 15; hour = 10; day = 29; month = 2; year = 2024 }

leap_day-Valid : ValidDate leap_day
leap_day-Valid = record {
  from_1970 = omega arith;
  month_low = omega arith;
  month_high = omega arith;
  day_low = omega arith;
  day_high = omega arith;
}

as_unix_epoch-next_day_example :
    (s : ℕ) × ((as_unix_epoch leap_day ≡ some s)
      × (as_unix_epoch (next_day leap_day) ≡ some (s + 86400)))
as_unix_epoch-next_day_example = as_unix_epoch-next_day leap_day leap_day-Valid

-- 500 ticks before the first call of `current_time`.
abbrev booting : Clock
booting = record {
  boot_time_secs = 0;
  boot_day = 0;
  boot_month = 0;
  boot_year = 0;
  boot_time_initialized = false;
  tick_count = 500;
}

seconds_fit : to_seconds_since_midnight leap_day + (500 + 3) / 100 < u64_size
unfolding to_seconds_since_midnight
seconds_fit = omega arith
