-- ===== src/Time/Day.antt =====
-- The time of day, from the RTC and from the tick counter.
use zenos.Common.{
  ℕ, zero, suc, ◌+◌, ◌*◌, ◌/◌, ◌%◌, ◌≤◌, ◌<◌, ◌≡◌, refl, ap, ◌∙◌, Bool, true, false, not,
  if◌then◌else◌, ◌==◌, arith, if_of_true, if_of_false, u64_size,
}
use zenos.Time.{
  Clock, CurrentTime, tick, to_seconds_since_midnight, from_seconds_with_date, bcd_to_bin, is_bcd,
  hour_24, current_time,
}

-- Seconds since midnight and a time of day are each other's inverse, within a day; further days go
-- into the date alone.
pub to_seconds-from_seconds :
    (secs day month year : ℕ)
    → to_seconds_since_midnight (from_seconds_with_date secs day month year) ≡ secs % 86400
unfolding to_seconds_since_midnight from_seconds_with_date
to_seconds-from_seconds secs day month year = omega arith

-- The BCD byte of a number below 100.
abbrev pub to_bcd : ℕ → ℕ
to_bcd n = n / 10 * 16 + n % 10

bcd_to_bin-to_bcd : (n : ℕ) → n < 100 → bcd_to_bin (to_bcd n) ≡ n
bcd_to_bin-to_bcd n h = omega arith

-- The hour of a clock that shows `h`, from 1 to 12, before or after noon.
abbrev pub hour_of_day : ℕ → Bool → ℕ
hour_of_day h pm = h % 12 + (if pm then 12 else 0)

-- What the register holds for it, in BCD on a 12-hour clock.
abbrev pub hour_register : ℕ → Bool → ℕ
hour_register h pm = to_bcd h + (if pm then 128 else 0)

-- With a 12-hour clock in BCD the hour read is right, except that at twelve noon and midnight are
-- exchanged: noon reads as 0, and midnight as 12.
pub hour_24-twelve :
    (register_b h : ℕ) (pm : Bool)
    → is_bcd register_b ≡ true
    → register_b / 2 % 2 ≡ 0
    → 1 ≤ h
    → h ≤ 12
    → hour_24 register_b (hour_register h pm)
      ≡ (if h == 12 then hour_of_day h (not pm) else hour_of_day h pm)
unfolding hour_24
hour_24-twelve register_b h true bcd twelve low high =
    ground (arith, bcd_to_bin-to_bcd h (omega arith))
hour_24-twelve register_b h false bcd twelve low high =
    ground (arith, bcd_to_bin-to_bcd h (omega arith))

-- The timer interrupt `n` times.
abbrev pub ticks : ℕ → Clock → Clock
ticks zero c = c
ticks (suc n) c = ticks n (tick c)

ticks-count :
    (n : ℕ) (c : Clock)
    → c.tick_count + n < u64_size
    → ticks n c ≡ record c { tick_count = c.tick_count + n }
unfolding tick
ticks-count zero c h = ap (λ k. record c { tick_count = k }) (omega arith)
ticks-count (suc n) c h =
    ap (λ k. ticks n (record c { tick_count = k })) (wraps_not c.tick_count (omega arith))
    ∙ (ticks-count n (record c { tick_count = c.tick_count + 1 }) (omega arith)
        ∙ ap (λ k. record c { tick_count = k }) (shift c.tick_count n))
  where
    wraps_not : (k : ℕ) → k + 1 < u64_size → (k + 1) % u64_size ≡ k + 1
    wraps_not k l = omega arith

    shift : (k m : ℕ) → k + 1 + m ≡ k + suc m
    shift k m = omega arith

booted : CurrentTime → Clock → Clock
booted rtc c = record c {
  boot_time_secs = to_seconds_since_midnight rtc;
  boot_day = rtc.day;
  boot_month = rtc.month;
  boot_year = rtc.year;
  boot_time_initialized = true;
}

first_call :
    (rtc : CurrentTime) (c : Clock)
    → c.boot_time_initialized ≡ false
    → current_time rtc c ≡ (rtc, booted rtc c)
unfolding current_time booted
first_call rtc c e = if_of_false _ _ e

later_call :
    (rtc : CurrentTime) (c : Clock)
    → c.boot_time_initialized ≡ true
    → c.boot_time_secs + c.tick_count / 100 < u64_size
    → to_seconds_since_midnight (current_time rtc c).0
      ≡ (c.boot_time_secs + c.tick_count / 100) % 86400
unfolding current_time
later_call rtc c e h =
    ap (λ (r : CurrentTime × Clock). to_seconds_since_midnight r.0) (if_of_true _ _ e)
    ∙ (to_seconds-from_seconds _ _ _ _
        ∙ ap (λ s. s % 86400) (fits (c.boot_time_secs + c.tick_count / 100) h))
  where
    fits : (k : ℕ) → k < u64_size → k % u64_size ≡ k
    fits k l = omega arith

-- The first call gives the RTC's time; a call `n` ticks later gives that time of day and the seconds
-- of all ticks since the start, so also of those before the first call, by which the clock is ahead.
pub current_time-ticks :
    (rtc other : CurrentTime) (c : Clock) (n : ℕ)
    → c.boot_time_initialized ≡ false
    → c.tick_count + n < u64_size
    → to_seconds_since_midnight rtc + (c.tick_count + n) / 100 < u64_size
    → ((current_time rtc c).0 ≡ rtc)
      × (to_seconds_since_midnight (current_time other (ticks n (current_time rtc c).1)).0
          ≡ (to_seconds_since_midnight rtc + (c.tick_count + n) / 100) % 86400)
unfolding booted
current_time-ticks rtc other c n init low short = (
  ap (λ r. r.0) (first_call rtc c init),
  ap (λ d. to_seconds_since_midnight (current_time other d).0)
        (ap (λ r. ticks n r.1) (first_call rtc c init) ∙ ticks-count n (booted rtc c) low)
      ∙ later_call other (record (booted rtc c) { tick_count = c.tick_count + n }) refl short,
)
