-- ===== src/Time/Epoch.antt =====
-- `as_unix_epoch` counts the days of the Gregorian calendar.
use zenos.Common.{
  ℕ, zero, suc, ◌+◌, ◌-◌, ◌*◌, ◌%◌, ◌≤◌, ◌<◌, ◌≡◌, refl, ap, ◌∙◌, Bool, true, false, ◌||◌, none,
  some, if◌then◌else◌, ltb, ◌==◌, arith, not_ltb→le, if_cases, if_of_false,
}
use zenos.Time.{CurrentTime, is_leap, year_days, month_len, month_days, as_unix_epoch}

-- The Gregorian calendar: its leap years, and the days of month `m`, from 1 to 12.
abbrev pub is_leap_year : ℕ → Bool
is_leap_year year =
    if year % 400 == 0 then true else (if year % 100 == 0 then false else year % 4 == 0)

abbrev pub calendar_len : ℕ → ℕ → ℕ
calendar_len year m =
    if m == 2
    then (if is_leap_year year then 29 else 28)
    else (if m == 4 || m == 6 || m == 9 || m == 11 then 30 else 31)

-- The day after a date, at the same time of day.
abbrev pub next_day : CurrentTime → CurrentTime
next_day t =
    if ltb t.day (calendar_len t.year t.month)
    then record t { day = t.day + 1 }
    else (if ltb t.month 12
        then record t { day = 1; month = t.month + 1 }
        else record t { day = 1; month = 1; year = t.year + 1 })

-- A date of the calendar from 1970 on.
pub record ValidDate (t : CurrentTime) : Type 0 where
  pub from_1970 : 1970 ≤ t.year
  pub month_low : 1 ≤ t.month
  pub month_high : t.month ≤ 12
  pub day_low : 1 ≤ t.day
  pub day_high : t.day ≤ calendar_len t.year t.month

-- The code's table is the calendar's, counted from 0.
leap_day-calendar :
    (year : ℕ) → 28 + (if is_leap year then 1 else 0) ≡ (if is_leap_year year then 29 else 28)
leap_day-calendar year = ground arith

month_len-calendar : (year i : ℕ) → i < 12 → month_len year i ≡ calendar_len year (i + 1)
month_len-calendar year zero h = refl
month_len-calendar year (suc zero) h = leap_day-calendar year
month_len-calendar year (suc (suc zero)) h = refl
month_len-calendar year (suc (suc (suc zero))) h = refl
month_len-calendar year (suc (suc (suc (suc zero)))) h = refl
month_len-calendar year (suc (suc (suc (suc (suc zero))))) h = refl
month_len-calendar year (suc (suc (suc (suc (suc (suc zero)))))) h = refl
month_len-calendar year (suc (suc (suc (suc (suc (suc (suc zero))))))) h = refl
month_len-calendar year (suc (suc (suc (suc (suc (suc (suc (suc zero)))))))) h = refl
month_len-calendar year (suc (suc (suc (suc (suc (suc (suc (suc (suc zero))))))))) h = refl
month_len-calendar year (suc (suc (suc (suc (suc (suc (suc (suc (suc (suc zero)))))))))) h = refl
month_len-calendar year (suc (suc (suc (suc (suc (suc (suc (suc (suc (suc (suc zero))))))))))) h =
    refl
month_len-calendar year (suc (suc (suc (suc (suc (suc (suc (suc (suc (suc (suc (suc i))))))))))))
      h =
    absurd (omega arith)

month_len-calendar_pred :
    (year m : ℕ) → 1 ≤ m → m ≤ 12 → month_len year (m - 1) ≡ calendar_len year m
month_len-calendar_pred year m a b =
    month_len-calendar year (m - 1) (omega arith) ∙ ap (calendar_len year) (next m a)
  where
    next : (m : ℕ) → 1 ≤ m → m - 1 + 1 ≡ m
    next m a = omega arith

-- The days of a year.
month_days-year : (year : ℕ) → month_days year 12 ≡ (if is_leap year then 366 else 365)
unfolding month_days
month_days-year year = ground arith

-- The seconds since 1970 of a date that does not make the code panic.
seconds_of : CurrentTime → ℕ
seconds_of t =
    (year_days (t.year - 1970) + month_days t.year (t.month - 1) + t.day - 1) * 86400
    + t.hour * 3600
    + t.minute * 60
    + t.second

as_unix_epoch-some :
    (t : CurrentTime)
    → 1 ≤ t.month
    → t.month ≤ 13
    → 1 ≤ t.day
    → as_unix_epoch t ≡ some (seconds_of t)
unfolding as_unix_epoch seconds_of
as_unix_epoch-some t a b c =
    if_of_false {b = t.month == 0 || ltb 13 t.month || t.day == 0} none _ (ground arith)

-- Dates at the same time of day, one day apart.
seconds_of-day :
    (t u : CurrentTime)
    → 1 ≤ t.day
    → 1 ≤ u.day
    → u.hour ≡ t.hour
    → u.minute ≡ t.minute
    → u.second ≡ t.second
    → year_days (u.year - 1970) + month_days u.year (u.month - 1) + u.day
      ≡ suc (year_days (t.year - 1970) + month_days t.year (t.month - 1) + t.day)
    → seconds_of u ≡ seconds_of t + 86400
unfolding seconds_of
seconds_of-day t u a b h m s e = omega arith

month_days-next :
    (year m : ℕ) → 1 ≤ m → month_days year m ≡ month_days year (m - 1) + month_len year (m - 1)
unfolding month_days
month_days-next year zero h = absurd (omega arith)
month_days-next year (suc m) h = ap (λ k. month_days year k + month_len year k) (omega arith)

year_days-suc :
    (n year : ℕ)
    → 1970 + n ≡ year
    → year_days (suc n) ≡ year_days n + (if is_leap year then 366 else 365)
unfolding year_days
year_days-suc n year e = ap (λ y. year_days n + (if is_leap y then 366 else 365)) e

year_days-next :
    (year : ℕ)
    → 1970 ≤ year
    → year_days (year + 1 - 1970) ≡ year_days (year - 1970) + (if is_leap year then 366 else 365)
year_days-next year h = ap year_days (next year h) ∙ year_days-suc (year - 1970) year (omega arith)
  where
    next : (year : ℕ) → 1970 ≤ year → year + 1 - 1970 ≡ suc (year - 1970)
    next year h = omega arith

last_of : (a b : ℕ) → a ≡ b → {d : ℕ} → b ≤ d → d ≤ b → d ≡ a
last_of a b e h k = omega (arith, e, h, k)

-- The epoch is right from one day to the next: the day after any date of the calendar from 1970 on,
-- over the ends of months, of Februaries and of years, is 86400 seconds later.
pub as_unix_epoch-next_day :
    (t : CurrentTime)
    → ValidDate t
    → (s : ℕ) × ((as_unix_epoch t ≡ some s) × (as_unix_epoch (next_day t) ≡ some (s + 86400)))
unfolding month_days year_days
as_unix_epoch-next_day t v = (
  seconds_of t,
  (
    as_unix_epoch-some t v.month_low (omega (arith, v.month_high)) v.day_low,
    if_cases (λ (u : CurrentTime). as_unix_epoch u ≡ some (seconds_of t + 86400))
        (ltb t.day (calendar_len t.year t.month))
        (λ e.
          later (record t { day = t.day + 1 }) v.month_low (omega (arith, v.month_high))
            (omega arith) refl refl refl (omega arith))
        (λ e.
          if_cases (λ (u : CurrentTime). as_unix_epoch u ≡ some (seconds_of t + 86400))
            (ltb t.month 12)
            (λ f.
              later (record t { day = 1; month = t.month + 1 }) (omega arith)
                (ground (arith, v.month_high)) (omega arith) refl refl refl
                (month_end (last_day e)))
            (λ f.
              later (record t { day = 1; month = 1; year = t.year + 1 }) (omega arith) (omega arith)
                (omega arith) refl refl refl
                (year_end (ground (arith, v.month_high)) (last_day e)))),
  ),
)
  where
    later :
        (u : CurrentTime)
        → 1 ≤ u.month
        → u.month ≤ 13
        → 1 ≤ u.day
        → u.hour ≡ t.hour
        → u.minute ≡ t.minute
        → u.second ≡ t.second
        → year_days (u.year - 1970) + month_days u.year (u.month - 1) + u.day
          ≡ suc (year_days (t.year - 1970) + month_days t.year (t.month - 1) + t.day)
        → as_unix_epoch u ≡ some (seconds_of t + 86400)
    later u a b c h m s e =
        as_unix_epoch-some u a b c ∙ ap some (seconds_of-day t u v.day_low c h m s e)

    back : (m : ℕ) → m + 1 - 1 ≡ m
    back m = omega arith

    last_day :
        ltb t.day (calendar_len t.year t.month) ≡ false → t.day ≡ month_len t.year (t.month - 1)
    last_day e =
        last_of (month_len t.year (t.month - 1)) (calendar_len t.year t.month)
          (month_len-calendar_pred t.year t.month v.month_low v.month_high)
          (not_ltb→le t.day (calendar_len t.year t.month) e) v.day_high

    month_end :
        t.day ≡ month_len t.year (t.month - 1)
        → year_days (t.year - 1970) + month_days t.year (t.month + 1 - 1) + 1
          ≡ suc (year_days (t.year - 1970) + month_days t.year (t.month - 1) + t.day)
    month_end e =
        ap (λ m. year_days (t.year - 1970) + month_days t.year m + 1) (back t.month)
        ∙ omega (arith, e, month_days-next t.year t.month v.month_low)

    year_end :
        t.month ≡ 12
        → t.day ≡ month_len t.year (t.month - 1)
        → year_days (t.year + 1 - 1970) + month_days (t.year + 1) 0 + 1
          ≡ suc (year_days (t.year - 1970) + month_days t.year (t.month - 1) + t.day)
    year_end a e = omega (
      arith,
      e,
      year_days-next t.year v.from_1970,
      month_days-next t.year t.month v.month_low,
      month_days-year t.year,
      ap (month_days t.year) a,
    )
