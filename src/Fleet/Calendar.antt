-- ===== src/Fleet/Calendar.antt =====
-- The part of Python's `datetime` that src/zamboni/fleet.py computes with: UTC moments to the minute, the
-- next minute, hour, day and month, `toordinal` and `isoweekday`. Years are not bounded above.
pub mod Order
pub mod Steps
use zamboni.Base.{
  ℕ, zero, suc, ◌+◌, ◌-◌, ◌*◌, ◌/◌, ◌%◌, ◌≤◌, ◌<◌, ◌≡◌, ◌⊎◌, Bool, not, ◌&&◌, ◌||◌, ltb, ◌==◌, true,
  false, if◌then◌else◌,
}

pub record Moment : Type 0 where
  pub year : ℕ
  pub month : ℕ
  pub day : ℕ
  pub hour : ℕ
  pub minute : ℕ

abbrev pub moment : ℕ → ℕ → ℕ → ℕ → ℕ → Moment
moment y m d h n = record { year = y; month = m; day = d; hour = h; minute = n }

-- `calendar.isleap`
unfoldable pub is_leap : ℕ → Bool
is_leap year = (year % 4 == 0) && ((year % 400 == 0) || not (year % 100 == 0))

unfoldable pub common_days : ℕ → ℕ
common_days month =
    if (month == 9) || ((month == 4) || ((month == 6) || (month == 11)))
    then 30
    else if month == 2
    then 28
    else 31

unfoldable pub days_in_month : ℕ → ℕ → ℕ
days_in_month year month = common_days month + (if (month == 2) && is_leap year then 1 else 0)

-- The days of a year before a month.
unfoldable pub days_before_month : ℕ → ℕ → ℕ
days_before_month year zero = 0
days_before_month year (suc n) =
    days_before_month year n + (if n == 0 then 0 else days_in_month year n)

-- The days before a year, from year 1 on.
unfoldable pub days_before_year : ℕ → ℕ
days_before_year year = 365 * (year - 1) + ((year - 1) / 400 + (year - 1) / 4) - (year - 1) / 100

-- `date.toordinal`
unfoldable pub ordinal : Moment → ℕ
ordinal t = days_before_year t.year + days_before_month t.year t.month + t.day

-- `isoweekday() % 7`: Sunday is 0.
unfoldable pub weekday : Moment → ℕ
weekday t = ordinal t % 7

-- The minutes from a fixed moment: a difference of two is that of the moments.
unfoldable pub minutes_of : Moment → ℕ
minutes_of t = (ordinal t * 24 + t.hour) * 60 + t.minute

pub record IsValid (t : Moment) : Type 0 where
  pub year_ok : 1 ≤ t.year
  pub month_ok : (1 ≤ t.month) × (t.month ≤ 12)
  pub day_ok : (1 ≤ t.day) × (t.day ≤ days_in_month t.year t.month)
  pub hour_in : t.hour < 24
  pub minute_in : t.minute < 60

-- `t` comes before `u`, field by field.
abbrev pub Before : Moment → Moment → Type 0
Before t u =
    (t.year < u.year)
    ⊎ ((t.year ≡ u.year)
        × ((t.month < u.month)
            ⊎ ((t.month ≡ u.month)
                × ((t.day < u.day)
                    ⊎ ((t.day ≡ u.day)
                        × ((t.hour < u.hour) ⊎ ((t.hour ≡ u.hour) × (t.minute < u.minute))))))))

-- `t.replace(day=1, hour=0, minute=0)` of the month after.
unfoldable pub first_of_next_month : Moment → Moment
first_of_next_month t =
    if t.month == 12 then moment (t.year + 1) 1 1 0 0 else moment t.year (t.month + 1) 1 0 0

-- `t.replace(hour=0, minute=0) + timedelta(days=1)`
unfoldable pub next_day : Moment → Moment
next_day t =
    if ltb t.day (days_in_month t.year t.month)
    then moment t.year t.month (t.day + 1) 0 0
    else first_of_next_month t

-- `t.replace(minute=0) + timedelta(hours=1)`
unfoldable pub next_hour : Moment → Moment
next_hour t = if ltb t.hour 23 then moment t.year t.month t.day (t.hour + 1) 0 else next_day t

-- `t + timedelta(minutes=1)`
unfoldable pub next_minute : Moment → Moment
next_minute t =
    if ltb t.minute 59 then moment t.year t.month t.day t.hour (t.minute + 1) else next_hour t

abbrev pub SameMonth : Moment → Moment → Type 0
SameMonth t u = (t.year ≡ u.year) × (t.month ≡ u.month)

abbrev pub SameDay : Moment → Moment → Type 0
SameDay t u = (t.year ≡ u.year) × (t.month ≡ u.month) × (t.day ≡ u.day)

abbrev pub SameHour : Moment → Moment → Type 0
SameHour t u = (t.year ≡ u.year) × (t.month ≡ u.month) × (t.day ≡ u.day) × (t.hour ≡ u.hour)

abbrev pub SameMinute : Moment → Moment → Type 0
SameMinute t u =
    (t.year ≡ u.year)
    × (t.month ≡ u.month)
    × (t.day ≡ u.day)
    × (t.hour ≡ u.hour)
    × (t.minute ≡ u.minute)

-- `u` is not before `t`.
abbrev pub From : Moment → Moment → Type 0
From t u = Before t u ⊎ SameMinute t u
