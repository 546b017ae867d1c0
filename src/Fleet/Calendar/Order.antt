-- ===== src/Fleet/Calendar/Order.antt =====
-- Moments in order: the count of minutes follows the order of the fields, and the steps of the calendar go
-- to the first moment of the next minute, hour, day and month.
use native.Mathlib.Decide.{le_ind}
use zamboni.Base.{
  ℕ, suc, ◌+◌, ◌*◌, ◌≤◌, ◌<◌, ◌≡◌, ◌⊎◌, inl, inr, refl, ap, ap₂, if◌then◌else◌, arith,
}
use zamboni.Fleet.Calendar.{
  Moment, IsValid, Before, From, SameMinute, is_leap, common_days, days_in_month, days_before_month,
  days_before_year, ordinal, minutes_of,
}

-- The next month starts after this one.
month_after :
    (y m : ℕ) → 1 ≤ m → days_before_month y (suc m) ≡ days_before_month y m + days_in_month y m
unfolding days_before_month
month_after y m h = ground arith

-- Every month has a first day.
pub days_in_month-pos : (y m : ℕ) → 1 ≤ days_in_month y m
unfolding days_in_month common_days
days_in_month-pos y m = ground arith

-- A later month starts after all of an earlier one.
month-lt :
    (y m n : ℕ) → 1 ≤ m → m < n → days_before_month y m + days_in_month y m ≤ days_before_month y n
month-lt y m n h =
    le_ind (λ k. days_before_month y m + days_in_month y m ≤ days_before_month y k)
      (omega (arith, month_after y m h))
      (λ k le ih. omega (arith, ih, month_after y k (omega arith))) n

year_length : ℕ → ℕ
year_length year = 365 + (if is_leap year then 1 else 0)

-- All months together are as long as the year.
months_sum : (y : ℕ) → days_before_month y 13 ≡ year_length y
unfolding days_before_month days_in_month common_days year_length
months_sum y = ground arith

-- The next year starts after this one.
year_after : (y : ℕ) → 1 ≤ y → days_before_year (suc y) ≡ days_before_year y + year_length y
unfolding days_before_year year_length is_leap
year_after y h = ground arith

-- A later year starts after all of an earlier one.
year-lt : (y n : ℕ) → 1 ≤ y → y < n → days_before_year y + year_length y ≤ days_before_year n
year-lt y n h =
    le_ind (λ k. days_before_year y + year_length y ≤ days_before_year k)
      (omega (arith, year_after y h)) (λ k le ih. omega (arith, ih, year_after k (omega arith))) n

-- The count of minutes follows the order of the fields.
pub minutes_of-Before :
    (t u : Moment) → IsValid t → IsValid u → Before t u → minutes_of t < minutes_of u
unfolding minutes_of ordinal
minutes_of-Before t u v w (inl y) =
    let year = year-lt t.year u.year v.year_ok y in
    let month = month-lt t.year t.month 13 v.month_ok.0 (omega (arith, v.month_ok)) in
    omega (arith, year, month, months_sum t.year, v.day_ok, v.hour_in, v.minute_in, w.day_ok)
minutes_of-Before t u v w (inr (y, inl m)) =
    let month = month-lt t.year t.month u.month v.month_ok.0 m in
    let same = ap days_before_year y in
    let same_month = ap (λ n. days_before_month n u.month) y in
    omega (arith, month, same, same_month, v.day_ok, v.hour_in, v.minute_in, w.day_ok)
minutes_of-Before t u v w (inr (y, inr (m, inl d))) =
    let same = ap days_before_year y in
    let same_month = ap₂ days_before_month y m in
    omega (arith, same, same_month, v.hour_in, v.minute_in, d)
minutes_of-Before t u v w (inr (y, inr (m, inr (d, inl h)))) =
    let same = ap days_before_year y in
    let same_month = ap₂ days_before_month y m in omega (arith, same, same_month, v.minute_in, d, h)
minutes_of-Before t u v w (inr (y, inr (m, inr (d, inr (h, n))))) =
    let same = ap days_before_year y in
    let same_month = ap₂ days_before_month y m in omega (arith, same, same_month, d, h, n)

minutes_of-SameMinute : (t u : Moment) → SameMinute t u → minutes_of t ≡ minutes_of u
unfolding minutes_of ordinal
minutes_of-SameMinute t u (y, m, d, h, n) = rw (y, m, d, h, n) refl

pub minutes_of-From :
    (t u : Moment) → IsValid t → IsValid u → From t u → minutes_of t ≤ minutes_of u
minutes_of-From t u v w (inl b) = omega (arith, minutes_of-Before t u v w b)
minutes_of-From t u v w (inr same) = omega (arith, minutes_of-SameMinute t u same)

-- Of two moments one comes before the other, unless no field differs.
pub Before-From : (t u : Moment) → Before u t ⊎ From t u
Before-From t u = ground arith

pub From-trans : (t u w : Moment) → From t u → From u w → From t w
From-trans t u w f g = ground arith

pub Before-From-trans : (t u w : Moment) → Before t u → From u w → Before t w
Before-From-trans t u w f g = ground arith

-- No day is past the end of its year.
ordinal-year : (t : Moment) → IsValid t → ordinal t < days_before_year (suc t.year) + 1
unfolding ordinal
ordinal-year t v = omega (
  arith,
  month-lt t.year t.month 13 v.month_ok.0 (omega (arith, v.month_ok)),
  months_sum t.year,
  year_after t.year v.year_ok,
  v.day_ok,
)

ordinal-start : (t : Moment) → IsValid t → days_before_year t.year < ordinal t
unfolding ordinal
ordinal-start t v = omega (arith, v.day_ok)

year-le : (y n : ℕ) → 1 ≤ y → y ≤ n → days_before_year y ≤ days_before_year n
year-le y n h =
    le_ind (λ k. days_before_year y ≤ days_before_year k) (omega arith)
      (λ k le ih. omega (arith, ih, year_after k (omega arith))) n

nine_years : (y : ℕ) → 1 ≤ y → days_before_year (9 + y) < days_before_year y + 9 * 366
unfolding days_before_year
nine_years y h = omega arith

-- A moment at most eight years on is less than nine times 366 days away.
pub minutes_of-years :
    (t u : Moment)
    → IsValid t
    → IsValid u
    → u.year ≤ 8 + t.year
    → minutes_of u ≤ minutes_of t + 9 * 366 * 24 * 60
unfolding minutes_of
minutes_of-years t u v w le = omega (
  arith,
  ordinal-year u w,
  year-le (suc u.year) (9 + t.year) (omega arith) (omega arith),
  nine_years t.year v.year_ok,
  ordinal-start t v,
  w.hour_in,
  w.minute_in,
)
