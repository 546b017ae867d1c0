-- ===== src/Fleet/Calendar/Steps.antt =====
-- What the steps of the calendar skip: nothing but moments of the same month, day, hour or minute.
use zamboni.Base.{◌+◌, ap₂, inl, inr, ltb, Bool-cases, arith}
use zamboni.Fleet.Calendar.{
  Moment, IsValid, Before, From, SameMonth, SameDay, SameHour, SameMinute, days_in_month,
  first_of_next_month, next_day, next_hour, next_minute,
}
use zamboni.Fleet.Calendar.Order.{days_in_month-pos, Before-From}

-- `n` is a valid moment after `t`, and every moment from `t` on and before `n` is `Same`.
pub record Skips (Same : Moment → Moment → Type 0) (t n : Moment) : Type 0 where
  pub valid : IsValid n
  pub later : Before t n
  pub skipped : (u : Moment) → IsValid u → From t u → Before u n → Same t u

pub first_of_next_month-Skips : (t : Moment) → IsValid t → Skips SameMonth t (first_of_next_month t)
unfolding first_of_next_month
first_of_next_month-Skips t v = record {
  valid = record {
    year_ok = ground (arith, v.year_ok);
    month_ok = ground (arith, v.month_ok);
    day_ok =
        ground (arith, days_in_month-pos t.year (t.month + 1), days_in_month-pos (t.year + 1) 1);
    hour_in = ground arith;
    minute_in = ground arith;
  };
  later = ground (arith, v.month_ok);
  skipped = λ u w f b. ground (arith, v.month_ok, w.month_ok, w.day_ok);
}

pub next_day-Skips : (t : Moment) → IsValid t → Skips SameDay t (next_day t)
unfolding next_day
next_day-Skips t v = elim (Bool-cases (ltb t.day (days_in_month t.year t.month))) [
  | inl e ↦ rw e record {
    valid = record {
      year_ok = v.year_ok;
      month_ok = v.month_ok;
      day_ok = ground arith;
      hour_in = omega arith;
      minute_in = omega arith;
    };
    later = ground arith;
    skipped = λ u w f b. ground arith;
  }
  | inr e ↦
      let month = first_of_next_month-Skips t v in
      rw e record {
        valid = month.valid;
        later = month.later;
        skipped = λ u w f b.
            let same = month.skipped u w f b in
            let days = ap₂ days_in_month same.0 same.1 in ground (arith, same, days, w.day_ok, f);
      }
]

pub next_hour-Skips : (t : Moment) → IsValid t → Skips SameHour t (next_hour t)
unfolding next_hour
next_hour-Skips t v = elim (Bool-cases (ltb t.hour 23)) [
  | inl e ↦ rw e record {
    valid = record {
      year_ok = v.year_ok;
      month_ok = v.month_ok;
      day_ok = v.day_ok;
      hour_in = ground arith;
      minute_in = omega arith;
    };
    later = ground arith;
    skipped = λ u w f b. ground arith;
  }
  | inr e ↦
      let day = next_day-Skips t v in
      rw e record {
        valid = day.valid;
        later = day.later;
        skipped = λ u w f b. let same = day.skipped u w f b in ground (arith, same, w.hour_in, f);
      }
]

pub next_minute-Skips : (t : Moment) → IsValid t → Skips SameMinute t (next_minute t)
unfolding next_minute
next_minute-Skips t v = elim (Bool-cases (ltb t.minute 59)) [
  | inl e ↦ rw e record {
    valid = record {
      year_ok = v.year_ok;
      month_ok = v.month_ok;
      day_ok = v.day_ok;
      hour_in = v.hour_in;
      minute_in = ground arith;
    };
    later = ground arith;
    skipped = λ u w f b. ground arith;
  }
  | inr e ↦
      let hour = next_hour-Skips t v in
      rw e record {
        valid = hour.valid;
        later = hour.later;
        skipped =
            λ u w f b. let same = hour.skipped u w f b in ground (arith, same, w.minute_in, f);
      }
]

-- A moment after `t` is not before the minute after `t`.
pub From-next : (t u : Moment) → IsValid t → IsValid u → Before t u → From (next_minute t) u
From-next t u v w b =
    let next = next_minute-Skips t v in
    elim (Before-From (next_minute t) u) [
      | inl early ↦ absurd (ground (arith, b, next.skipped u w (inl b) early))
      | inr late ↦ late
    ]
