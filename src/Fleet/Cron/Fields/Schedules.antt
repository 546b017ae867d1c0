-- ===== src/Fleet/Cron/Fields/Schedules.antt =====
-- What the constructor of a schedule accepts: five fields within their bounds, and a schedule that can fire.
use mathlib.Core.Bool.{false≢true}
use zamboni.Base.{
  ℕ, ◌%◌, ◌≤◌, ◌<◌, ◌≡◌, refl, sym, ap, subst, ◌∙◌, List, [], ◌∷◌, map, Bool, true, false, All,
  All-map, contains, ℕ_discrete, arith, Bool-cases, inl, inr,
}
use zamboni.Fleet.Calendar.{Moment, IsValid, Before, is_leap, next_minute}
use zamboni.Fleet.Calendar.Order.{minutes_of-years, minutes_of-Before}
use zamboni.Fleet.Calendar.Steps.{next_minute-Skips}
use zamboni.Fleet.Cron.{Cron, Instant, firing, next_after, among, matches_minute, never_fires}
use zamboni.Fleet.Cron.Construction.{IsField, accepted-matches, leap_soon}
use zamboni.Fleet.Cron.Next.{next_after-finds}
use zamboni.Fleet.Cron.Fields.{
  Text, ok, starred, parse_field, parse_items, parse_item, step_of, bounds_of, partition, split,
  same_text, range, range_from, check_fires, make_cron, minute_field, hour_field,
  day_of_month_field, month_field, day_of_week_field,
}
use zamboni.Fleet.Cron.Fields.Accepted.{bind-ok, ok-inj, parse_field-IsField}

-- A constructed schedule: what its fields hold, and that it was not found to never fire.
pub record IsCron (s : Cron) : Type 0 where
  pub minutes_in : IsField 0 59 s.minutes
  pub hours_in : IsField 0 23 s.hours
  pub days_of_month_in : IsField 1 31 s.days_of_month
  pub months_in : IsField 1 12 s.months
  pub days_of_week_in : IsField 0 6 s.days_of_week
  pub fires : never_fires s ≡ false

map-All : (values : List ℕ) → All (λ x. (0 ≤ x) × (x ≤ 6)) (map (λ d. d % 7) values)
map-All [] = tt
map-All (d ∷ values) = ((omega arith, omega arith), map-All values)

map-contains :
    (values : List ℕ) (d : ℕ)
    → contains ℕ_discrete values d ≡ true
    → contains ℕ_discrete (map (λ d. d % 7) values) (d % 7) ≡ true
map-contains [] d h = elim (false≢true h) [ ]
map-contains (x ∷ values) d h = elim (ℕ_discrete x d) [
  | yes p ↦ ground (arith, ap (λ n. n % 7) p)
  | no n ↦ ground (arith, map-contains values d (ground arith))
]

-- Days of the week with 7 for Sunday, and then without.
weekdays : (values : List ℕ) → IsField 0 7 values → IsField 0 6 (map (λ d. d % 7) values)
weekdays values v = record {
  entry = v.entry % 7;
  has_entry = map-contains values v.entry v.has_entry;
  in_range = map-All values;
}

-- The schedule of five sets of values.
abbrev of_fields : (minutes hours days months weekdays : List ℕ) (dom_star dow_star : Bool) → Cron
of_fields mins hrs doms mons dows dom_star dow_star = record {
  minutes = mins;
  hours = hrs;
  days_of_month = doms;
  months = mons;
  days_of_week = map (λ d. d % 7) dows;
  dom_star = dom_star;
  dow_star = dow_star;
}

check_fires-ok : (c s : Cron) → check_fires c ≡ ok s → (never_fires c ≡ false) × (c ≡ s)
unfolding check_fires
check_fires-ok c s e = elim (Bool-cases (never_fires c)) [
  | inl n ↦ absurd (ground (arith, e, n))
  | inr n ↦ (n, ground (arith, e, n))
]

-- The sets that an accepted schedule was made of.
record Parts (minute hour day_of_month month day_of_week : Text) (s : Cron) : Type 0 where
  mins : List ℕ
  hrs : List ℕ
  doms : List ℕ
  mons : List ℕ
  dows : List ℕ
  mins_are : parse_field minute_field minute ≡ ok mins
  hrs_are : parse_field hour_field hour ≡ ok hrs
  doms_are : parse_field day_of_month_field day_of_month ≡ ok doms
  mons_are : parse_field month_field month ≡ ok mons
  dows_are : parse_field day_of_week_field day_of_week ≡ ok dows
  can_fire : never_fires s ≡ false
  made : of_fields mins hrs doms mons dows (starred day_of_month) (starred day_of_week) ≡ s

make_cron-Parts :
    (minute hour day_of_month month day_of_week : Text) (s : Cron)
    → make_cron minute hour day_of_month month day_of_week ≡ ok s
    → Parts minute hour day_of_month month day_of_week s
unfolding make_cron
make_cron-Parts minute hour dom month dow s e =
    let (mins, (p1, e1)) = bind-ok (parse_field minute_field minute) _ s e in
    let (hrs, (p2, e2)) = bind-ok (parse_field hour_field hour) _ s e1 in
    let (doms, (p3, e3)) = bind-ok (parse_field day_of_month_field dom) _ s e2 in
    let (mons, (p4, e4)) = bind-ok (parse_field month_field month) _ s e3 in
    let (dows, (p5, e5)) = bind-ok (parse_field day_of_week_field dow) _ s e4 in
    let (n, made) =
      check_fires-ok (of_fields mins hrs doms mons dows (starred dom) (starred dow)) s e5 in
    record {
      mins = mins;
      hrs = hrs;
      doms = doms;
      mons = mons;
      dows = dows;
      mins_are = p1;
      hrs_are = p2;
      doms_are = p3;
      mons_are = p4;
      dows_are = p5;
      can_fire = subst (λ c. never_fires c ≡ false) made n;
      made = made;
    }

-- Where a schedule is accepted, its fields have values, all within their bounds, and it can fire.
pub make_cron-IsCron :
    (minute hour day_of_month month day_of_week : Text) (s : Cron)
    → make_cron minute hour day_of_month month day_of_week ≡ ok s
    → IsCron s
make_cron-IsCron minute hour dom month dow s e =
    let p = make_cron-Parts minute hour dom month dow s e in
    subst IsCron p.made record {
      minutes_in = parse_field-IsField minute_field minute p.mins (omega arith) p.mins_are;
      hours_in = parse_field-IsField hour_field hour p.hrs (omega arith) p.hrs_are;
      days_of_month_in = parse_field-IsField day_of_month_field dom p.doms (omega arith) p.doms_are;
      months_in = parse_field-IsField month_field month p.mons (omega arith) p.mons_are;
      days_of_week_in =
          weekdays p.dows
            (parse_field-IsField day_of_week_field dow p.dows (omega arith) p.dows_are);
      fires = subst (λ c. never_fires c ≡ false) (sym p.made) p.can_fire;
    }

abbrev star : Text
star = b'*' ∷ []

-- `*` for the days of the week is every one of them.
every_weekday : parse_field day_of_week_field star ≡ ok (0 ∷ 1 ∷ 2 ∷ 3 ∷ 4 ∷ 5 ∷ 6 ∷ 7 ∷ [])
unfolding parse_field parse_items parse_item step_of bounds_of partition split same_text range
    range_from
every_weekday = refl

full_week : (d : ℕ) → d < 7 → among d (map (λ n. n % 7) (0 ∷ 1 ∷ 2 ∷ 3 ∷ 4 ∷ 5 ∷ 6 ∷ 7 ∷ [])) ≡ true
full_week d h = ground arith

-- An accepted schedule with `*` for the weekdays, whose days of the month do not start with `*`, matches a
-- moment of every leap year.
make_cron-matches :
    (minute hour day_of_month month : Text) (s : Cron)
    → starred day_of_month ≡ false
    → make_cron minute hour day_of_month month star ≡ ok s
    → (y : ℕ) → 1 ≤ y
    → is_leap y ≡ true
    → (u : Moment) × ((u.year ≡ y) × IsValid u × (matches_minute s u ≡ true))
make_cron-matches minute hour dom month s restricted e y h leap =
    let p = make_cron-Parts minute hour dom month star s e in
    let c = make_cron-IsCron minute hour dom month star s e in
    let week = ok-inj (sym p.dows_are ∙ every_weekday) in
    accepted-matches s c.minutes_in c.hours_in c.days_of_month_in c.months_in
      (λ d lt.
        subst (λ l. among d l ≡ true)
          (ap (map (λ n. n % 7)) (sym week) ∙ ap (λ c. c.days_of_week) p.made) (full_week d lt))
      (sym (ap (λ c. c.dom_star) p.made) ∙ restricted) (sym (ap (λ c. c.dow_star) p.made)) c.fires y
      h leap

-- For an accepted schedule with `*` for the weekdays, whose days of the month do not start with
-- `*`: the search from any moment of the calendar finds a firing, which comes after the moment and
-- matches.
pub make_cron-fires :
    (minute hour day_of_month month : Text) (s : Cron) (i : Instant)
    → starred day_of_month ≡ false
    → make_cron minute hour day_of_month month star ≡ ok s
    → IsValid i.at
    → (r : Moment) × ((next_after s i ≡ firing r) × Before i.at r × (matches_minute s r ≡ true))
make_cron-fires minute hour dom month s i restricted e v =
    let (z, (later, soon, leap)) = leap_soon i.at.year in
    let (u, (at, w, matched)) =
      make_cron-matches minute hour dom month s restricted e z (omega arith) leap in
    let c = make_cron-IsCron minute hour dom month star s e in
    let start = next_minute-Skips i.at v in
    let (r, (found, after, hit, first)) =
      next_after-finds s i u v w (All-map (λ m b. omega arith) s.minutes c.minutes_in.in_range)
        (inl (omega (arith, at)))
        (omega (
          arith,
          at,
          minutes_of-years i.at u v w (omega (arith, at)),
          minutes_of-Before i.at (next_minute i.at) v start.valid start.later,
        ))
        matched in
    (r, (found, after, hit))
