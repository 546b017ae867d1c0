-- ===== src/Fleet/Cron.antt =====
-- src/zamboni/fleet.py: CronSchedule as `__post_init__` leaves it, its check that it can fire, `matches` and
-- `next_after`. The five fields are the parsed sets; the texts they come from are not modelled.
pub mod Search
pub mod Next
pub mod Construction
pub mod Fields
use zamboni.Base.{
  ℕ, zero, suc, ◌+◌, ◌-◌, ◌*◌, List, [], ◌∷◌, Bool, true, false, ◌&&◌, ◌||◌, not, Option, none,
  some, ltb, leb, if◌then◌else◌, min, max, keep, contains, ℕ_discrete,
}
use zamboni.Fleet.Calendar.{
  Moment, moment, days_in_month, weekday, minutes_of, first_of_next_month, next_day, next_hour,
  next_minute,
}

pub record Cron : Type 0 where
  pub minutes : List ℕ
  pub hours : List ℕ
  pub days_of_month : List ℕ
  pub months : List ℕ
  pub days_of_week : List ℕ
  pub dom_star : Bool
  pub dow_star : Bool

-- A moment to the microsecond.
pub record Instant : Type 0 where
  pub at : Moment
  pub second : ℕ
  pub microsecond : ℕ

-- `x in values`
abbrev pub among : ℕ → List ℕ → Bool
among x values = contains ℕ_discrete values x

unfoldable pub day_matches : Cron → Moment → Bool
day_matches s t =
    let dom = among t.day s.days_of_month in
    let dow = among (weekday t) s.days_of_week in
    if s.dom_star || s.dow_star then dom && dow else dom || dow

unfoldable pub matches_minute : Cron → Moment → Bool
matches_minute s t =
    among t.minute s.minutes && among t.hour s.hours && among t.month s.months && day_matches s t

-- `CronSchedule.matches`
unfoldable pub matches : Cron → Instant → Bool
matches s i = matches_minute s i.at

-- `min(values)`, with `none` for no value.
unfoldable pub least : List ℕ → Option ℕ
least [] = none
least (x ∷ xs) = elim (least xs) [ none ↦ some x | some y ↦ some (min x y) ]

-- One round of the loop: the firing, or where the search goes on.
pub data Round : Type 0 where
  fires : Moment → Round
  goes_on : Moment → Round

unfoldable pub this_hour : Cron → Moment → Round
this_hour s t = elim (least (keep (leb t.minute) s.minutes)) [
  | some m ↦ fires (moment t.year t.month t.day t.hour m)
  | none ↦ goes_on (next_hour t)
]

unfoldable pub round : Cron → Moment → Round
round s t =
    if not (among t.month s.months)
    then goes_on (first_of_next_month t)
    else if not (day_matches s t)
    then goes_on (next_day t)
    else if not (among t.hour s.hours)
    then goes_on (next_hour t)
    else this_hour s t

-- `_SEARCH_HORIZON`, in minutes.
abbrev pub horizon : ℕ
horizon = 366 * 9 * 24 * 60

-- The firing, the `AssertionError`, or a search that ran out of fuel.
pub data Found : Type 0 where
  firing : Moment → Found
  no_firing : Found
  out_of_fuel : Found

unfoldable pub search_from : Cron → Moment → ℕ → Moment → Found
search_from s start zero t = out_of_fuel
search_from s start (suc fuel) t =
    if ltb horizon (minutes_of t - minutes_of start)
    then no_firing
    else elim (round s t) [ fires r ↦ firing r | goes_on n ↦ search_from s start fuel n ]

-- `CronSchedule.next_after`. A round goes at least a minute on.
unfoldable pub next_after : Cron → Instant → Found
next_after s i = let start = next_minute i.at in search_from s start (horizon + 2) start

-- `max(calendar.monthrange(2024, m)[1] for m in self.months)`
unfoldable pub longest : List ℕ → ℕ
longest [] = 0
longest (m ∷ ms) = max (days_in_month 2024 m) (longest ms)

-- Whether the last check of `__post_init__` refuses the schedule. `none` of `least` is an empty set, which no
-- field parses to.
unfoldable pub never_fires : Cron → Bool
never_fires s =
    if not s.dom_star && s.dow_star
    then elim (least s.days_of_month) [ none ↦ false | some d ↦ ltb (longest s.months) d ]
    else false
