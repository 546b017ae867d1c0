-- ===== src/Fleet/Cron/Construction.antt =====
-- The check of `CronSchedule.__post_init__` that a schedule can fire: it refuses none that has a match, and
-- one that it accepts has a match in every leap year.
use mathlib.Core.Bool.{false≢true}
use zamboni.Base.{
  ℕ, ◌+◌, ◌*◌, ◌/◌, ◌%◌, ◌≤◌, ◌<◌, ◌≡◌, refl, ap, inl, inr, List, [], ◌∷◌, true, false, leb,
  Bool-cases, Option-cases, All, contains, ℕ_discrete, arith,
}
use zamboni.Fleet.Calendar.{
  Moment, moment, IsValid, is_leap, common_days, days_in_month, ordinal, weekday,
}
use zamboni.Fleet.Cron.{Cron, among, day_matches, matches_minute, least, longest, never_fires}
use zamboni.Fleet.Cron.Search.{least-some, least-none, contains-All}

leap_2024 : is_leap 2024 ≡ true
unfolding is_leap
leap_2024 = refl

-- A leap year has the longest months.
days_in_month-2024 : (y m : ℕ) → days_in_month y m ≤ days_in_month 2024 m
unfolding days_in_month common_days
days_in_month-2024 y m = ground (arith, leap_2024)

longest-contains :
    (ms : List ℕ) (m : ℕ) → contains ℕ_discrete ms m ≡ true → days_in_month 2024 m ≤ longest ms
unfolding longest
longest-contains [] m h = elim (false≢true h) [ ]
longest-contains (k ∷ ms) m h = elim (ℕ_discrete k m) [
  | yes p ↦ omega (arith, ap (days_in_month 2024) p)
  | no n ↦ omega (arith, longest-contains ms m (ground arith))
]

-- A schedule that the constructor refuses for never firing matches no moment of the calendar.
pub never_fires-matches :
    (s : Cron) (u : Moment) → never_fires s ≡ true → IsValid u → matches_minute s u ≡ false
unfolding never_fires matches_minute day_matches
never_fires-matches s u h v = elim (Option-cases (least s.days_of_month)) [
  | inl e ↦ absurd (ground (arith, e))
  | inr (d, e) ↦ elim (Bool-cases (among u.month s.months)) [
    | inr out ↦ ground (arith, out)
    | inl month ↦ elim (Bool-cases (among u.day s.days_of_month)) [
      | inr out ↦ ground (arith, out, e)
      | inl day ↦ absurd (
          ground (
            arith,
            e,
            v.day_ok,
            (least-some s.days_of_month d e).1 u.day day,
            longest-contains s.months u.month month,
            days_in_month-2024 u.year u.month,
          ))
    ]
  ]
]

-- What the parser makes of a field: a set with an entry, all from `low` to `high`.
pub record IsField (low high : ℕ) (values : List ℕ) : Type 0 where
  pub entry : ℕ
  pub has_entry : contains ℕ_discrete values entry ≡ true
  pub in_range : All (λ x. (low ≤ x) × (x ≤ high)) values

longest-attained :
    (ms : List ℕ) (d : ℕ)
    → 1 ≤ d
    → d ≤ longest ms
    → (m : ℕ) × ((contains ℕ_discrete ms m ≡ true) × (d ≤ days_in_month 2024 m))
unfolding longest
longest-attained [] d h le = absurd (omega arith)
longest-attained (m ∷ ms) d h le = elim (Bool-cases (leb d (days_in_month 2024 m))) [
  | inl e ↦ (m, (ground arith, ground arith))
  | inr e ↦ let (k, (i, l)) = longest-attained ms d h (ground arith) in (k, (ground (arith, i), l))
]

days_in_month-leap : (y m : ℕ) → is_leap y ≡ true → days_in_month 2024 m ≤ days_in_month y m
unfolding days_in_month common_days
days_in_month-leap y m h = ground (arith, h, leap_2024)

-- There is a leap year in the next eight.
pub leap_soon : (y : ℕ) → (z : ℕ) × ((y < z) × (z ≤ 8 + y) × (is_leap z ≡ true))
unfolding is_leap
leap_soon y =
    let z = 4 * (y / 4) + 4 in
    elim (Bool-cases (is_leap z)) [
      | inl e ↦ (z, (omega arith, omega arith, e))
      | inr e ↦ (z + 4, (omega arith, omega arith, ground (arith, e)))
    ]

-- A schedule that restricts the days of the month and no weekday, and that the constructor accepts, matches a
-- moment of every leap year.
pub accepted-matches :
    (s : Cron)
    → IsField 0 59 s.minutes
    → IsField 0 23 s.hours
    → IsField 1 31 s.days_of_month
    → IsField 1 12 s.months
    → ((d : ℕ) → d < 7 → among d s.days_of_week ≡ true)
    → s.dom_star ≡ false
    → s.dow_star ≡ true
    → never_fires s ≡ false
    → (y : ℕ) → 1 ≤ y
    → is_leap y ≡ true
    → (u : Moment) × ((u.year ≡ y) × IsValid u × (matches_minute s u ≡ true))
unfolding never_fires matches_minute day_matches weekday
accepted-matches s mins hrs doms mons week restricted any ok y hy leap =
    elim (Option-cases (least s.days_of_month)) [
      | inl e ↦ absurd (ground (arith, least-none s.days_of_month doms.entry e, doms.has_entry))
      | inr (d, e) ↦
          let has_day = (least-some s.days_of_month d e).0 in
          let day_ok =
            contains-All (λ x. (1 ≤ x) × (x ≤ 31)) s.days_of_month d doms.in_range has_day in
          let (m, (has_month, fits)) = longest-attained s.months d day_ok.0 (ground (arith, e)) in
          let u = moment y m d hrs.entry mins.entry in
          (
            u,
            (
              refl,
              record {
                year_ok = hy;
                month_ok =
                    contains-All (λ x. (1 ≤ x) × (x ≤ 12)) s.months m mons.in_range has_month;
                day_ok = (day_ok.0, omega (arith, fits, days_in_month-leap y m leap));
                hour_in = omega (
                  arith,
                  contains-All (λ x. (0 ≤ x) × (x ≤ 23)) s.hours hrs.entry hrs.in_range
                      hrs.has_entry,
                );
                minute_in = omega (
                  arith,
                  contains-All (λ x. (0 ≤ x) × (x ≤ 59)) s.minutes mins.entry mins.in_range
                      mins.has_entry,
                );
              },
              ground (
                arith,
                mins.has_entry,
                hrs.has_entry,
                has_month,
                has_day,
                week (ordinal u % 7) (omega arith),
              ),
            ),
          )
    ]
