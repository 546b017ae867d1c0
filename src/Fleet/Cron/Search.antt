-- ===== src/Fleet/Cron/Search.antt =====
-- One round of the search for a firing: it passes over moments that do not match, and fires at the first
-- that does.
use mathlib.Core.Bool.{false≢true}
use zamboni.Base.{
  ℕ, ◌≤◌, ◌<◌, ◌≡◌, refl, ap, subst, inl, inr, List, [], ◌∷◌, true, false, none, some, leb,
  Bool-cases, Option-cases, All, keep, contains, contains-keep, ℕ_discrete, arith,
}
use zamboni.Fleet.Calendar.{
  Moment, moment, IsValid, Before, From, SameDay, ordinal, weekday, first_of_next_month, next_day,
  next_hour,
}
use zamboni.Fleet.Calendar.Steps.{Skips, first_of_next_month-Skips, next_day-Skips, next_hour-Skips}
use zamboni.Fleet.Cron.{
  Cron, among, day_matches, matches_minute, least, Round, fires, goes_on, this_hour, round,
}

pub least-none : (xs : List ℕ) (x : ℕ) → least xs ≡ none → contains ℕ_discrete xs x ≡ false
unfolding least
least-none [] x e = refl
least-none (y ∷ xs) x e = elim (Option-cases (least xs)) [
  | inl n ↦ ground (arith, n)
  | inr (k, n) ↦ ground (arith, n)
]

-- The least entry is an entry, and no entry is below it.
pub least-some :
    (xs : List ℕ) (m : ℕ)
    → least xs ≡ some m
    → (contains ℕ_discrete xs m ≡ true) × ((x : ℕ) → contains ℕ_discrete xs x ≡ true → m ≤ x)
unfolding least
least-some [] m e = ground arith
least-some (x ∷ xs) m e = elim (Option-cases (least xs)) [
  | inl n ↦ (ground (arith, n), λ y h. ground (arith, n, least-none xs y n))
  | inr (k, n) ↦
      let rest = least-some xs k n in
      (ground (arith, n, rest.0), λ y h. ground (arith, n, rest.1 y))
]

day_matches-SameDay : (s : Cron) (t u : Moment) → SameDay t u → day_matches s u ≡ day_matches s t
unfolding day_matches weekday ordinal
day_matches-SameDay s t u (y, m, d) = rw (y, m, d) refl

-- The search may go on at `n`: nothing from `t` on and before `n` matches.
pub record Passes (s : Cron) (t n : Moment) : Type 0 where
  pub valid : IsValid n
  pub later : Before t n
  pub missed : (u : Moment) → IsValid u → From t u → Before u n → matches_minute s u ≡ false

-- `r` is the first match from `t` on.
pub record Fires (s : Cron) (t r : Moment) : Type 0 where
  pub valid : IsValid r
  pub reached : From t r
  pub matched : matches_minute s r ≡ true
  pub first : (u : Moment) → IsValid u → From t u → Before u r → matches_minute s u ≡ false

abbrev pub IsRight : Cron → Moment → Round → Type 0
IsRight s t (fires r) = Fires s t r
IsRight s t (goes_on n) = Passes s t n

skip :
    {Same : Moment → Moment → Type 0} (s : Cron) (t n : Moment)
    → Skips Same t n
    → ((u : Moment) → From t u → Same t u → matches_minute s u ≡ false)
    → Passes s t n
skip s t n k miss = record {
  valid = k.valid;
  later = k.later;
  missed = λ u v f b. miss u f (k.skipped u v f b);
}

pub contains-All :
    (P : ℕ → Type 0) (xs : List ℕ) (x : ℕ) → All P xs → contains ℕ_discrete xs x ≡ true → P x
contains-All P [] x h e = elim (false≢true e) [ ]
contains-All P (y ∷ xs) x h e = elim (ℕ_discrete y x) [
  | yes p ↦ subst P p h.0
  | no n ↦ contains-All P xs x h.1 (ground arith)
]

this_hour-IsRight :
    (s : Cron) (t : Moment)
    → IsValid t
    → All (λ m. m < 60) s.minutes
    → among t.month s.months ≡ true
    → day_matches s t ≡ true
    → among t.hour s.hours ≡ true
    → IsRight s t (this_hour s t)
unfolding this_hour matches_minute
this_hour-IsRight s t v ok month day hour =
    elim (Option-cases (least (keep (leb t.minute) s.minutes))) [
      | inl e ↦
          rw (e, IsRight)
            (skip s t (next_hour t) (next_hour-Skips t v) (λ u f same.
              let none_left = least-none (keep (leb t.minute) s.minutes) u.minute e in
              ground (
                arith,
                f,
                same,
                none_left,
                contains-keep ℕ_discrete (leb t.minute) s.minutes u.minute,
              )))
      | inr (m, e) ↦
          let least_is = least-some (keep (leb t.minute) s.minutes) m e in
          let kept = contains-keep ℕ_discrete (leb t.minute) s.minutes m in
          rw (e, IsRight)
            record {
              valid = record {
                year_ok = v.year_ok;
                month_ok = v.month_ok;
                day_ok = v.day_ok;
                hour_in = v.hour_in;
                minute_in =
                    contains-All (λ k. k < 60) s.minutes m ok (ground (arith, least_is, kept));
              };
              reached = ground (arith, least_is, kept);
              matched = ground (
                arith,
                least_is,
                kept,
                month,
                hour,
                day,
                day_matches-SameDay s t (moment t.year t.month t.day t.hour m) (refl, refl, refl),
              );
              first = λ u w f b. ground (
                arith,
                f,
                b,
                least_is.1 u.minute,
                contains-keep ℕ_discrete (leb t.minute) s.minutes u.minute,
              );
            }
    ]

pub round-IsRight :
    (s : Cron) (t : Moment) → IsValid t → All (λ m. m < 60) s.minutes → IsRight s t (round s t)
unfolding round matches_minute
round-IsRight s t v ok = elim (Bool-cases (among t.month s.months)) [
  | inr e ↦ rw e (
      skip s t (first_of_next_month t) (first_of_next_month-Skips t v)
        (λ u f same. ground (arith, e, ap (λ m. among m s.months) same.1)))
  | inl month ↦ elim (Bool-cases (day_matches s t)) [
    | inr e ↦
        rw (month, e)
          (skip s t (next_day t) (next_day-Skips t v)
            (λ u f same. ground (arith, e, day_matches-SameDay s t u same)))
    | inl day ↦ elim (Bool-cases (among t.hour s.hours)) [
      | inr e ↦
          rw (month, day, e)
            (skip s t (next_hour t) (next_hour-Skips t v)
              (λ u f same. ground (arith, e, ap (λ h. among h s.hours) same.3)))
      | inl hour ↦ rw (month, day, hour) (this_hour-IsRight s t v ok month day hour)
    ]
  ]
]
