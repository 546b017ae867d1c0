-- ===== src/Fleet/Cron/Next.antt =====
-- The whole search for a firing: it ends, what it finds is the first match after the moment, and it finds one
-- whenever there is one within the horizon.
use mathlib.Core.Bool.{false≢true}
use zamboni.Base.{
  ℕ, zero, suc, ◌+◌, ◌-◌, ◌≤◌, ◌<◌, ◌≡◌, refl, sym, subst, ◌∙◌, ◌⊎◌, inl, inr, true, false, ltb,
  Bool-cases, All, arith,
}
use zamboni.Fleet.Calendar.{Moment, IsValid, Before, From, minutes_of, next_minute}
use zamboni.Fleet.Calendar.Order.{
  minutes_of-Before, minutes_of-From, Before-From, Before-From-trans, From-trans,
}
use zamboni.Fleet.Calendar.Steps.{From-next, next_minute-Skips}
use zamboni.Fleet.Cron.{
  Cron, Instant, matches_minute, Round, fires, goes_on, round, horizon, Found, firing, no_firing,
  out_of_fuel, search_from, next_after,
}
use zamboni.Fleet.Cron.Search.{Passes, Fires, IsRight, round-IsRight}

-- What a search from `t` may answer.
abbrev Ends : Cron → Moment → Moment → Found → Type 0
Ends s start t (firing r) = Fires s t r
Ends s start t no_firing =
    (u : Moment)
    → IsValid u
    → From t u
    → minutes_of u ≤ minutes_of start + horizon
    → matches_minute s u ≡ false
Ends s start t out_of_fuel = ⊥

Round-cases : (r : Round) → ((m : Moment) × (r ≡ fires m)) ⊎ ((n : Moment) × (r ≡ goes_on n))
Round-cases (fires m) = inl (m, refl)
Round-cases (goes_on n) = inr (n, refl)

Found-cases : (a : Found) → ((r : Moment) × (a ≡ firing r)) ⊎ ((a ≡ no_firing) ⊎ (a ≡ out_of_fuel))
Found-cases (firing r) = inl (r, refl)
Found-cases no_firing = inr (inl refl)
Found-cases out_of_fuel = inr (inr refl)

-- What a search from a later moment answers serves for the earlier one.
Ends-Passes :
    (s : Cron) (start t n : Moment) (a : Found) → Passes s t n → Ends s start n a → Ends s start t a
Ends-Passes s start t n (firing r) p f = record {
  valid = f.valid;
  reached = From-trans t n r (inl p.later) f.reached;
  matched = f.matched;
  first = λ u w from b. elim (Before-From n u) [
    | inl early ↦ p.missed u w from early
    | inr late ↦ f.first u w late b
  ];
}
Ends-Passes s start t n no_firing p f = λ u w from le. elim (Before-From n u) [
  | inl early ↦ p.missed u w from early
  | inr late ↦ f u w late le
]
Ends-Passes s start t n out_of_fuel p f = f

search_from-Ends :
    (fuel : ℕ) (s : Cron) (start t : Moment)
    → IsValid t
    → All (λ m. m < 60) s.minutes
    → 1 ≤ fuel
    → minutes_of start + horizon + 2 ≤ minutes_of t + fuel
    → Ends s start t (search_from s start fuel t)
unfolding search_from
search_from-Ends zero s start t v ok h f = absurd (omega arith)
search_from-Ends (suc fuel) s start t v ok h f =
    elim (Bool-cases (ltb horizon (minutes_of t - minutes_of start))) [
      | inl e ↦
          rw (e, Ends) (λ u w from le. absurd (ground (arith, e, minutes_of-From t u v w from)))
      | inr e ↦ elim (Round-cases (round s t)) [
        | inl (m, r) ↦ rw (e, r) (subst (IsRight s t) r (round-IsRight s t v ok))
        | inr (n, r) ↦
            let p = subst (IsRight s t) r (round-IsRight s t v ok) in
            let further = minutes_of-Before t n v p.valid p.later in
            rw (e, r)
              (Ends-Passes s start t n (search_from s start fuel n) p
                (search_from-Ends fuel s start n p.valid ok (ground arith) (omega arith)))
      ]
    ]

-- `next_after` ends, with an answer for the minutes from the one after the moment.
next_after-Ends :
    (s : Cron) (i : Instant)
    → IsValid i.at
    → All (λ m. m < 60) s.minutes
    → Ends s (next_minute i.at) (next_minute i.at) (next_after s i)
unfolding next_after
next_after-Ends s i v ok =
    let start = next_minute i.at in
    search_from-Ends (horizon + 2) s start start (next_minute-Skips i.at v).valid ok (omega arith)
      (omega arith)

-- For a schedule whose minutes are below 60, a moment of the calendar, and a later one that
-- matches and is within the horizon of the minute after the first: the search ends with a firing
-- that comes after the first moment, matches, and is no later than the other.
pub next_after-finds :
    (s : Cron) (i : Instant) (u : Moment)
    → IsValid i.at
    → IsValid u
    → All (λ m. m < 60) s.minutes
    → Before i.at u
    → minutes_of u ≤ minutes_of (next_minute i.at) + horizon
    → matches_minute s u ≡ true
    → (r : Moment) × ((next_after s i ≡ firing r)
        × Before i.at r
        × (matches_minute s r ≡ true)
        × From r u)
next_after-finds s i u v w ok later near matched =
    let start = next_minute-Skips i.at v in
    let reached = From-next i.at u v w later in
    elim (Found-cases (next_after s i)) [
      | inl (r, e) ↦
          let fires =
            subst (Ends s (next_minute i.at) (next_minute i.at)) e (next_after-Ends s i v ok) in
          (
            r,
            (
              e,
              Before-From-trans i.at (next_minute i.at) r start.later fires.reached,
              fires.matched,
              elim (Before-From r u) [
                | inl early ↦ elim (false≢true (sym (fires.first u w reached early) ∙ matched)) [ ]
                | inr late ↦ late
              ],
            ),
          )
      | inr (inl e) ↦
          let none =
            subst (Ends s (next_minute i.at) (next_minute i.at)) e (next_after-Ends s i v ok) in
          elim (false≢true (sym (none u w reached near) ∙ matched)) [ ]
      | inr (inr e) ↦
          absurd (subst (Ends s (next_minute i.at) (next_minute i.at)) e (next_after-Ends s i v ok))
    ]
