-- ===== src/Tests/Crons.antt =====
-- Tests of src/zamboni/fleet.py: cron schedules.
use zamboni.Base.{◌+◌, ◌≤◌, ◌≡◌, refl, [], ◌∷◌, true, false, inl, arith, ℕ_discrete}
use zamboni.Fleet.Calendar.{
  Moment, moment, IsValid, Before, From, is_leap, common_days, days_in_month, days_before_month,
  days_before_year, ordinal, weekday, minutes_of, first_of_next_month, next_day, next_hour,
  next_minute,
}
use zamboni.Fleet.Cron.{
  Cron, Instant, day_matches, matches_minute, least, this_hour, round, horizon, firing, no_firing,
  search_from, next_after, longest, never_fires,
}
use zamboni.Fleet.Cron.Construction.{IsField, never_fires-matches}
use zamboni.Fleet.Cron.Next.{next_after-finds}
use zamboni.Fleet.Cron.Fields.{
  codes, ok, refused, outside, same_text, partition, split, all_digits, is_digits, int_from, named,
  in_field, number, step_of, ordered, between, alone, bounds_of, range_from, range, parse_item,
  parse_items, parse_field, minute_field, check_fires, make_cron,
}
use zamboni.Fleet.Cron.Fields.Accepted.{parse_field-IsField}
use zamboni.Fleet.Cron.Fields.Schedules.{IsCron, make_cron-IsCron, make_cron-fires}

-- `0 0 29 2 *`
abbrev leap_day : Cron
leap_day = record {
  minutes = 0 ∷ [];
  hours = 0 ∷ [];
  days_of_month = 29 ∷ [];
  months = 2 ∷ [];
  days_of_week = 0 ∷ 1 ∷ 2 ∷ 3 ∷ 4 ∷ 5 ∷ 6 ∷ 0 ∷ [];
  dom_star = false;
  dow_star = true;
}

leap_day_parses :
    make_cron (codes "0") (codes "0") (codes "29") (codes "feb") (codes "*") ≡ ok leap_day
unfolding make_cron check_fires never_fires longest least common_days days_in_month is_leap
    parse_field parse_items parse_item step_of bounds_of between alone ordered number named in_field
    is_digits all_digits int_from partition split same_text range range_from
leap_day_parses = refl

-- The last moment before a wait of eight years.
abbrev end_2096 : Instant
end_2096 = record { at = moment 2096 2 29 0 0; second = 30; microsecond = 0 }

end_2096-IsValid : IsValid end_2096.at
unfolding common_days days_in_month is_leap
end_2096-IsValid = record {
  year_ok = omega arith;
  month_ok = (omega arith, omega arith);
  day_ok = (omega arith, omega arith);
  hour_in = omega arith;
  minute_in = omega arith;
}

abbrev next_leap : Moment
next_leap = moment 2104 2 29 0 0

waits_eight_years : next_after leap_day end_2096 ≡ firing next_leap
unfolding next_after search_from round this_hour day_matches weekday ordinal minutes_of
    first_of_next_month next_day next_hour next_minute common_days days_in_month days_before_month
    days_before_year is_leap least ℕ_discrete
waits_eight_years = refl

-- `0 0 29 2 */7`, whose two days must both match: a 29 February that is a Sunday is up to 40 years away.
abbrev leap_sunday : Cron
leap_sunday = record leap_day { days_of_week = 0 ∷ 0 ∷ []; dow_star = true }

leap_sunday_raises :
    next_after leap_sunday (record { at = moment 2033 1 1 0 0; second = 0; microsecond = 0 })
    ≡ no_firing
unfolding next_after search_from round this_hour day_matches weekday ordinal minutes_of
    first_of_next_month next_day next_hour next_minute common_days days_in_month days_before_month
    days_before_year is_leap least ℕ_discrete
leap_sunday_raises = refl

leap_sunday_parses :
    make_cron (codes "0") (codes "0") (codes "29") (codes "2") (codes "*/7") ≡ ok leap_sunday
unfolding make_cron check_fires never_fires longest least common_days days_in_month is_leap
    parse_field parse_items parse_item step_of bounds_of between alone ordered number named in_field
    is_digits all_digits int_from partition split same_text range range_from
leap_sunday_parses = refl

make_cron-fires_example :
    (r : Moment) × ((next_after leap_day end_2096 ≡ firing r)
      × Before end_2096.at r
      × (matches_minute leap_day r ≡ true))
make_cron-fires_example =
    make_cron-fires (codes "0") (codes "0") (codes "29") (codes "feb") leap_day end_2096 refl
      leap_day_parses end_2096-IsValid

make_cron-IsCron_example : IsCron leap_day
make_cron-IsCron_example =
    make_cron-IsCron (codes "0") (codes "0") (codes "29") (codes "feb") (codes "*") leap_day
      leap_day_parses

next_leap-IsValid : IsValid next_leap
unfolding common_days days_in_month is_leap
next_leap-IsValid = record {
  year_ok = omega arith;
  month_ok = (omega arith, omega arith);
  day_ok = (omega arith, omega arith);
  hour_in = omega arith;
  minute_in = omega arith;
}

in_horizon : minutes_of next_leap ≤ minutes_of (next_minute end_2096.at) + horizon
unfolding minutes_of ordinal days_before_year days_before_month common_days days_in_month is_leap
    next_minute
in_horizon = omega arith

next_leap_matches : matches_minute leap_day next_leap ≡ true
unfolding matches_minute day_matches weekday ordinal days_before_year days_before_month common_days
    days_in_month is_leap ℕ_discrete
next_leap_matches = refl

next_after-finds_example :
    (r : Moment) × ((next_after leap_day end_2096 ≡ firing r)
      × Before end_2096.at r
      × (matches_minute leap_day r ≡ true)
      × From r next_leap)
next_after-finds_example =
    next_after-finds leap_day end_2096 next_leap end_2096-IsValid next_leap-IsValid
      (omega arith, tt) (inl (omega arith)) in_horizon next_leap_matches

-- `0 0 30 2 *`
abbrev never : Cron
never = record leap_day { days_of_month = 30 ∷ [] }

never_is_refused : never_fires never ≡ true
unfolding never_fires longest least common_days days_in_month is_leap
never_is_refused = refl

never_fires-matches_example : matches_minute never next_leap ≡ false
never_fires-matches_example = never_fires-matches never next_leap never_is_refused next_leap-IsValid

quarter_hours : parse_field minute_field (codes "0-30/15,45") ≡ ok (0 ∷ 15 ∷ 30 ∷ 45 ∷ [])
unfolding parse_field parse_items parse_item step_of bounds_of between alone ordered number named
    in_field is_digits all_digits int_from partition split same_text range range_from
quarter_hours = refl

parse_field-IsField_example : IsField 0 59 (0 ∷ 15 ∷ 30 ∷ 45 ∷ [])
parse_field-IsField_example =
    parse_field-IsField minute_field (codes "0-30/15,45") (0 ∷ 15 ∷ 30 ∷ 45 ∷ []) (omega arith)
      quarter_hours

past_the_hour : parse_field minute_field (codes "60") ≡ refused (outside 60)
unfolding parse_field parse_items parse_item step_of bounds_of between alone ordered number named
    in_field is_digits all_digits int_from partition split same_text range range_from
past_the_hour = refl
