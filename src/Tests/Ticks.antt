-- ===== src/Tests/Ticks.antt =====
-- Tests of src/zamboni/scheduler.py: ticks and reloads.
use zamboni.Base.{
  ℕ, ◌≡◌, refl, [], ◌∷◌, none, some, true, arith, Distinct, text_discrete, ℕ_discrete,
}
use zamboni.Base.Dict.{get}
use zamboni.Fleet.{names, find}
use zamboni.Scheduler.Reasons.{compact}
use zamboni.Scheduler.Queue.{empty}
use zamboni.Scheduler.Queue.Offers.{in_hand}
use zamboni.Scheduler.Ticks.{Scheduler, Ticked, tick, unchanged, rearm}
use zamboni.Scheduler.Ticks.Fires.{Armed, GoesOn, firing_left, Outcome, tick-Outcome}
use zamboni.Scheduler.Ticks.Work.{tick-runs}
use zamboni.Scheduler.Ticks.Reloads.{Reloaded, rearm-Reloaded}
use zamboni.Tests.{every, fleet, sales, stock}

abbrev armed : Scheduler ℕ
armed = record {
  fleet = fleet;
  armed =
      ("sales", record { nominal = 10; due = 10; not_after = none })
      ∷ ("stock", record { nominal = 30; due = 30; not_after = none })
      ∷ [];
}

names_differ : Distinct text_discrete (names fleet)
unfolding text_discrete
names_differ = (refl, (refl, tt))

is_armed : Armed every armed.fleet armed.armed
unfolding get text_discrete
is_armed = (refl, (refl, tt))

both_go_on : GoesOn every 10 armed.armed armed.fleet
unfolding get text_discrete firing_left
both_go_on = (refl, (refl, tt))

tick-Outcome_example :
    (t : Ticked) × (tick every (λ c. true) 10 armed empty ≡ some t)
    × Outcome every (λ c. true) 10 armed.fleet armed.armed armed.armed empty t
tick-Outcome_example =
    tick-Outcome every (λ c. true) 10 armed empty names_differ is_armed both_go_on

ran : (t : Ticked) × (tick every (λ c. true) 10 armed empty ≡ some t)
ran =
    let outcome = tick-Outcome every (λ c. true) 10 armed empty names_differ is_armed both_go_on in
    (outcome.0, outcome.1)

tick-runs_example : in_hand ran.0.queue ("sales", "a.items") compact ≡ true
unfolding get find text_discrete
tick-runs_example =
    tick-runs every (λ c. true) 10 compact armed empty sales
      (record { nominal = 10; due = 10; not_after = none }) "sales" "a.items" ran.0 names_differ
      is_armed both_go_on refl refl (omega arith) refl refl ran.1

rearm-Reloaded_example :
    (r : Scheduler ℕ) × (rearm every armed (stock ∷ []) 20 ≡ some r)
    × (r.fleet ≡ stock ∷ [])
    × Armed every (stock ∷ []) r.armed
    × Reloaded every armed 20 is_armed (stock ∷ []) [] r.armed
unfolding text_discrete ℕ_discrete unchanged find
rearm-Reloaded_example = rearm-Reloaded every armed 20 is_armed (stock ∷ []) (refl, tt) (refl, tt)
