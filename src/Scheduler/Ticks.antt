-- ===== src/Scheduler/Ticks.antt =====
-- src/zamboni/scheduler.py: `Scheduler`, one armed firing for each warehouse. A result of `none` is the
-- `KeyError` of a warehouse with no firing armed, the `ValueError` of a minimum of nothing, or the
-- `AssertionError` of a schedule that finds no firing. What a tick that raises did before it is not kept.
pub mod Fires
pub mod Work
pub mod Reloads
use Prim.Native.Nat.{Ordering}
use Prim.Native.String.{compare}
use zamboni.Base.{
  ℕ, ◌-◌, ◌*◌, ◌≡◌, ite, String, List, [], ◌∷◌, Option, none, some, Bool, true, false, TableKey,
  min, max, ltb, text_discrete, if◌then◌else◌, is_yes,
}
use zamboni.Base.Dict.{Dict, get, put}
use zamboni.Fleet.{Firing, Warehouse, ScheduleOps, find}
use zamboni.Scheduler.Reasons.{schedule}
use zamboni.Scheduler.Candidate.{Candidate}
use zamboni.Scheduler.Queue.{Queue, offer}

-- `sorted` on names.
unfoldable pub insert_name : String → List String → List String
insert_name s [] = s ∷ []
insert_name s (t ∷ ts) = elim (compare s t) [ Ordering.gt ↦ t ∷ insert_name s ts | _ ↦ s ∷ t ∷ ts ]

unfoldable pub sorted : List String → List String
unfolding insert_name
sorted [] = []
sorted (s ∷ ss) = insert_name s (sorted ss)

pub record Scheduler (S : Type 0) : Type 0 where
  pub fleet : List (Warehouse S)
  pub armed : Dict String Firing

-- What a tick leaves: the firings, the queue, and the warehouses that fired.
pub record Ticked : Type 0 where
  pub armed : Dict String Firing
  pub queue : Queue
  pub fired : List String

-- `Candidate(warehouse.name, table, SCHEDULE, not_after=armed.not_after)`
abbrev pub scheduled : String → Option ℕ → String → Candidate
scheduled warehouse not_after table = record {
  warehouse = warehouse;
  table = table;
  reason = schedule;
  also = [];
  not_after = not_after;
}

module _ (admit : Candidate → Bool) where
  unfoldable pub offer_tables : String → Option ℕ → List String → Queue → Queue
  offer_tables warehouse not_after [] q = q
  offer_tables warehouse not_after (t ∷ ts) q =
      offer_tables warehouse not_after ts (offer admit q (scheduled warehouse not_after t)).0

module _ {S : Type 0} (ops : ScheduleOps S) where
  unfoldable pub arm_all : ℕ → List (Warehouse S) → Dict String Firing → Option (Dict String Firing)
  arm_all now [] armed = some armed
  arm_all now (w ∷ ws) armed = elim (ops.first_firing w.schedule now w.name) [
    | none ↦ none
    | some f ↦ arm_all now ws (put text_discrete armed w.name f)
  ]

  -- `Scheduler(fleet, now)`
  unfoldable pub start : List (Warehouse S) → ℕ → Option (Scheduler S)
  unfolding arm_all
  start fleet now = elim (arm_all now fleet []) [
    | none ↦ none
    | some armed ↦ some (record { fleet = fleet; armed = armed })
  ]

  module _ (admit : Candidate → Bool) (now : ℕ) where
    abbrev pub with_fired : String → Option Ticked → Option Ticked
    with_fired name none = none
    with_fired name (some t) = some (record t { fired = name ∷ t.fired })

    -- The loop of `tick` over the warehouses left.
    unfoldable pub tick_from : List (Warehouse S) → Dict String Firing → Queue → Option Ticked
    unfolding sorted offer_tables
    tick_from [] armed q = some (record { armed = armed; queue = q; fired = [] })
    tick_from (w ∷ ws) armed q = elim (get text_discrete armed w.name) [
      | none ↦ none
      | some f ↦ elim (ltb now f.due) [
        | true ↦ tick_from ws armed q
        | false ↦ elim (ops.firing_after w.schedule (max now f.nominal) w.name) [
          | none ↦ none
          | some next ↦ with_fired w.name (
              tick_from ws (put text_discrete armed w.name next)
                (offer_tables admit w.name f.not_after (sorted w.table_config.tables) q))
        ]
      ]
    ]

    unfoldable pub tick : Scheduler S → Queue → Option Ticked
    unfolding tick_from
    tick s q = tick_from s.fleet s.armed q

  -- Whether the fleet in use has this warehouse under the same schedule.
  unfoldable pub unchanged : List (Warehouse S) → Warehouse S → Bool
  unchanged fleet w = elim (find fleet w.name) [
    | none ↦ false
    | some old ↦ is_yes (ops.same old.schedule w.schedule)
  ]

  -- The firing that `rearm` gives a warehouse.
  unfoldable pub rearmed : Scheduler S → ℕ → Warehouse S → Option Firing
  unfolding unchanged
  rearmed s now w =
      if unchanged s.fleet w
      then get text_discrete s.armed w.name
      else ops.first_firing w.schedule now w.name

  -- The loop of `rearm`, over the warehouses left and the firings so far.
  unfoldable pub rearm_from :
      Scheduler S → ℕ → List (Warehouse S) → Dict String Firing → Option (Dict String Firing)
  unfolding rearmed
  rearm_from s now [] armed = some armed
  rearm_from s now (w ∷ ws) armed = elim (rearmed s now w) [
    | none ↦ none
    | some f ↦ rearm_from s now ws (put text_discrete armed w.name f)
  ]

  unfoldable pub rearm : Scheduler S → List (Warehouse S) → ℕ → Option (Scheduler S)
  unfolding rearm_from
  rearm s fleet now = elim (rearm_from s now fleet []) [
    | none ↦ none
    | some armed ↦ some (record { fleet = fleet; armed = armed })
  ]

  unfoldable pub next_firing : Scheduler S → String → Option ℕ
  next_firing s warehouse = elim (get text_discrete s.armed warehouse) [
    | none ↦ none
    | some f ↦ some f.due
  ]

earliest : Dict String Firing → Option ℕ
earliest [] = none
earliest ((_, f) ∷ rest) = elim (earliest rest) [ none ↦ some f.due | some t ↦ some (min f.due t) ]

unfoldable pub wake_at : {S : Type 0} → Scheduler S → Option ℕ
unfolding earliest
wake_at s = earliest s.armed
