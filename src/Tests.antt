-- ===== src/Tests.antt =====
-- Tests of src/zamboni/ on small inputs, and the instances of the theorems: no source file corresponds to this module.
mod Removals
mod Renewals
mod Runs
mod Crons
mod Queue
mod Ticks
mod Runtime
mod Feeds
mod Tables
mod Sizes
use zamboni.Base.{
  ℕ, ◌+◌, max, String, List, [], ◌∷◌, Option, none, some, Bool, true, false, arith, ℕ_discrete,
  ◌==◌, if◌then◌else◌,
}
use zamboni.Fleet.{Warehouse, ScheduleOps, Firing, TableConfig}
use zamboni.Scheduler.Reasons.{Reason, schedule, event, manual}
use zamboni.Scheduler.Candidate.{Candidate}
use zamboni.Scheduler.WorkItem.{WorkItem}
use zamboni.Quarantine.{ItemResult}

-- A schedule that fires every so many microseconds and one later; one of 0 finds no firing.
abbrev pub every : ScheduleOps ℕ
every = record {
  first_firing = λ s now seed.
      if s == 0 then none else some (record { nominal = now; due = now; not_after = none });
  firing_after = λ s moment seed.
      if s == 0
      then none
      else some (record { nominal = moment + 1 + s; due = moment + 1 + s; not_after = none });
  min_interval = λ s. some s;
  same = ℕ_discrete;
  firing_after_later = λ s moment seed f e. ground (arith, e);
}

abbrev pub sales : Warehouse ℕ
sales = record {
  name = "sales";
  schedule = 60;
  table_config = record { tables = "b.orders" ∷ "a.items" ∷ [] };
  uri = none;
}

abbrev pub stock : Warehouse ℕ
stock = record {
  name = "stock";
  schedule = 90;
  table_config = record { tables = "c.bins" ∷ [] };
  uri = none;
}

abbrev pub fleet : List (Warehouse ℕ)
fleet = sales ∷ stock ∷ []

abbrev pub orders : Candidate
orders = record {
  warehouse = "sales";
  table = "b.orders";
  reason = event;
  also = [];
  not_after = none;
}

abbrev pub orders_scheduled : Candidate
orders_scheduled = record {
  warehouse = "sales";
  table = "b.orders";
  reason = schedule;
  also = [];
  not_after = none;
}

abbrev pub orders_item : WorkItem
orders_item = record {
  warehouse = "sales";
  table = "b.orders";
  reason = event;
  table_config = record { tables = "b.orders" ∷ [] };
  uri = none;
  also = [];
  not_after = none;
  min_interval = none;
  commit = true;
}

-- A run of the orders that ended with this exit code.
abbrev pub run_of : ℕ → ItemResult
run_of code = record { item = orders_item; exit_code = code; death = none; dropped = none }
