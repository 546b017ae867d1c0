-- ===== src/Pool.antt =====
-- src/zamboni/pool.py: how many workers share a host, and how long a job may run. Sizes are bytes and
-- durations microseconds; a reservation is not negative. `headroom` is Python's
-- `int(limit * MEMORY_HEADROOM)`, a product of floats.
pub mod Sizing
pub mod Limits
use zamboni.Base.{
  ℕ, ◌+◌, ◌-◌, ◌*◌, ◌/◌, max, List, [], ◌∷◌, Option, none, some, Bool, true, false, ltb, leb, map,
  if◌then◌else◌, or_else, is_some,
}
use zamboni.Scheduler.Reasons.{Reason}
use zamboni.Scheduler.WorkItem.{WorkItem, reasons}

abbrev pub worker_baseline_bytes : ℕ
worker_baseline_bytes = 268435456

abbrev pub duckdb_min_memory_bytes : ℕ
duckdb_min_memory_bytes = 67108864

-- Which constraint decided the number of workers.
pub data Constraint : Type 0 where
  by_cpus by_memory by_request : Constraint

pub record PoolSize : Type 0 where
  pub workers : ℕ
  pub threads_per_worker : ℕ
  pub reason : Constraint
  pub duckdb_memory_bytes : Option ℕ

-- What remains of the CPUs and of the memory after the reservations.
abbrev pub cpus_left : ℕ → ℕ → ℕ
cpus_left cpus reserved = max 1 (cpus - reserved)

abbrev pub memory_left : ℕ → ℕ → ℕ
memory_left limit reserved = limit - reserved

module _ (headroom : ℕ → ℕ) where
  -- `by_memory`, for what remains of the limit.
  abbrev pub fitting : ℕ → ℕ → ℕ
  fitting left budget = max 1 (headroom left / (worker_baseline_bytes + budget))

  -- The workers that the host carries, before a request.
  unfoldable pub carried : ℕ → Option ℕ → ℕ → ℕ × Constraint
  carried cpus none budget = (cpus, by_cpus)
  carried cpus (some left) budget =
      if ltb (fitting left budget) cpus then (fitting left budget, by_memory) else (cpus, by_cpus)

  unfoldable pub asked_for : Option ℕ → ℕ × Constraint → ℕ × Constraint
  asked_for none (workers, reason) = (workers, reason)
  asked_for (some requested) (workers, reason) =
      if ltb requested workers then (max 1 requested, by_request) else (workers, reason)

  -- DuckDB's share of what remains of the limit.
  unfoldable pub duckdb_share : Option ℕ → ℕ → Option ℕ
  duckdb_share none workers = none
  duckdb_share (some left) workers =
      let share = headroom left / workers - worker_baseline_bytes in
      if ltb share duckdb_min_memory_bytes then some duckdb_min_memory_bytes else some share

  unfoldable pub left_of : Option ℕ → ℕ → Option ℕ
  left_of none reserved = none
  left_of (some limit) reserved = some (memory_left limit reserved)

  -- `size_pool(cpus=..., memory_limit=..., memory_budget_bytes=..., requested=..., ...)`
  unfoldable pub size_pool : ℕ → Option ℕ → ℕ → Option ℕ → ℕ → ℕ → PoolSize
  unfolding carried asked_for duckdb_share left_of
  size_pool cpus limit budget requested reserved_memory reserved_cpus =
      let left_cpus = cpus_left cpus reserved_cpus in
      let left = left_of limit reserved_memory in
      let chosen = asked_for requested (carried left_cpus left budget) in
      record {
        workers = chosen.0;
        threads_per_worker = max 1 (left_cpus / chosen.0);
        reason = chosen.1;
        duckdb_memory_bytes = duckdb_share left chosen.0;
      }

-- What `WorkerConfig.from_pool` gives each worker of the spill budget; the outer `none` is the `ValueError`.
unfoldable pub spill_share : PoolSize → Option ℕ → Option (Option ℕ)
spill_share size none = some none
spill_share size (some budget) =
    if ltb budget size.workers then none else some (some (budget / size.workers))

-- `WorkerConfig.time_limit` over the limits of a job's reasons, each a duration or no limit.
unfoldable pub longest : List (Option ℕ) → Option ℕ
longest [] = some 0
longest (none ∷ limits) = none
longest (some n ∷ limits) = elim (longest limits) [ none ↦ none | some m ↦ some (max n m) ]

-- `time_limit` of a table's run; the table of limits names every reason.
unfoldable pub time_limit : (Reason → Option ℕ) → WorkItem → Option ℕ
unfolding longest
time_limit table_timeout item = longest (map table_timeout (reasons item))
