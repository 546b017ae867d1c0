-- ===== src/Tests/Sizes.antt =====
-- Tests of src/zamboni/pool.py and src/zamboni/pressure.py.
use native.Mathlib.Nat.{mul-le-mul_left}
use zamboni.Pool.{PoolSize, by_cpus, size_pool, cpus_left, memory_left, worker_baseline_bytes}
use zamboni.Pool.Sizing.{size_pool-cpus, size_pool-memory}
use zamboni.Scheduler.Reasons.{Reason, event, schedule, pressure, manual, reclaim}
use zamboni.Pressure.{
  PressureSettings, Block, whole, null, odd, block, no_block, refused, bad_delete_files,
  not_a_block, any_on, checked, from_value, triggered,
}
use zamboni.Pressure.Triggers.{IsSound, all_deleted, from_value-triggers}
use zamboni.Base.{
  ℕ, ◌+◌, ◌*◌, ◌≤◌, ◌≡◌, refl, [], Option, none, some, Bool, true, ◌&&◌, arith, leb, ltb, ◌<◌,
  is_some,
}

-- A host of 4 CPUs and 4 GB, planned whole, with budgets of 512 MiB.
abbrev all_of : ℕ → ℕ
all_of limit = limit

size_pool-cpus_example :
    (1 ≤ (size_pool all_of 4 (some 4000000000) 536870912 none 0 1).workers)
    × (1 ≤ (size_pool all_of 4 (some 4000000000) 536870912 none 0 1).threads_per_worker)
    × ((size_pool all_of 4 (some 4000000000) 536870912 none 0 1).workers
          * (size_pool all_of 4 (some 4000000000) 536870912 none 0 1).threads_per_worker
        ≤ cpus_left 4 1)
size_pool-cpus_example = size_pool-cpus all_of 4 (some 4000000000) 536870912 none 0 1

size_pool-memory_example :
    (d : ℕ) × ((size_pool all_of 4 (some 4000000000) 536870912 none 0 1).duckdb_memory_bytes
      ≡ some d)
    × (536870912 ≤ d)
    × ((size_pool all_of 4 (some 4000000000) 536870912 none 0 1).workers
          * (worker_baseline_bytes + d)
        ≤ all_of (memory_left 4000000000 0))
size_pool-memory_example =
    size_pool-memory all_of 4 4000000000 536870912 none 0 1 (omega arith) (omega arith)

-- Any time for what is asked by hand, and a limit for every other reason.
abbrev timeouts : Reason → Option ℕ
timeouts manual = none
timeouts reclaim = some 90
timeouts schedule = some 60
timeouts event = some 30
timeouts pressure = some 30

abbrev pair : PoolSize
pair = record { workers = 2; threads_per_worker = 2; reason = by_cpus; duckdb_memory_bytes = none }

-- Ratios in hundredths.
abbrev at_most_one : ℕ → Bool
at_most_one r = ltb 0 r && leb r 100

abbrev reaches : ℕ → ℕ → ℕ → Bool
reaches n d r = leb (d * r) (n * 100)

abbrev defaults : PressureSettings ℕ
defaults = record {
  delete_files = some 100;
  delete_ratio = some 50;
  deleted_rows_ratio = none;
  check_every_minutes = 15;
}

defaults-IsSound : IsSound at_most_one 100 refl defaults
defaults-IsSound = record {
  files = omega arith;
  file_ratio = refl;
  row_ratio = tt;
  interval = omega arith;
  some_on = refl;
}

-- Ten files, a ratio written as the whole number 1, and one switched off.
abbrev fewer_files : Block ℕ
fewer_files = record {
  delete_files = some (whole 10);
  delete_ratio = some (whole 1);
  deleted_rows_ratio = some null;
  check_every_minutes = none;
  unknown = [];
}

abbrev settled : PressureSettings ℕ
settled = record defaults { delete_files = some 10; delete_ratio = some 100 }

-- A text for a number of files, and one for the setting.
a_text_is_refused :
    from_value at_most_one 100 defaults
      (block (record fewer_files { delete_files = some odd }))
      none
    ≡ refused bad_delete_files
unfolding from_value checked
a_text_is_refused = refl

no_block_is_refused : from_value at_most_one 100 defaults no_block none ≡ refused not_a_block
unfolding from_value
no_block_is_refused = refl

reaches_all : (n r : ℕ) → 0 < n → at_most_one r ≡ true → reaches n n r ≡ true
reaches_all n r p h =
    let small : r ≤ 100 = ground arith in let scaled = mul-le-mul_left n small in ground arith

from_value-triggers_example :
    (0 < settled.check_every_minutes)
    × (is_some (triggered reaches settled (all_deleted at_most_one 100 refl reaches reaches_all 10))
        ≡ true)
unfolding from_value checked any_on
from_value-triggers_example =
    from_value-triggers at_most_one 100 refl reaches reaches_all defaults (block fewer_files) none
      settled defaults-IsSound (λ b h. absurd (ground arith)) refl
