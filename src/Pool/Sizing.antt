-- ===== src/Pool/Sizing.antt =====
-- src/zamboni/pool.py: a pool never plans past its CPUs or its memory, and a request only lowers it.
use native.Mathlib.Nat.{div-mul-le_self, mul-div-le, le-div_iff_mul-le, mul_comm, mul-le-mul_right}
use zamboni.Base.{ℕ, ◌+◌, ◌-◌, ◌*◌, ◌/◌, ◌≤◌, ◌≡◌, sym, subst, max, min, Option, none, some, arith}
use zamboni.Pool.{
  Constraint, worker_baseline_bytes, duckdb_min_memory_bytes, cpus_left, memory_left, fitting,
  carried, asked_for, duckdb_share, left_of, size_pool,
}

module _ (headroom : ℕ → ℕ) where
  carried-bounds :
      (cpus : ℕ) (left : Option ℕ) (budget : ℕ)
      → 1 ≤ cpus
      → (1 ≤ (carried headroom cpus left budget).0) × ((carried headroom cpus left budget).0 ≤ cpus)
  unfolding carried
  carried-bounds cpus none budget h = (h, omega arith)
  carried-bounds cpus (some left) budget h = ground arith

  asked_for-bounds :
      (requested : Option ℕ) (w : ℕ × Constraint)
      → 1 ≤ w.0
      → (1 ≤ (asked_for headroom requested w).0) × ((asked_for headroom requested w).0 ≤ w.0)
  unfolding asked_for
  asked_for-bounds none w h = (h, omega arith)
  asked_for-bounds (some n) w h = ground arith

  carried-le-fitting :
      (cpus left budget : ℕ)
      → (carried headroom cpus (some left) budget).0 ≤ fitting headroom left budget
  unfolding carried
  carried-le-fitting cpus left budget = ground arith

  -- Where one worker fits, all that are planned fit.
  fitting-fits :
      (left budget : ℕ)
      → worker_baseline_bytes + budget ≤ headroom left
      → fitting headroom left budget * (worker_baseline_bytes + budget) ≤ headroom left
  fitting-fits left budget fits =
      subst (λ n. n * (worker_baseline_bytes + budget) ≤ headroom left) (sym one_fits)
        (div-mul-le_self (headroom left) (worker_baseline_bytes + budget))
    where
      one_fits :
          max 1 (headroom left / (worker_baseline_bytes + budget))
          ≡ headroom left / (worker_baseline_bytes + budget)
      one_fits = omega (
        arith,
        (le-div_iff_mul-le {k = worker_baseline_bytes + budget} {x = 1} {y = headroom left}
              (omega arith)).1
            (omega (arith, fits)),
      )

  module _ (left budget workers : ℕ) (positive : 1 ≤ workers)
      (planned : workers ≤ fitting headroom left budget)
      (fits : worker_baseline_bytes + budget ≤ headroom left) where
    workers-fit : workers * (worker_baseline_bytes + budget) ≤ headroom left
    workers-fit = omega (
      arith,
      mul-le-mul_right (worker_baseline_bytes + budget) planned,
      fitting-fits left budget fits,
    )

    share-ge : worker_baseline_bytes + budget ≤ headroom left / workers
    share-ge =
        (le-div_iff_mul-le {k = workers} {x = worker_baseline_bytes + budget} {y = headroom left}
            positive).1
          (omega (arith, workers-fit, mul_comm workers (worker_baseline_bytes + budget)))

    share-fits :
        workers * (worker_baseline_bytes + (headroom left / workers - worker_baseline_bytes))
        ≤ headroom left
    share-fits =
        subst (λ n. workers * n ≤ headroom left) (omega (arith, share-ge))
          (mul-div-le (headroom left) workers)

    duckdb_share-fits :
        duckdb_min_memory_bytes ≤ budget
        → (d : ℕ) × (duckdb_share headroom (some left) workers ≡ some d)
          × (budget ≤ d)
          × (workers * (worker_baseline_bytes + d) ≤ headroom left)
    unfolding duckdb_share
    duckdb_share-fits least = (
      headroom left / workers - worker_baseline_bytes,
      ground (arith, share-ge),
      omega (arith, share-ge),
      share-fits,
    )

  -- A pool has a worker, each worker has a thread, and together they have no more threads than the
  -- CPUs that the reservation leaves, of which there is always one.
  pub size_pool-cpus :
      (cpus : ℕ) (limit : Option ℕ) (budget : ℕ) (requested : Option ℕ)
      (reserved_memory reserved_cpus : ℕ)
      → (1 ≤ (size_pool headroom cpus limit budget requested reserved_memory reserved_cpus).workers)
        × (1
            ≤ (size_pool headroom cpus limit budget requested reserved_memory
                reserved_cpus).threads_per_worker)
        × ((size_pool headroom cpus limit budget requested reserved_memory reserved_cpus).workers
              * (size_pool headroom cpus limit budget requested reserved_memory
                  reserved_cpus).threads_per_worker
            ≤ cpus_left cpus reserved_cpus)
  unfolding size_pool
  size_pool-cpus cpus limit budget requested reserved_memory reserved_cpus =
      let carry =
        carried headroom (cpus_left cpus reserved_cpus) (left_of headroom limit reserved_memory)
          budget in
      let carry_bounds =
        carried-bounds (cpus_left cpus reserved_cpus) (left_of headroom limit reserved_memory)
          budget (omega arith) in
      let bounds = asked_for-bounds requested carry carry_bounds.0 in
      (
        bounds.0,
        omega arith,
        shared (asked_for headroom requested carry).0 (cpus_left cpus reserved_cpus) bounds.0
            (omega (arith, bounds.1, carry_bounds.1)),
      )
    where
      shared : (w c : ℕ) → 1 ≤ w → w ≤ c → w * max 1 (c / w) ≤ c
      shared w c h le =
          subst (λ n. w * n ≤ c)
            (omega (arith, (le-div_iff_mul-le {k = w} {x = 1} {y = c} h).1 (omega (arith, le))))
            (mul-div-le c w)

  -- Where the memory that the reservation leaves carries one worker with its budget, and the
  -- budget is no less than the least that DuckDB is given: DuckDB gets at least the budget in each
  -- worker, and all the workers with what DuckDB gets fit that memory together.
  pub size_pool-memory :
      (cpus limit budget : ℕ) (requested : Option ℕ) (reserved_memory reserved_cpus : ℕ)
      → worker_baseline_bytes + budget ≤ headroom (memory_left limit reserved_memory)
      → duckdb_min_memory_bytes ≤ budget
      → (d : ℕ) × ((size_pool headroom cpus
            (some limit)
            budget
            requested
            reserved_memory
            reserved_cpus).duckdb_memory_bytes
          ≡ some d)
        × (budget ≤ d)
        × ((size_pool headroom cpus
                (some limit)
                budget
                requested
                reserved_memory
                reserved_cpus).workers
              * (worker_baseline_bytes + d)
            ≤ headroom (memory_left limit reserved_memory))
  unfolding size_pool left_of
  size_pool-memory cpus limit budget requested reserved_memory reserved_cpus fits least =
      let left = memory_left limit reserved_memory in
      let carry = carried headroom (cpus_left cpus reserved_cpus) (some left) budget in
      let bounds =
        asked_for-bounds requested carry
          (carried-bounds (cpus_left cpus reserved_cpus) (some left) budget (omega arith)).0 in
      duckdb_share-fits left budget (asked_for headroom requested carry).0 bounds.0
        (omega (arith, bounds.1, carried-le-fitting (cpus_left cpus reserved_cpus) left budget))
        fits least

  -- A request for at least one worker gives the lesser of the request and of what the pool has
  -- without it.
  pub size_pool-request :
      (cpus : ℕ) (limit : Option ℕ) (budget n : ℕ) (reserved_memory reserved_cpus : ℕ)
      → 1 ≤ n
      → (size_pool headroom cpus limit budget (some n) reserved_memory reserved_cpus).workers
        ≡ min n (size_pool headroom cpus limit budget none reserved_memory reserved_cpus).workers
  unfolding size_pool asked_for
  size_pool-request cpus limit budget n reserved_memory reserved_cpus h = ground arith
