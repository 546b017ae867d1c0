-- ===== src/Lib.antt =====
-- Zamboni keeps Apache Iceberg tables in shape: a runtime takes tables from a queue and runs compaction,
-- expiry and the other operations on them in worker processes. These modules model the parts of it
-- that decide, in src/zamboni/, and prove what makes them correct.
--
-- How the parts interact. A fleet (fleet.py) declares warehouses, each with a schedule and tables. The
-- scheduler (scheduler.py) arms a firing for each warehouse and offers its tables when it is due. The event
-- feed (events/) maps writers' events to tables and offers those too, and so does delete pressure
-- (pressure.py). Offers meet in the candidate queue (scheduler.py), which asks the quarantine
-- (quarantine.py) whether to admit each. A worker of the pool (pool.py) takes an item, under a claim
-- (claims.py), and its result goes to the queue, the quarantine and the ledger (runstate.py). A run plans
-- its compaction (planner.py) over the partitions that changed (changed.py), and expires snapshots
-- (expire.py). Within a run, maintenance.py takes each table through its operations, and passes over those that
-- the watermark on the table (health.py) shows to have nothing to do.
--
-- Which file models what:
--   Base        shared names, Boolean tests, lists, `dict` as an association list; no source file.
--   Fleet       src/zamboni/fleet.py: Firing, FleetWarehouse, FleetConfig. What a schedule offers is the interface
--               ScheduleOps, which the scheduler takes as a parameter; a firing of `none` is the AssertionError of
--               next_after. Without the random offset no schedule of fleet.py fills the interface here. Calendar: what fleet.py uses of datetime.
--               Cron: CronSchedule.matches, next_after and the check that it can fire; Cron/Fields: _parse_field
--               and __post_init__ from the five fields on. Its random offset, which is computed in floats, and
--               WindowSchedule are not modelled.
--   Health      src/zamboni/health.py: table_health, commit_order, maintenance_watermark.
--   Maintenance src/zamboni/maintenance.py: the due-checks and _run. Loop: maintain. Counters: the report's counters.
--   Scheduler   src/zamboni/scheduler.py. Reasons: REASON_OPERATIONS, operations_of, covers, stronger,
--               check_offer. Candidate, WorkItem: the records, _merged, _resolve. Queue: CandidateQueue.
--               Ticks: Scheduler. The asyncio loop run_scheduler and PressureCheck are not modelled.
--   Quarantine  src/zamboni/quarantine.py: Quarantine, with what it reads of pool.ItemResult, and with the
--               OverflowError of the backoff's product.
--   Claims      src/zamboni/claims.py: LocalClaimStore. Renewal: Claimer, over what each round of
--               its loop meets (how late it is, what the store answers and when); one clock for the store and the loop.
--   Events      src/zamboni/events/__init__.py: map_event. Events/Feed: src/zamboni/events/feed.py, EventFeed.handle,
--               flush_due and next_due. What parse_event made of a payload is an argument of `handle`.
--   Ledger      src/zamboni/runstate.py: Ledger.
--   Expire      src/zamboni/expire.py: RetentionPolicy.resolve, decide_retention. The deletion of files is not
--               modelled.
--   Deletes     src/zamboni/deletes.py: find_dangling; the index of the table library is a parameter.
--   Orphans     src/zamboni/orphans.py: OrphanCleaner; src/zamboni/reachable.py: ReachableSet.
--   Planner     src/zamboni/planner.py: CompactionPlanner.plan, _too_few, _still_open; src/zamboni/windows.py;
--               src/zamboni/config.py: resolve_target_file_size.
--   Changed     src/zamboni/changed.py: changed_partitions with _from_summaries and _from_manifests; manifests, specs and
--               partition paths of the table library are parameters.
--   Pool        src/zamboni/pool.py: size_pool, the shares of from_pool, time_limit. Processes are not modelled.
--   Pressure    src/zamboni/pressure.py: PressureSettings.
--   Tests       runs on small inputs, and an instance of each theorem.
--
-- How state and operations correspond. A method takes the object's record and returns the new one beside its
-- answer; a clock's reading, and what a callback answers, is an argument. An exception is `none` or a
-- constructor of a result. Every loop but two is structural recursion over the list that the source iterates
-- over. `search_from` in Fleet/Cron has fuel for the minutes of its horizon, and two rounds: each round goes on by
-- a minute at least. `range_from` in Fleet/Cron/Fields has fuel for the numbers from its start to its end. Instants and durations are microseconds (milliseconds in Expire) as
-- natural numbers, which do not wrap; a set is a list that is read by membership; a `dict` keeps its
-- insertion order. Texts that are only logged or shown are kept as the data they are made of.
--
-- What comes from outside: an engine's operations (the interface Engine of Maintenance), the table library's walk over a snapshot's ancestors, Python's `int` on a text and its
-- products and quotients of floats are parameters, with what the theorems need of them as hypotheses.
--
-- Not modelled: the command line, file loading and validation, sessions and engines, the asyncio
-- supervision of the runtime and the service, metrics, tracing and the demo.
pub mod Base
pub mod Fleet
pub mod Scheduler
pub mod Quarantine
pub mod Claims
pub mod Events
pub mod Health
pub mod Deletes
pub mod Ledger
pub mod Orphans
pub mod Expire
pub mod Planner
pub mod Maintenance
pub mod Changed
pub mod Pool
pub mod Pressure
pub mod Tests
