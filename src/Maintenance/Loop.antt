-- ===== src/Maintenance/Loop.antt =====
-- src/zamboni/maintenance.py: `maintain`, the loop over tables and operations with its stops and aborts.
pub mod Steps
pub mod Cleanup
pub mod Reports
use zamboni.Base.{
  ℕ, ◌+◌, String, List, [], ◌∷◌, ◌++◌, map, Bool, true, false, ◌&&◌, ◌||◌, not, Option, none, some,
  is_some, or_else, ltb, ◌==◌, if◌then◌else◌, keep,
}
use zamboni.Health.{Watermark}
use zamboni.Scheduler.Reasons.{Operation, compact}
use zamboni.Maintenance.{
  among, same_operation, Retention, Result, Executed, Ask, goes_on, asks_to_stop, fails, Engine,
  Unfinished, stopping_this_table, Outcome, bare, after_compaction, MinimumInterval,
  maintained_within, unchanged_since, outcome_of, fulfilled, skip_of, compaction_wrote,
  compaction_unfinished,
}

pub data StopReason : Type 0 where
  should_stop_true should_stop_raised observer_raised : StopReason

-- `stop_reason` and `stop_seen`
pub record Stop : Type 0 where
  pub reason : Option StopReason
  pub seen : Bool

unfoldable pub reason_of : Ask → Option StopReason
reason_of goes_on = none
reason_of asks_to_stop = some should_stop_true
reason_of fails = some should_stop_raised

abbrev first_of : Option StopReason → Option StopReason → Option StopReason
first_of none b = b
first_of (some r) b = some r

-- `stopping()`: what it leaves, and what it answers.
unfoldable pub stopping : Stop → Ask → Stop × Bool
stopping s ask =
    let reason = first_of s.reason (reason_of ask) in
    (record { reason = reason; seen = s.seen || is_some reason }, is_some reason)

unfoldable pub stopping_all : Stop → List Ask → Stop
stopping_all s [] = s
stopping_all s (ask ∷ asks) = stopping_all (stopping s ask).0 asks

-- What a run is given; `watermark` reads the catalog.
pub record Run (W : Type 0) : Type 0 where
  pub engine : Engine W
  pub order : List Operation
  pub commit : Bool
  pub started_at : ℕ
  pub min_interval : Option MinimumInterval
  pub retention : String → Retention
  pub watermark : W → String → Option Watermark

-- What a run changes.
pub record Progress (W : Type 0) : Type 0 where
  pub world : W
  pub stop : Stop
  pub outcomes : List Outcome

-- And what it keeps for the table at hand.
pub record TableRun (W : Type 0) : Type 0 where
  pub run : Progress W
  pub done : List Operation
  pub owed : List Operation
  pub unchanged : List Operation
  pub recent : Bool
  pub unfinished : Option Unfinished

-- `operation not in min_interval.due_anyway`, where there is an interval.
unfoldable pub held_back : Option MinimumInterval → Operation → Bool
held_back none o = false
held_back (some least) o = not (among o least.due_anyway)

module _ {W : Type 0} (c : Run W) where
  -- `record(outcome)`
  unfoldable pub recorded : Progress W → Outcome → Progress W
  recorded p o =
      let (world, raises) = c.engine.observed p.world o in
      record {
        world = world;
        stop =
            if raises
            then record p.stop { reason = first_of p.stop.reason (some observer_raised) }
            else p.stop;
        outcomes = p.outcomes ++ o ∷ [];
      }

  unfoldable pub skipped_as : String → TableRun W → Operation → Option Outcome
  skipped_as table t o =
      skip_of (c.retention table) table o (t.recent && held_back c.min_interval o)
        (among o t.unchanged) (fulfilled (c.engine.fulfilled_by o) t.done)

  -- `_run`: what it leaves of the world and the stop, and its outcome.
  unfoldable pub run_one : String → TableRun W → Operation → W × Stop × Outcome
  run_one table t o = elim (skipped_as table t o) [
    | some outcome ↦ (t.run.world, t.run.stop, outcome)
    | none ↦
        let (world, asks, ex) = c.engine.executed t.run.world table o t.unfinished in
        (world, stopping_all t.run.stop asks, outcome_of table o ex)
  ]

  -- What the table keeps after an outcome, with `rest` still to come.
  unfoldable pub kept_after :
      TableRun W → Operation → List Operation → Outcome → Progress W → TableRun W
  kept_after t o rest outcome run =
      let wrote = same_operation o compact && (c.commit && compaction_wrote outcome) in
      record {
        run = run;
        done = if is_some outcome.result then o ∷ t.done else t.done;
        owed =
            if wrote
            then keep (λ p. among p after_compaction) rest
            else keep (λ p. not (same_operation p o)) t.owed;
        unchanged =
            if wrote then keep (λ p. not (among p after_compaction)) t.unchanged else t.unchanged;
        recent = t.recent;
        unfinished =
            if same_operation o compact then compaction_unfinished outcome else t.unfinished;
      }

  -- One round of the inner loop past its check for a stop.
  unfoldable pub step : String → TableRun W → Operation → List Operation → TableRun W × Outcome
  step table t o rest =
      let (world, stop, outcome) = run_one table t o in
      let run =
        recorded (record { world = world; stop = stop; outcomes = t.run.outcomes }) outcome in
      (kept_after t o rest outcome run, outcome)

  -- `not owed and stopping()`
  unfoldable pub check : TableRun W → Stop × Bool
  check t = elim t.owed [
    | [] ↦ stopping t.run.stop (c.engine.should_stop t.run.world)
    | o ∷ os ↦ (t.run.stop, false)
  ]

  -- The inner loop, over the operations left: the run, and those it never started.
  unfoldable pub run_steps : String → List Operation → TableRun W → Progress W × List Operation
  run_steps table [] t = (t.run, [])
  run_steps table (o ∷ rest) t =
      let (stop, stops) = check t in
      let p = record t.run { stop = stop } in
      elim stops [
        | true ↦ (p, o ∷ rest)
        | false ↦
            let (next, outcome) = step table (record t { run = p }) o rest in
            elim (outcome.exit_code == 4) [
              | true ↦ (recorded next.run (bare table o 0 (stopping_this_table o)), [])
              | false ↦ run_steps table rest next
            ]
      ]

  unfoldable pub begun : String → Progress W → TableRun W
  begun table p =
      let mark = c.watermark p.world table in
      record {
        run = p;
        done = [];
        owed = [];
        unchanged = unchanged_since mark;
        recent = maintained_within mark c.min_interval c.started_at;
        unfinished = none;
      }

  abbrev pub pairs : String → List Operation → List (String × Operation)
  pairs table [] = []
  pairs table (o ∷ os) = (table, o) ∷ pairs table os

  -- Every operation of every table.
  abbrev pub all_pairs : List String → List (String × Operation)
  all_pairs [] = []
  all_pairs (t ∷ ts) = pairs t c.order ++ all_pairs ts

  -- The outer loop: the run, and what was not run.
  unfoldable pub run_tables : List String → Progress W → Progress W × List (String × Operation)
  run_tables [] p = (p, [])
  run_tables (table ∷ tables) p =
      let (stop, stops) = stopping p.stop (c.engine.should_stop p.world) in
      let p = record p { stop = stop } in
      elim stops [
        | true ↦ (p, all_pairs (table ∷ tables))
        | false ↦
            let (next, not_started) = run_steps table c.order (begun table p) in
            elim not_started [
              | [] ↦ run_tables tables next
              | o ∷ os ↦ (next, pairs table (o ∷ os) ++ all_pairs tables)
            ]
      ]

  pub record Report : Type 0 where
    pub outcomes : List Outcome
    pub stopped : Option (StopReason × List (String × Operation))

  -- `Stopped(...) if stop_seen and stop_reason else None`
  unfoldable pub stopped_of :
      Stop → List (String × Operation) → Option (StopReason × List (String × Operation))
  stopped_of stop not_run = elim stop.reason [
    | none ↦ none
    | some r ↦ if stop.seen then some (r, not_run) else none
  ]

  abbrev pub started : W → Progress W
  started world = record {
    world = world;
    stop = record { reason = none; seen = false };
    outcomes = [];
  }

  -- `maintain`
  unfoldable pub maintain : List String → W → Report
  maintain wanted world =
      let (run, not_run) = run_tables wanted (started world) in
      record { outcomes = run.outcomes; stopped = stopped_of run.stop not_run }
