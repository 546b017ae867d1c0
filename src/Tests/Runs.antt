-- ===== src/Tests/Runs.antt =====
-- Tests of src/zamboni/health.py and src/zamboni/maintenance.py.
use mathlib.Core.List.{Permᴰ}
use zamboni.Base.{
  ℕ, suc, ◌+◌, ◌≡◌, ◌⊎◌, ◌↔◌, refl, List, [], ◌∷◌, ◌++◌, map, true, false, none, some, ltb,
  if◌then◌else◌, All, length, text_discrete, arith,
}
use zamboni.Base.Dict.{get}
use zamboni.Scheduler.Reasons.{
  Operation, compact, expire, remove_dangling_deletes, rewrite_manifests, Operation-discrete,
}
use zamboni.Health.{
  Snapshot, Table, insert, commit_order, stamp, newest_from, mark_of, maintained,
  maintenance_watermark, written_since,
}
use zamboni.Health.Order.{DistinctSequences}
use zamboni.Health.Watermarks.{
  Marks, later_than, maintenance_watermark-Permᴰ, maintenance_watermark-Marks,
}
use zamboni.Maintenance.{
  among, enabled, Retention, compaction, other, produced, aborted, goes_on, asks_to_stop, Engine,
  Outcome, compaction_wrote, compaction_unfinished, skip_of, outcome_of, failed, unchanged_since,
  maintained_within, exit_code,
}
use zamboni.Maintenance.Counters.{counters, exit_code-counters, counters-partition}
use zamboni.Maintenance.Loop.{
  Run, TableRun, begun, step, run_one, skipped_as, held_back, recorded, kept_after, run_steps,
  check, stopping, stopping_all, reason_of, run_tables, started, maintain, all_pairs,
}
use zamboni.Maintenance.Loop.Steps.{Ran, run_steps-Ran}
use zamboni.Maintenance.Loop.Reports.{subject, NoAbort, left_out, maintain-accounts}
use zamboni.Maintenance.Skips.{unchanged_since-last}

-- Two appends around a compaction, listed out of order.
abbrev first_append : Snapshot
first_append = record {
  snapshot_id = 11;
  sequence_number = some 1;
  timestamp_ms = 100;
  summary = some [];
}

abbrev compacted : Snapshot
compacted = record {
  snapshot_id = 12;
  sequence_number = some 2;
  timestamp_ms = 90;
  summary = some (("zamboni.operation", "compact") ∷ []);
}

abbrev last_append : Snapshot
last_append = record {
  snapshot_id = 13;
  sequence_number = some 3;
  timestamp_ms = 120;
  summary = none;
}

abbrev written : Table
written = record {
  name = "sales" ∷ "orders" ∷ [];
  current_snapshot_id = some 13;
  snapshots = last_append ∷ first_append ∷ compacted ∷ [];
  metadata_log = 4;
}

abbrev quiet : Table
quiet = record written { snapshots = compacted ∷ first_append ∷ [] }

written_differ : DistinctSequences written.snapshots
written_differ = (
  (λ e. absurd (omega (arith, e)), (λ e. absurd (omega (arith, e)), tt)),
  ((λ e. absurd (omega (arith, e)), tt), (tt, tt)),
)

quiet_differ : DistinctSequences quiet.snapshots
quiet_differ = ((λ e. absurd (omega (arith, e)), tt), (tt, tt))

one_write_since : (maintenance_watermark written).snapshots_since ≡ 1
unfolding maintenance_watermark commit_order insert newest_from stamp mark_of get text_discrete
one_write_since = refl

maintenance_watermark-Permᴰ_example :
    maintenance_watermark
      (record written { snapshots = first_append ∷ last_append ∷ compacted ∷ [] })
    ≡ maintenance_watermark written
maintenance_watermark-Permᴰ_example =
    maintenance_watermark-Permᴰ written (first_append ∷ last_append ∷ compacted ∷ [])
      (Permᴰ.swap refl refl) written_differ

maintenance_watermark-Marks_example :
    ((maintained (maintenance_watermark written) ≡ false)
      × All (λ r. stamp r ≡ none) written.snapshots
      × ((maintenance_watermark written).snapshots_since ≡ length written.snapshots))
    ⊎ ((s : Snapshot) × Marks written (maintenance_watermark written) s)
maintenance_watermark-Marks_example = maintenance_watermark-Marks written written_differ

quiet_is_unchanged : among compact (unchanged_since (some (maintenance_watermark quiet))) ≡ true
unfolding unchanged_since written_since maintained maintenance_watermark commit_order insert
    newest_from stamp mark_of get text_discrete Operation-discrete
quiet_is_unchanged = refl

unchanged_since-last_example :
    (s : Snapshot) × (Marks quiet (maintenance_watermark quiet) s
      × (later_than s quiet.snapshots ≡ []))
unchanged_since-last_example = unchanged_since-last quiet compact quiet_differ quiet_is_unchanged

-- An engine whose world counts the operations, and a caller that asks to stop after the first.
abbrev engine : Engine ℕ
engine = record {
  fulfilled_by = λ o. none;
  executed = λ w table o unfinished.
      (suc w, [], elim o [ compact ↦ produced (compaction 2 0 none) | _ ↦ produced other ]);
  should_stop = λ w. if ltb 0 w then asks_to_stop else goes_on;
  observed = λ w outcome. (w, false);
}

abbrev all_enabled : Retention
all_enabled = record {
  expire_snapshots = true;
  remove_orphan_files = true;
  dangling_deletes = true;
  manifests = true;
}

abbrev nightly : Run ℕ
nightly = record {
  engine = engine;
  order = compact ∷ expire ∷ remove_dangling_deletes ∷ rewrite_manifests ∷ expire ∷ [];
  commit = true;
  started_at = 1000;
  min_interval = none;
  retention = λ table. all_enabled;
  watermark = λ w table. none;
}

abbrev at_orders : TableRun ℕ
at_orders = record {
  run = started nightly 0;
  done = [];
  owed = [];
  unchanged = rewrite_manifests ∷ [];
  recent = false;
  unfinished = none;
}

abbrev after_compact : List Operation
after_compact = expire ∷ remove_dangling_deletes ∷ rewrite_manifests ∷ expire ∷ []

nightly_subjects :
    map subject (maintain nightly ("orders" ∷ "items" ∷ []) 0).outcomes
    ≡ ("orders", compact)
      ∷ ("orders", expire)
      ∷ ("orders", remove_dangling_deletes)
      ∷ ("orders", rewrite_manifests)
      ∷ []
unfolding maintain run_tables run_steps step run_one skipped_as skip_of enabled held_back recorded
    kept_after check stopping stopping_all reason_of begun unchanged_since maintained_within
    outcome_of compaction_wrote compaction_unfinished Operation-discrete
nightly_subjects = refl

nothing_aborts : NoAbort (maintain nightly ("orders" ∷ "items" ∷ []) 0).outcomes
unfolding maintain run_tables run_steps step run_one skipped_as skip_of enabled held_back recorded
    kept_after check stopping stopping_all reason_of begun unchanged_since maintained_within
    outcome_of compaction_wrote compaction_unfinished Operation-discrete
nothing_aborts = (
  λ e. absurd (omega (arith, e)),
  (
    λ e. absurd (omega (arith, e)),
    (λ e. absurd (omega (arith, e)), (λ e. absurd (omega (arith, e)), tt)),
  ),
)

maintain-accounts_example :
    map subject (maintain nightly ("orders" ∷ "items" ∷ []) 0).outcomes
      ++ left_out nightly (maintain nightly ("orders" ∷ "items" ∷ []) 0).stopped
    ≡ all_pairs nightly ("orders" ∷ "items" ∷ [])
maintain-accounts_example = maintain-accounts nightly ("orders" ∷ "items" ∷ []) 0 nothing_aborts

run_steps-Ran_example :
    (news : List Outcome) × (((run_steps nightly "orders" nightly.order at_orders).0.outcomes
        ≡ at_orders.run.outcomes ++ news)
      × Ran "orders" nightly.order news (run_steps nightly "orders" nightly.order at_orders).1)
run_steps-Ran_example = run_steps-Ran nightly nightly.order "orders" at_orders

-- An abort, and the note that follows it under the same operation.
abbrev two_outcomes : List Outcome
two_outcomes =
    failed "orders" expire (aborted "a referenced file")
    ∷ outcome_of "orders" compact (produced other)
    ∷ []

exit_code-counters_example : (exit_code two_outcomes ≡ 0) ↔ ((counters two_outcomes).failures ≡ 0)
exit_code-counters_example = exit_code-counters two_outcomes

counters-partition_example :
    (counters two_outcomes).considered
    ≡ (counters two_outcomes).skips
      + (counters two_outcomes).maintains
      + (counters two_outcomes).failures
counters-partition_example = counters-partition two_outcomes
