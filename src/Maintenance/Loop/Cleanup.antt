-- ===== src/Maintenance/Loop/Cleanup.antt =====
-- The clean-up that a compaction leaves is run before a stop is acted on.
use zamboni.Base.{String, List, ◌++◌, Bool, true, false, ◌&&◌, ◌||◌, not, ◌≡◌, ◌==◌, any_of}
use zamboni.Scheduler.Reasons.{Operation, compact}
use zamboni.Maintenance.{
  same_operation, enabled, Detail, disabled, not_due, nothing_to_do, Outcome, compaction_wrote,
}
use zamboni.Maintenance.Loop.{Run, Progress, TableRun, held_back, run_one}

-- The operation was not executed: it is off, not due yet, or nothing was written since.
abbrev pub passed_over : Detail → Bool
passed_over detail = elim detail [
  | disabled p ↦ true
  | not_due ↦ true
  | nothing_to_do ↦ true
  | other ↦ false
]

-- Whether an operation was executed, or is done by one that was; or an abort, which ends the
-- table's run.
abbrev pub settles : Operation → Outcome → Bool
settles o outcome =
    same_operation outcome.operation o && not (passed_over outcome.detail)
    || (outcome.exit_code == 4)

module _ {W : Type 0} (c : Run W) where
  -- The operation is enabled for the table and due.
  abbrev pub IsDue : String → TableRun W → Operation → Type 0
  IsDue table t o =
      (enabled (c.retention table) o ≡ true) × ((t.recent && held_back c.min_interval o) ≡ false)

  -- Whether a step is a compaction that wrote, in a run that commits.
  abbrev wrote : String → TableRun W → Operation → Bool
  wrote table t p =
      same_operation p compact && (c.commit && compaction_wrote (run_one c table t p).2)

  -- What a run of a table adds to its outcomes settles an operation.
  abbrev Settles : Operation → TableRun W → Progress W × List Operation → Type 0
  Settles o t r =
      (news : List Outcome) × ((r.0.outcomes ≡ t.run.outcomes ++ news)
        × (any_of (settles o) news ≡ true))
