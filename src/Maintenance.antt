-- ===== src/Maintenance.antt =====
-- src/zamboni/maintenance.py: the outcomes of a run and what is counted of them, the due-checks, and `_run`, one
-- operation on one table. An engine is an interface: what it supports, and what executing an operation does in
-- a world `W`. An exception that `_run` does not catch, and the metrics reporter, are not modelled.
pub mod Loop
pub mod Counters
pub mod Skips
use zamboni.Base.{
  ℕ, zero, suc, ◌+◌, ◌*◌, String, List, [], ◌∷◌, Bool, true, false, ◌&&◌, ◌||◌, not, Option, none,
  some, is_some, is_yes, ltb, ◌==◌, if◌then◌else◌, contains, text_discrete, max,
}
use zamboni.Health.{Watermark, maintained, written_since}
use zamboni.Scheduler.Reasons.{
  Operation, compact, expire, remove_orphans, remove_dangling_deletes, rewrite_manifests,
  apply_properties, Operation-discrete,
}

-- `operation in operations`
abbrev pub among : Operation → List Operation → Bool
among o os = contains Operation-discrete os o

abbrev pub same_operation : Operation → Operation → Bool
same_operation o p = is_yes (Operation-discrete o p)

-- The switches of a table's retention.
pub record Retention : Type 0 where
  pub expire_snapshots : Bool
  pub remove_orphan_files : Bool
  pub dangling_deletes : Bool
  pub manifests : Bool

-- `_ENABLED_BY`, with the switch read.
unfoldable pub enabled : Retention → Operation → Bool
enabled r compact = true
enabled r expire = r.expire_snapshots
enabled r remove_orphans = r.remove_orphan_files
enabled r remove_dangling_deletes = r.dangling_deletes
enabled r rewrite_manifests = r.manifests
enabled r apply_properties = true

-- A result object: compaction's, with how many groups were rewritten and evolved, and another's.
pub data Result : Type 0 where
  compaction : (groups evolved : ℕ) (unfinished : Option String) → Result
  other : Result

-- What is raised within an operation, by how `_run` answers it.
pub data Failure : Type 0 where
  unsupported blocked conflict aborted misconfigured : String → Failure

pub data Executed : Type 0 where
  produced : Result → Executed
  raised : Failure → Executed

-- What `should_stop` answers.
pub data Ask : Type 0 where
  goes_on asks_to_stop fails : Ask

-- The texts of an outcome, as the data that they are made of.
pub data Detail : Type 0 where
  disabled : Operation → Detail
  not_due : Detail
  nothing_to_do : Detail
  already_done : Operation → Detail
  skipped_unsupported was_blocked was_conflict was_aborted was_misconfigured : String → Detail
  described : Result → Detail
  stopping_this_table : Operation → Detail

pub record Outcome : Type 0 where
  pub table : String
  pub operation : Operation
  pub exit_code : ℕ
  pub detail : Detail
  pub result : Option Result

abbrev pub bare : String → Operation → ℕ → Detail → Outcome
bare t o code d = record { table = t; operation = o; exit_code = code; detail = d; result = none }

-- What compaction left, for the stamps of the run: its own text, or the outcome that did not finish.
pub data Unfinished : Type 0 where
  left : String → Unfinished
  did_not_finish : ℕ → Detail → Unfinished

-- A maintainer, and what the caller passes: `should_stop`, and an observer, which raises where it answers `true`. `executed`
-- is checking that the operation is supported and configured, and then executing it, in the order of
-- `_run`, with the answers of `should_stop` asked for meanwhile.
pub record Engine (W : Type 0) : Type 0 where
  pub fulfilled_by : Operation → Option Operation
  pub executed : W → String → Operation → Option Unfinished → W × List Ask × Executed
  pub should_stop : W → Ask
  pub observed : W → Outcome → W × Bool

-- `WRITE_DRIVEN`
abbrev pub write_driven : List Operation
write_driven = compact ∷ rewrite_manifests ∷ remove_dangling_deletes ∷ []

-- `_AFTER_COMPACTION`
abbrev pub after_compaction : List Operation
after_compaction = remove_dangling_deletes ∷ rewrite_manifests ∷ []

-- `MinimumInterval`, in microseconds.
pub record MinimumInterval : Type 0 where
  pub interval : ℕ
  pub due_anyway : List Operation

-- `_maintained_within` at `now`, in microseconds: whether it gives a reason.
unfoldable pub maintained_within : Option Watermark → Option MinimumInterval → ℕ → Bool
maintained_within none min_interval now = false
maintained_within (some mark) none now = false
maintained_within (some mark) (some least) now = elim mark.timestamp_ms [
  | none ↦ false
  | some ms ↦ ltb now (ms * 1000 + least.interval)
]

-- `if text` of a text that may be missing.
abbrev pub truthy : Option String → Bool
truthy none = false
truthy (some s) = not (is_yes (text_discrete s ""))

-- `_unchanged_since_maintenance`: the operations that have nothing to do.
unfoldable pub unchanged_since : Option Watermark → List Operation
unchanged_since none = []
unchanged_since (some mark) =
    if written_since mark || not (maintained mark)
    then []
    else if truthy mark.incomplete
    then after_compaction
    else write_driven

-- The `except` clauses of `_run`.
unfoldable pub failed : String → Operation → Failure → Outcome
failed t o (unsupported s) = bare t o 0 (skipped_unsupported s)
failed t o (blocked s) = bare t o 3 (was_blocked s)
failed t o (conflict s) = bare t o 3 (was_conflict s)
failed t o (aborted s) = bare t o 4 (was_aborted s)
failed t o (misconfigured s) = bare t o 2 (was_misconfigured s)

unfoldable pub outcome_of : String → Operation → Executed → Outcome
outcome_of t o (produced r) = record {
  table = t;
  operation = o;
  exit_code = 0;
  detail = described r;
  result = some r;
}
outcome_of t o (raised f) = failed t o f

-- `support.fulfilled_by and support.fulfilled_by in done`
abbrev pub fulfilled : Option Operation → List Operation → Option Operation
fulfilled none done = none
fulfilled (some by) done = if among by done then some by else none

-- What `_run` answers without executing anything; `none` where it goes on to execute.
unfoldable pub skip_of :
    Retention
    → String
    → Operation
    → (held : Bool) (unchanged : Bool) → Option Operation
    → Option Outcome
skip_of r t o held unchanged by =
    if not (enabled r o)
    then some (bare t o 0 (disabled o))
    else if held
    then some (bare t o 0 not_due)
    else if unchanged && among o write_driven
    then some (bare t o 0 nothing_to_do)
    else elim by [ some p ↦ some (bare t o 0 (already_done p)) | none ↦ none ]

-- `_work_state`
pub data WorkState : Type 0 where
  skipped maintained_work failed_work : WorkState

unfoldable pub work_state : Outcome → WorkState
work_state o = elim o.exit_code [
  | suc n ↦ failed_work
  | zero ↦ elim o.result [ some r ↦ maintained_work | none ↦ skipped ]
]

-- `_compaction_wrote`
unfoldable pub compaction_wrote : Outcome → Bool
compaction_wrote o = elim o.result [
  | none ↦ false
  | some r ↦ elim r [
    | compaction groups evolved unfinished ↦ ltb 0 groups || ltb 0 evolved
    | other ↦ true
  ]
]

-- `MaintenanceReport.exit_code`
unfoldable pub exit_code : List Outcome → ℕ
exit_code [] = 0
exit_code (o ∷ os) = max o.exit_code (exit_code os)

-- `_compaction_unfinished`
unfoldable pub compaction_unfinished : Outcome → Option Unfinished
compaction_unfinished o = elim o.result [
  | some r ↦ elim r [
    | compaction groups evolved unfinished ↦ elim unfinished [
      | some s ↦ some (left s)
      | none ↦ none
    ]
    | other ↦ none
  ]
  | none ↦ if o.exit_code == 0 then none else some (did_not_finish o.exit_code o.detail)
]
