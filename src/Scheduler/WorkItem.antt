-- ===== src/Scheduler/WorkItem.antt =====
-- src/zamboni/scheduler.py: `WorkItem`, and how a candidate is resolved against the fleet.
use zamboni.Base.{
  ℕ, String, List, [], ◌∷◌, Option, none, some, Bool, false, TableKey, text_discrete, contains,
  if◌then◌else◌,
}
use zamboni.Fleet.{Warehouse, TableConfig, ScheduleOps, find}
use zamboni.Scheduler.Reasons.{
  Reason, Reason-discrete, schedule, Operation, Operations, operations_of,
}
use zamboni.Scheduler.Candidate.{Candidate, without}

pub record WorkItem : Type 0 where
  pub warehouse : String
  pub table : String
  pub reason : Reason
  pub table_config : TableConfig
  pub uri : Option String
  pub also : List Reason
  pub not_after : Option ℕ
  pub min_interval : Option ℕ
  pub commit : Bool

abbrev pub key : WorkItem → TableKey
key i = (i.warehouse, i.table)

abbrev pub reasons : WorkItem → List Reason
reasons i = i.reason ∷ i.also

abbrev pub operations : WorkItem → Operations
operations i = operations_of (reasons i)

-- What the others ask for, with nothing asked where there are no others.
anyway : List Reason → Operations
anyway [] = some []
anyway (r ∷ rs) = operations_of (r ∷ rs)

unfoldable pub interval_rule : WorkItem → Option (ℕ × List Operation)
unfolding anyway
interval_rule i = elim i.min_interval [
  | none ↦ none
  | some interval ↦
      if contains Reason-discrete (reasons i) schedule
      then elim (anyway (without schedule (reasons i))) [
        | none ↦ none
        | some others ↦ some (interval, others)
      ]
      else none
]

abbrev pub candidate : WorkItem → Candidate
candidate i = record {
  warehouse = i.warehouse;
  table = i.table;
  reason = i.reason;
  also = i.also;
  not_after = i.not_after;
}

module _ {S : Type 0} (ops : ScheduleOps S) where
  -- `_resolve`: `none` when the fleet no longer declares the warehouse or the table.
  unfoldable pub resolve : Candidate → List (Warehouse S) → Option WorkItem
  resolve c fleet = elim (find fleet c.warehouse) [
    | none ↦ none
    | some w ↦
        if contains text_discrete w.table_config.tables c.table
        then some (record {
          warehouse = w.name;
          table = c.table;
          reason = c.reason;
          table_config = w.table_config;
          uri = w.uri;
          also = c.also;
          not_after = c.not_after;
          min_interval = ops.min_interval w.schedule;
          commit = false;
        })
        else none
  ]
