-- ===== src/Quarantine.antt =====
-- src/zamboni/quarantine.py: failures in a row for each table, and the backoff of a table that keeps
-- failing. Durations and instants are microseconds, and no duration is negative. A product above what a
-- `timedelta` holds raises `OverflowError`; instants have no greatest.
pub mod Backoff
pub mod Adoption
pub mod Others
pub mod Streak
pub mod History
use Prim.Native.String
use zamboni.Base.{
  ℕ, suc, ◌+◌, ◌-◌, ◌*◌, ◌^◌, String, List, [], ◌∷◌, ◌++◌, Option, none, some, Bool, true, false,
  ◌||◌, min, ltb, leb, ◌==◌, map, text_discrete, contains, if◌then◌else◌, or_else,
}
use zamboni.Base.Dict.{Dict, get, put, remove}
use zamboni.Fleet.{Warehouse}
use zamboni.Scheduler.Reasons.{Reason-discrete, manual}
use zamboni.Scheduler.Candidate.{Candidate, reasons}
use zamboni.Scheduler.WorkItem.{WorkItem}

-- Why a run failed: what its worker said, or its exit code.
pub data Failure : Type 0 where
  died : String → Failure
  exited : ℕ → Failure

-- The part of pool.ItemResult that the runtime's records read.
pub record ItemResult : Type 0 where
  pub item : WorkItem
  pub exit_code : ℕ
  pub death : Option String
  pub dropped : Option String

-- pool.SOUND_EXITS
abbrev pub is_sound : ℕ → Bool
is_sound code = code == 0 || code == 2 || code == 3 || code == 4

pub record QuarantineState : Type 0 where
  pub failures : ℕ
  pub until : ℕ
  pub backoff : ℕ
  pub last_failure : Failure

pub record Quarantine : Type 0 where
  pub threshold : Option ℕ
  pub backoff : ℕ
  pub most : ℕ
  pub failures : Dict String ℕ
  pub quarantined : Dict String QuarantineState

-- `_key`
unfoldable pub table_key : String → String → String
table_key warehouse table = String.◌++◌ (String.◌++◌ warehouse "/") table

abbrev bad_threshold : Option ℕ → Bool
bad_threshold none = false
bad_threshold (some n) = ltb n 1

-- `Quarantine(after=..., backoff=..., most=...)`; `none` is the `ValueError`.
unfoldable pub make_quarantine : Option ℕ → ℕ → ℕ → Option Quarantine
make_quarantine after backoff most =
    if bad_threshold after
    then none
    else if leb backoff 0 || ltb most backoff
    then none
    else some (record {
      threshold = after;
      backoff = backoff;
      most = most;
      failures = [];
      quarantined = [];
    })

unfoldable pub admits : Quarantine → Candidate → ℕ → Bool
unfolding table_key
admits q c now =
    if contains Reason-discrete (reasons c) manual
    then true
    else elim (get text_discrete q.quarantined (table_key c.warehouse c.table)) [
      | none ↦ true
      | some held ↦ leb held.until now
    ]

pub data Change : Type 0 where
  unchanged released : Change
  quarantined : QuarantineState → Change
  -- The `OverflowError` of the backoff's product, which `finished` does not catch.
  overflowed : Change

-- `result.died or f"exit {result.exit_code}"`
abbrev pub failure_of : ItemResult → Failure
failure_of r = elim r.death [
  | none ↦ exited r.exit_code
  | some text ↦ elim (text_discrete text "") [ yes _ ↦ exited r.exit_code | no _ ↦ died text ]
]

-- `timedelta.max`
abbrev pub longest : ℕ
longest = 86399999999999999999

-- The backoff after this many failures in a row; `none` is the `OverflowError`.
unfoldable pub backoff_after : ℕ → ℕ → ℕ → ℕ → Option ℕ
backoff_after backoff most after failures =
    if ltb longest (backoff * 2 ^ (failures - after))
    then none
    else some (min (backoff * 2 ^ (failures - after)) most)

abbrev pub state_after : ItemResult → (now failures backoff : ℕ) → QuarantineState
state_after r now failures backoff = record {
  failures = failures;
  until = now + backoff;
  backoff = backoff;
  last_failure = failure_of r;
}

-- A run that failed. Where the product raises, the failure is counted and nothing else is done.
unfoldable pub failed : Quarantine → String → ItemResult → ℕ → Quarantine × Change
failed q key r now =
    let failures = or_else (get text_discrete q.failures key) 0 + 1 in
    let counted : Quarantine = record q { failures = put text_discrete q.failures key failures } in
    elim q.threshold [
      | none ↦ (counted, unchanged)
      | some after ↦
          if ltb failures after
          then (counted, unchanged)
          else elim (backoff_after q.backoff q.most after failures) [
            | none ↦ (counted, overflowed)
            | some backoff ↦ (
              record counted {
                quarantined =
                    put text_discrete q.quarantined key (state_after r now failures backoff);
              },
              quarantined (state_after r now failures backoff),
            )
          ]
    ]

-- A run that ended soundly.
unfoldable pub cleared : Quarantine → String → Quarantine × Change
cleared q key = (
  record q {
    failures = remove text_discrete q.failures key;
    quarantined = remove text_discrete q.quarantined key;
  },
  elim (get text_discrete q.quarantined key) [ none ↦ unchanged | some _ ↦ released ],
)

unfoldable pub finished : Quarantine → ItemResult → ℕ → Quarantine × Change
unfolding failed cleared table_key
finished q r now = elim r.dropped [
  | some _ ↦ (q, unchanged)
  | none ↦
      if is_sound r.exit_code
      then cleared q (table_key r.item.warehouse r.item.table)
      else failed q (table_key r.item.warehouse r.item.table) r now
]

-- The keys of every table that the fleet declares.
unfoldable pub known_tables : {S : Type 0} → List (Warehouse S) → List String
known_tables [] = []
known_tables (w ∷ ws) = map (table_key w.name) w.table_config.tables ++ known_tables ws

-- The entries under a known key.
module _ {V : Type 0} where
  unfoldable pub only_known : List String → Dict String V → Dict String V
  only_known known [] = []
  only_known known ((k, v) ∷ d) =
      if contains text_discrete known k then (k, v) ∷ only_known known d else only_known known d

unfoldable pub adopted : {S : Type 0} → Quarantine → List (Warehouse S) → Quarantine
unfolding only_known known_tables
adopted q fleet = record q {
  failures = only_known (known_tables fleet) q.failures;
  quarantined = only_known (known_tables fleet) q.quarantined;
}
