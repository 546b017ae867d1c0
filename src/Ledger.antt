-- ===== src/Ledger.antt =====
-- src/zamboni/runstate.py: the record of each warehouse's sweeps and results. Instants are microseconds.
-- A sweep's set of pending tables is a list that is read through `contains`.
pub mod Sweeps
use zamboni.Base.{
  ℕ, suc, ◌+◌, max, String, List, [], ◌∷◌, ◌++◌, Option, none, some, Bool, true, false, ◌&&◌, not,
  ◌==◌, ltb, length, keep, map, is_some, or_else, contains, text_discrete, is_yes, if◌then◌else◌,
}
use zamboni.Base.Dict.{Dict, get, put, remove, keys}
use zamboni.Fleet.{Warehouse, find, names}
use zamboni.Quarantine.{ItemResult, Failure, failure_of}

pub record SweepSummary : Type 0 where
  pub fired_at : ℕ
  pub finished_at : ℕ
  pub tables : ℕ
  pub failures : ℕ
  pub dropped : ℕ
  pub worst_exit_code : ℕ

pub record PressureSummary : Type 0 where
  pub checked_at : ℕ
  pub tables : ℕ
  pub over : ℕ
  pub offered : ℕ
  pub errors : ℕ

pub record WarehouseState : Type 0 where
  pub last_fired : Option ℕ
  pub last_result : Option ℕ
  pub last_exit_code : Option ℕ
  pub last_sweep : Option SweepSummary
  pub open_sweeps : Option ℕ
  pub pressure : Option PressureSummary

-- `WarehouseState()`
abbrev pub new_state : WarehouseState
new_state = record {
  last_fired = none;
  last_result = none;
  last_exit_code = none;
  last_sweep = none;
  open_sweeps = none;
  pressure = none;
}

-- `_Sweep`
pub record Sweep : Type 0 where
  pub fired_at : ℕ
  pub pending : List String
  pub tables : ℕ
  pub worst_exit_code : ℕ
  pub failures : ℕ
  pub dropped : ℕ

pub record Ledger : Type 0 where
  pub last_error : Option ((String × String) × Failure)
  pub reload_error : Option String
  pub warehouses : Dict String WarehouseState
  pub sweeps : Dict String (List Sweep)

-- `self._warehouses.get(warehouse, WarehouseState())`
abbrev pub state_of : Ledger → String → WarehouseState
state_of l w = or_else (get text_discrete l.warehouses w) new_state

-- `self._sweeps.get(warehouse, [])`
abbrev pub sweeps_of : Ledger → String → List Sweep
sweeps_of l w = or_else (get text_discrete l.sweeps w) []

-- `_update`, with the whole new state.
abbrev pub update : Ledger → String → WarehouseState → Ledger
update l w state = record l { warehouses = put text_discrete l.warehouses w state }

abbrev pub new_sweep : List String → ℕ → Sweep
new_sweep tables at = record {
  fired_at = at;
  pending = tables;
  tables = length tables;
  worst_exit_code = 0;
  failures = 0;
  dropped = 0;
}

unfoldable pub fired : Ledger → String → List String → ℕ → Ledger
fired l w [] at =
    update l w
      (record (state_of l w) { last_fired = some at; open_sweeps = some (length (sweeps_of l w)) })
fired l w (t ∷ ts) at =
    let sweeps = sweeps_of l w ++ new_sweep (t ∷ ts) at ∷ [] in
    update (record l { sweeps = put text_discrete l.sweeps w sweeps }) w
      (record (state_of l w) { last_fired = some at; open_sweeps = some (length sweeps) })

-- `not sweep.pending`
abbrev pub is_done : Sweep → Bool
is_done s = length s.pending == 0

-- `max(done, key=lambda s: s.fired_at)`, the first of the greatest.
abbrev pub latest_of : Sweep → List Sweep → Sweep
latest_of s [] = s
latest_of s (d ∷ ds) = if ltb s.fired_at d.fired_at then latest_of d ds else latest_of s ds

abbrev pub summary : Sweep → ℕ → SweepSummary
summary s at = record {
  fired_at = s.fired_at;
  finished_at = at;
  tables = s.tables;
  failures = s.failures;
  dropped = s.dropped;
  worst_exit_code = s.worst_exit_code;
}

-- `_close_finished`, by the sweeps that are done.
unfoldable pub closed : Ledger → String → ℕ → List Sweep → Ledger
closed l w at [] = l
closed l w at (d ∷ ds) =
    let left = keep (λ s. not (is_done s)) (sweeps_of l w) in
    update (record l { sweeps = put text_discrete l.sweeps w left }) w
      (record (state_of l w) {
        last_sweep = some (summary (latest_of d ds) at);
        open_sweeps = some (length left);
      })

unfoldable pub close_finished : Ledger → String → ℕ → Ledger
unfolding closed
close_finished l w at = closed l w at (keep is_done (sweeps_of l w))

-- A result, as one sweep takes it.
abbrev pub answered : ItemResult → Sweep → Sweep
answered r s =
    if contains text_discrete s.pending r.item.table
    then record s {
      pending = keep (λ t. not (is_yes (text_discrete t r.item.table))) s.pending;
      worst_exit_code = max s.worst_exit_code r.exit_code;
      failures = (if r.exit_code == 0 then s.failures else s.failures + 1);
      dropped = (if is_some r.dropped then s.dropped + 1 else s.dropped);
    }
    else s

-- The sweeps of one warehouse, changed in place where it has any.
unfoldable pub change_sweeps : Ledger → String → (Sweep → Sweep) → Ledger
change_sweeps l w f = elim (get text_discrete l.sweeps w) [
  | none ↦ l
  | some sweeps ↦ record l { sweeps = put text_discrete l.sweeps w (map f sweeps) }
]

-- `finished` before it closes what is done.
abbrev pub recorded : Ledger → ItemResult → ℕ → Ledger
recorded l r at =
    let w = r.item.warehouse in
    let updated =
      update l w
        (record (state_of l w) { last_result = some at; last_exit_code = some r.exit_code }) in
    record updated {
      last_error =
          (if r.exit_code == 0 then l.last_error else some ((w, r.item.table), failure_of r));
    }

unfoldable pub finished : Ledger → ItemResult → ℕ → Ledger
unfolding close_finished change_sweeps
finished l r at =
    close_finished (change_sweeps (recorded l r at) r.item.warehouse (answered r)) r.item.warehouse
      at

-- `adopted` for one name that has sweeps.
unfoldable pub adopt_one : {S : Type 0} → List (Warehouse S) → ℕ → Ledger → String → Ledger
unfolding find close_finished change_sweeps
adopt_one fleet at l name = elim (find fleet name) [
  | none ↦ record l { sweeps = remove text_discrete l.sweeps name }
  | some w ↦
      close_finished
        (change_sweeps l name (λ s. record s {
          pending = keep (contains text_discrete w.table_config.tables) s.pending;
        }))
        name at
]

abbrev pub adopt_each : {S : Type 0} → List (Warehouse S) → ℕ → Ledger → List String → Ledger
adopt_each fleet at l [] = l
adopt_each fleet at l (name ∷ rest) = adopt_each fleet at (adopt_one fleet at l name) rest

unfoldable pub adopted : {S : Type 0} → Ledger → List (Warehouse S) → ℕ → Ledger
unfolding adopt_one
adopted l fleet at =
    let l' = adopt_each fleet at (record l { reload_error = none }) (keys l.sweeps) in
    record l' { warehouses = keep (λ e. contains text_discrete (names fleet) e.0) l'.warehouses }

-- The ledger, and whether the refusal is news.
unfoldable pub refused : Ledger → String → Ledger × Bool
refused l reason = (
  record l { reload_error = some reason },
  elim l.reload_error [ none ↦ true | some before ↦ not (is_yes (text_discrete reason before)) ],
)

unfoldable pub pressure_checked : Ledger → String → PressureSummary → Ledger
pressure_checked l w found = update l w (record (state_of l w) { pressure = some found })
