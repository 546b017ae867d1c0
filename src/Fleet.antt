-- ===== src/Fleet.antt =====
-- src/zamboni/fleet.py: firings, warehouses and the fleet, over an interface of schedules. Instants are
-- microseconds since the epoch, all in UTC.
pub mod Names
pub mod Calendar
pub mod Cron
use zamboni.Base.{
  ℕ, ◌<◌, ◌≡◌, String, ite, List, [], ◌∷◌, Option, none, some, true, false, text_discrete, contains,
}

-- One moment a schedule offers its warehouse's tables.
pub record Firing : Type 0 where
  pub nominal : ℕ
  pub due : ℕ
  pub not_after : Option ℕ

-- What the scheduler asks of a schedule; `CronSchedule` and `WindowSchedule` offer it. A firing of `none`
-- is the `AssertionError` of `CronSchedule.next_after`, which an accepted schedule can raise.
pub record ScheduleOps (S : Type 0) : Type 0 where
  pub first_firing : S → ℕ → String → Option Firing
  pub firing_after : S → ℕ → String → Option Firing
  pub min_interval : S → Option ℕ
  pub same : Discrete S
  pub firing_after_later :
      (s : S) (moment : ℕ) (seed : String) (f : Firing)
      → firing_after s moment seed ≡ some f
      → moment < f.nominal

-- The part of a table config that the runtime reads: the tables it declares.
pub record TableConfig : Type 0 where
  pub tables : List String

-- `FleetWarehouse`, without its pressure settings, which no operation here reads.
pub record Warehouse (S : Type 0) : Type 0 where
  pub name : String
  pub schedule : S
  pub table_config : TableConfig
  pub uri : Option String

pub data FleetError : Type 0 where
  no_warehouses : FleetError
  declared_twice : String → FleetError

pub data Loaded (A : Type 0) : Type 0 where
  ok : A → Loaded A
  refused : FleetError → Loaded A

module _ {S : Type 0} where
  abbrev pub names : List (Warehouse S) → List String
  names [] = []
  names (w ∷ ws) = w.name ∷ names ws

  -- The loop of `FleetConfig.__post_init__` over the names seen so far.
  unfoldable pub first_repeat : List String → List (Warehouse S) → Option String
  first_repeat seen [] = none
  first_repeat seen (w ∷ ws) = elim (contains text_discrete seen w.name) [
    | true ↦ some w.name
    | false ↦ first_repeat (w.name ∷ seen) ws
  ]

  -- `FleetConfig(warehouses)`
  unfoldable pub make_fleet : List (Warehouse S) → Loaded (List (Warehouse S))
  make_fleet [] = refused no_warehouses
  make_fleet (w ∷ ws) = elim (first_repeat [] (w ∷ ws)) [
    | some name ↦ refused (declared_twice name)
    | none ↦ ok (w ∷ ws)
  ]

  -- `fleet[name]`; `none` is the `KeyError`.
  unfoldable pub find : List (Warehouse S) → String → Option (Warehouse S)
  find [] name = none
  find (w ∷ ws) name = ite (text_discrete w.name name) (some w) (find ws name)
