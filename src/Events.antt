-- ===== src/Events.antt =====
-- src/zamboni/events/__init__.py: which managed table a `write.completed` event is about.
pub mod Feed
use Prim.Native.String
use zamboni.Base.{
  ℕ, String, List, [], ◌∷◌, Option, none, some, Bool, true, false, text_discrete, contains,
}
use zamboni.Fleet.{Warehouse, find}

-- The identifying fields of an event's data; no other is used to decide anything.
pub record WriteCompleted : Type 0 where
  pub warehouse : String
  pub namespace : List String
  pub table : String
  pub snapshot_id : ℕ

-- `".".join((*namespace, table))`
unfoldable pub dotted : List String → String → String
dotted [] table = table
dotted (level ∷ levels) table = String.◌++◌ (String.◌++◌ level ".") (dotted levels table)

-- `WriteCompleted.identifier`
abbrev pub identifier : WriteCompleted → String
identifier e = dotted e.namespace e.table

pub data Unmapped : Type 0 where
  not_in_fleet : String → Unmapped
  not_in_config : String → String → Unmapped

-- `Mapped | Unmapped`
pub data Mapping : Type 0 where
  mapped : String → String → Mapping
  unmapped : Unmapped → Mapping

unfoldable pub map_event : {S : Type 0} → WriteCompleted → List (Warehouse S) → Mapping
unfolding find
map_event e fleet = elim (find fleet e.warehouse) [
  | none ↦ unmapped (not_in_fleet e.warehouse)
  | some w ↦ elim (contains text_discrete w.table_config.tables (identifier e)) [
    | false ↦ unmapped (not_in_config (identifier e) e.warehouse)
    | true ↦ mapped e.warehouse (identifier e)
  ]
]
