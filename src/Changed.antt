-- ===== src/Changed.antt =====
-- src/zamboni/changed.py: which partitions were written to since maintenance last ran. The snapshots come in
-- commit order. The table library is an argument: its specs, the path of a partition, and the manifests of a
-- snapshot (`none` where reading them raises). What raised while the watermark was read is `none`.
pub mod Manifests
pub mod Widening
use zamboni.Base.{
  ℕ, String, List, [], ◌∷◌, ◌++◌, Option, none, some, Bool, true, false, not, ◌||◌, ite,
  text_discrete, ℕ_discrete, contains, if◌then◌else◌,
}

-- What a snapshot's summary says of its partitions.
pub record Snapshot : Type 0 where
  pub snapshot_id : ℕ
  -- `changed-partition-count` is there.
  pub counted : Bool
  -- `partition-summaries-included` is "true".
  pub included : Bool
  -- The keys that start with the partition prefix, without it.
  pub paths : List String

-- `maintenance_watermark`'s answer.
pub record Watermark : Type 0 where
  pub maintained : Bool
  pub snapshot_id : Option ℕ
  pub incomplete : Option String

pub data Source : Type 0 where
  unknown unpartitioned never_maintained summary manifests : Source
  left_work : String → Source

-- `ChangedPartitions`, without the number of snapshots, which is only reported. `paths` of `none` is "not known": every partition is covered.
pub record ChangedPartitions : Type 0 where
  pub paths : Option (List String)
  pub source : Source

abbrev pub unknown_changes : Source → ChangedPartitions
unknown_changes why = record { paths = none; source = why }

-- `covers`
abbrev pub covers : ChangedPartitions → String → Bool
covers c path = elim c.paths [ none ↦ true | some paths ↦ contains text_discrete paths path ]

-- A text that is there and not empty.
abbrev pub given : Option String → Option String
given none = none
given (some text) = elim (text_discrete text "") [ yes _ ↦ none | no _ ↦ some text ]

-- The snapshots after the one with this id.
unfoldable pub after_id : ℕ → List Snapshot → Option (List Snapshot)
after_id id [] = none
after_id id (s ∷ ss) = ite (ℕ_discrete s.snapshot_id id) (some ss) (after_id id ss)

-- `_snapshots_since_watermark`
unfoldable pub snapshots_since_watermark : Watermark → List Snapshot → Option (List Snapshot)
unfolding after_id
snapshots_since_watermark mark snapshots =
    if not mark.maintained
    then none
    else elim mark.snapshot_id [ none ↦ none | some id ↦ after_id id snapshots ]

-- `_from_summaries`
unfoldable pub from_summaries : List Snapshot → Option (List String)
from_summaries [] = some []
from_summaries (s ∷ ss) =
    let rest = from_summaries ss in
    if not s.counted
    then rest
    else if not s.included
    then none
    else elim rest [ none ↦ none | some paths ↦ some (s.paths ++ paths) ]

-- A live entry's data file, of content `DATA` or not.
pub record DataFile (P : Type 0) : Type 0 where
  pub is_data : Bool
  pub spec_id : ℕ
  pub partition : P

pub record Manifest (P : Type 0) : Type 0 where
  pub added_snapshot_id : Option ℕ
  pub entries : List (DataFile P)

-- `added_snapshot_id in wanted`
abbrev pub is_wanted : List ℕ → Option ℕ → Bool
is_wanted wanted none = false
is_wanted wanted (some id) = contains ℕ_discrete wanted id

abbrev pub ids : List Snapshot → List ℕ
ids [] = []
ids (s ∷ ss) = s.snapshot_id ∷ ids ss

-- Both, where both are known.
abbrev pub join : Option (List String) → Option (List String) → Option (List String)
join none rest = none
join (some paths) none = none
join (some paths) (some more) = some (paths ++ more)

module _ {P Spec : Type 0} (specs : ℕ → Option Spec) (partition_path : Spec → P → String)
    (manifests_of : Snapshot → Option (List (Manifest P))) where
  -- The loops of `_from_manifests`: over the entries of a manifest, the manifests of a snapshot, and
  -- the snapshots.
  unfoldable pub entry_paths : List (DataFile P) → Option (List String)
  entry_paths [] = some []
  entry_paths (f ∷ fs) =
      let rest = entry_paths fs in
      if not f.is_data then rest else elim (specs f.spec_id) [
        | none ↦ none
        | some spec ↦ join (some (partition_path spec f.partition ∷ [])) rest
      ]

  unfoldable pub manifest_paths : List ℕ → List (Manifest P) → Option (List String)
  unfolding entry_paths
  manifest_paths wanted [] = some []
  manifest_paths wanted (m ∷ ms) =
      let rest = manifest_paths wanted ms in
      if is_wanted wanted m.added_snapshot_id then join (entry_paths m.entries) rest else rest

  unfoldable pub snapshot_paths : List ℕ → List Snapshot → Option (List String)
  unfolding manifest_paths
  snapshot_paths wanted [] = some []
  snapshot_paths wanted (s ∷ ss) =
      let rest = snapshot_paths wanted ss in
      elim (manifests_of s) [ none ↦ none | some ms ↦ join (manifest_paths wanted ms) rest ]

  -- `_from_manifests`
  unfoldable pub from_manifests : List Snapshot → Option (List String)
  unfolding snapshot_paths
  from_manifests ss = snapshot_paths (ids ss) ss

  -- `changed_partitions`, once the snapshots since the watermark are known.
  unfoldable pub changes_in : List Snapshot → ChangedPartitions
  unfolding from_summaries from_manifests
  changes_in [] = record { paths = some []; source = summary }
  changes_in (s ∷ ss) = elim (from_summaries (s ∷ ss)) [
    | some paths ↦ record { paths = some paths; source = summary }
    | none ↦ elim (from_manifests (s ∷ ss)) [
      | some paths ↦ record { paths = some paths; source = manifests }
      | none ↦ unknown_changes unknown
    ]
  ]

  unfoldable pub changed_partitions : Bool → Option Watermark → List Snapshot → ChangedPartitions
  unfolding snapshots_since_watermark changes_in
  changed_partitions false mark snapshots = unknown_changes unpartitioned
  changed_partitions true none snapshots = unknown_changes unknown
  changed_partitions true (some mark) snapshots = elim (given mark.incomplete) [
    | some why ↦ unknown_changes (left_work why)
    | none ↦ elim (snapshots_since_watermark mark snapshots) [
      | none ↦ unknown_changes never_maintained
      | some since ↦ changes_in since
    ]
  ]
