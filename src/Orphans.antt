-- ===== src/Orphans.antt =====
-- src/zamboni/orphans.py: OrphanCleaner, with the reachable set of src/zamboni/reachable.py. What is read of the
-- table and the store is the record `Seen`: its listing is made before its reachable set is computed. Paths are in
-- canonical form; instants are microseconds.
pub mod Removals
pub mod Accounts
use zamboni.Base.{
  ℕ, suc, ◌+◌, ◌*◌, String, List, [], ◌∷◌, ◌++◌, Bool, true, false, ◌&&◌, ◌||◌, not, Option, none,
  some, ltb, is_yes, if◌then◌else◌, contains, text_discrete, length, sum_of,
}
use zamboni.Base.Dict.{Dict, keys}

pub record StorageFile : Type 0 where
  pub location : String
  pub size : ℕ
  pub modified : ℕ

-- `ReachableSet`, by category.
pub record Reachable : Type 0 where
  pub data_files : List String
  pub manifests : List String
  pub manifest_lists : List String
  pub metadata : List String
  pub statistics : List String
  pub partition_statistics : List String

-- `ReachableSet.paths`
unfoldable pub paths : Reachable → List String
paths r =
    r.data_files ++ r.manifests ++ r.manifest_lists ++ r.metadata ++ r.statistics
    ++ r.partition_statistics

pub record Seen : Type 0 where
  pub sharing : List String
  pub storage : Dict String StorageFile
  pub reachable : Reachable
  pub current_metadata : String
  pub has_snapshots : Bool

pub record OrphanCleaner : Type 0 where
  pub older_than_days : ℕ
  pub dry_run : Bool

-- Why `OrphanCleanupAborted` is raised.
pub data Aborted : Type 0 where
  shared_location : List String → Aborted
  missing_from_listing : String → Aborted
  no_reachable_data no_reachable_manifest no_reachable_manifest_list no_reachable_metadata : Aborted

-- `OrphanResult`, less the inputs that it repeats, and with the entries that were deleted.
pub record OrphanResult : Type 0 where
  pub scanned : ℕ
  pub orphans : ℕ
  pub orphan_bytes : ℕ
  pub too_young : ℕ
  pub too_young_bytes : ℕ
  pub deleted : ℕ
  pub deleted_bytes : ℕ
  pub failed : ℕ
  pub removed : List (String × StorageFile)

pub data Run : Type 0 where
  aborted : Aborted → Run
  done : OrphanResult → Run

abbrev pub has_path : List String → String → Bool
has_path ps p = contains text_discrete ps p

-- A path of the first list that the second lacks.
unfoldable pub first_missing : List String → List String → Option String
first_missing [] listed = none
first_missing (p ∷ ps) listed = if has_path listed p then first_missing ps listed else some p

abbrev empty_list : List String → Bool
empty_list [] = true
empty_list (p ∷ ps) = false

-- `_check_invariants`
unfoldable pub check_invariants : Seen → Option Aborted
check_invariants s = elim (first_missing (paths s.reachable) (keys s.storage)) [
  | some p ↦ some (missing_from_listing p)
  | none ↦
      if s.has_snapshots && empty_list s.reachable.data_files
      then some no_reachable_data
      else if s.has_snapshots && empty_list s.reachable.manifests
      then some no_reachable_manifest
      else if s.has_snapshots && empty_list s.reachable.manifest_lists
      then some no_reachable_manifest_list
      else if empty_list s.reachable.metadata
      then some no_reachable_metadata
      else none
]

-- A day, in microseconds.
abbrev pub day : ℕ
day = 24 * 3600 * 1000000

-- Whether a listed path is an orphan.
unfoldable pub is_orphan : Seen → String → Bool
is_orphan s key =
    not (has_path (paths s.reachable) key) && not (is_yes (text_discrete key s.current_metadata))

-- `entry.modified > cutoff`
unfoldable pub is_young : OrphanCleaner → ℕ → StorageFile → Bool
is_young c now entry = ltb now (entry.modified + c.older_than_days * day)

-- The orphans of the listing, and of those the old ones, `candidates`.
unfoldable pub orphans_of : Seen → Dict String StorageFile → List (String × StorageFile)
orphans_of s [] = []
orphans_of s ((key, entry) ∷ storage) =
    if is_orphan s key then (key, entry) ∷ orphans_of s storage else orphans_of s storage

unfoldable pub young_of :
    OrphanCleaner → ℕ → List (String × StorageFile) → List (String × StorageFile)
young_of c now [] = []
young_of c now (e ∷ es) = if is_young c now e.1 then e ∷ young_of c now es else young_of c now es

unfoldable pub candidates_of :
    OrphanCleaner → ℕ → List (String × StorageFile) → List (String × StorageFile)
candidates_of c now [] = []
candidates_of c now (e ∷ es) =
    if is_young c now e.1 then candidates_of c now es else e ∷ candidates_of c now es

-- The entries whose deletion succeeds.
unfoldable pub deleted_of :
    (String → Bool) → List (String × StorageFile) → List (String × StorageFile)
deleted_of deletes [] = []
deleted_of deletes (e ∷ es) =
    if deletes e.1.location then e ∷ deleted_of deletes es else deleted_of deletes es

unfoldable pub failed_of : (String → Bool) → List (String × StorageFile) → ℕ
failed_of deletes [] = 0
failed_of deletes (e ∷ es) =
    if deletes e.1.location then failed_of deletes es else suc (failed_of deletes es)

abbrev pub bytes : List (String × StorageFile) → ℕ
bytes es = sum_of (λ e. e.1.size) es

-- What the run reports of the orphans, with the entries that it deleted.
unfoldable pub result_of :
    OrphanCleaner
    → ℕ
    → Dict String StorageFile
    → List (String × StorageFile)
    → (counted removed : List (String × StorageFile)) → ℕ
    → OrphanResult
result_of c now storage orphans counted removed failures = record {
  scanned = length storage;
  orphans = length orphans;
  orphan_bytes = bytes orphans;
  too_young = length (young_of c now orphans);
  too_young_bytes = bytes (young_of c now orphans);
  deleted = length counted;
  deleted_bytes = bytes counted;
  failed = failures;
  removed = removed;
}

-- A dry run (`true`) counts every candidate as deleted, and deletes none.
unfoldable pub counted_by :
    Bool → (String → Bool) → List (String × StorageFile) → List (String × StorageFile)
counted_by true deletes es = es
counted_by false deletes es = deleted_of deletes es

unfoldable pub removed_by :
    Bool → (String → Bool) → List (String × StorageFile) → List (String × StorageFile)
removed_by true deletes es = []
removed_by false deletes es = deleted_of deletes es

unfoldable pub failed_by : Bool → (String → Bool) → List (String × StorageFile) → ℕ
failed_by true deletes es = 0
failed_by false deletes es = failed_of deletes es

-- The loops of `run`, past its checks; `deletes` is whether deleting at a location succeeds.
unfoldable pub clean : OrphanCleaner → (String → Bool) → ℕ → Seen → OrphanResult
clean c deletes now s =
    let orphans = orphans_of s s.storage in
    let candidates = candidates_of c now orphans in
    result_of c now s.storage orphans (counted_by c.dry_run deletes candidates)
      (removed_by c.dry_run deletes candidates) (failed_by c.dry_run deletes candidates)

-- `OrphanCleaner.run`
unfoldable pub run : OrphanCleaner → (String → Bool) → ℕ → Seen → Run
run c deletes now s = elim s.sharing [
  | other ∷ others ↦ aborted (shared_location (other ∷ others))
  | [] ↦ elim (check_invariants s) [ some why ↦ aborted why | none ↦ done (clean c deletes now s) ]
]
