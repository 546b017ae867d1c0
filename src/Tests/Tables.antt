-- ===== src/Tests/Tables.antt =====
-- Tests of src/zamboni/expire.py and planner.py.
use zamboni.Base.{
  ℕ, ◌≡◌, ◌⊎◌, refl, List, [], ◌∷◌, Option, none, some, String, ◌==◌, if◌then◌else◌, true, false,
  arith, text_discrete, ℕ_discrete, contains, All,
}
use zamboni.Base.Dict.{get, put}
use zamboni.Expire.{
  Snapshot, SnapshotRef, branch, TableMetadata, RetentionPolicy, by_id, decide_retention,
}
use zamboni.Expire.Keeps.{KeptBy}
use zamboni.Expire.Safety.{main-kept, surviving-kept, unreferenced-expired}
use zamboni.Planner.{CompactionConfig, LiveFile, Metadata, Now, day, plan}
use zamboni.Changed
use zamboni.Changed.{Watermark, Manifest, manifests, changed_partitions, covers}
use zamboni.Changed.Widening.{written-covered}
use zamboni.Planner.Groups.{Chosen, plan-Chosen}

abbrev old : Snapshot
old = record { snapshot_id = 1; timestamp_ms = 10 }

abbrev new : Snapshot
new = record { snapshot_id = 2; timestamp_ms = 90 }

abbrev main_ref : SnapshotRef
main_ref = record {
  snapshot_id = 2;
  snapshot_ref_type = branch;
  max_ref_age_ms = none;
  max_snapshot_age_ms = none;
  min_snapshots_to_keep = none;
}

abbrev metadata : TableMetadata
metadata = record { snapshots = old ∷ new ∷ []; refs = ("main", main_ref) ∷ [] }

abbrev policy : RetentionPolicy
policy = record { max_snapshot_age_ms = 50; min_snapshots_to_keep = 1; max_ref_age_ms = none }

-- The walk of a table with two snapshots.
abbrev line_of : Snapshot → List Snapshot
line_of s = new ∷ old ∷ []

main-kept_example :
    (contains text_discrete (decide_retention metadata policy 100 line_of).stale_refs "main"
      ≡ false)
    × (contains ℕ_discrete (decide_retention metadata policy 100 line_of).expire 2 ≡ false)
unfolding by_id get put text_discrete ℕ_discrete
main-kept_example = main-kept metadata policy 100 line_of main_ref new refl refl

surviving-kept_example :
    (contains ℕ_discrete (decide_retention metadata policy 100 line_of).expire 2 ≡ false)
    × All
        (λ a.
          contains ℕ_discrete (decide_retention metadata policy 100 line_of).expire a.snapshot_id
          ≡ false)
        (new ∷ [])
unfolding decide_retention by_id get put text_discrete ℕ_discrete
surviving-kept_example =
    surviving-kept metadata policy 100 line_of "main" main_ref new (new ∷ []) (old ∷ []) refl refl
      refl refl refl (refl, tt)

unreferenced-expired_example :
    (contains ℕ_discrete (decide_retention metadata policy 100 line_of).expire 1 ≡ true)
    ⊎ KeptBy metadata policy 100 line_of
        (decide_retention metadata policy 100 line_of).stale_refs
        metadata.refs
        1
unfolding by_id put ℕ_discrete
unreferenced-expired_example = unreferenced-expired metadata policy 100 line_of 1 refl

abbrev compaction : CompactionConfig
compaction = record {
  rewrite_all = false;
  min_input_files = 2;
  skip_partitions_newer_than_windows = some 1;
  only_changed_partitions = false;
}

abbrev today : Now
today = record { hours = 480; days = 20; year = 1970; month = 1 }

-- A table with one partition a day, and two small files in the partition of day 3.
abbrev daily : Metadata ℕ
daily = record {
  specs = λ id. some (some day ∷ []);
  values = λ p. some p ∷ [];
  text = λ k. "";
  known = false;
  covers = λ k. true;
}

abbrev live_files : List (LiveFile ℕ)
live_files =
    record { path = "b"; size_bytes = 10; spec_id = 0; partition = 3 }
    ∷ record { path = "a"; size_bytes = 20; spec_id = 0; partition = 3 }
    ∷ []

key_dec : Discrete (ℕ × ℕ)
key_dec = hlevel ℕ_discrete

plan-Chosen_example :
    All
      (Chosen key_dec compaction 100 daily today live_files)
      (plan key_dec compaction 100 daily today (some 7) live_files).groups
plan-Chosen_example =
    plan-Chosen key_dec compaction 100 daily today live_files (omega arith) (some 7)

-- After the watermark, a snapshot that recorded the partition it wrote, and one that did not.
abbrev written : Changed.Snapshot
written = record { snapshot_id = 8; counted = true; included = true; paths = "day=3" ∷ [] }

abbrev unrecorded : Changed.Snapshot
unrecorded = record { snapshot_id = 9; counted = true; included = false; paths = [] }

abbrev marked : Changed.Snapshot
marked = record { snapshot_id = 7; counted = false; included = false; paths = [] }

abbrev mark : Watermark
mark = record { maintained = true; snapshot_id = some 7; incomplete = none }

abbrev by_day : String → String → String
by_day spec value = value

abbrev only_spec : ℕ → Option String
only_spec id = some "day"

abbrev added_in : ℕ → String → Manifest String
added_in id value = record {
  added_snapshot_id = some id;
  entries = record { is_data = true; spec_id = 0; partition = value } ∷ [];
}

-- Each snapshot lists the manifests of those before it too.
abbrev listed : Changed.Snapshot → Option (List (Manifest String))
listed s =
    if s.snapshot_id == 8
    then some (added_in 8 "day=3" ∷ added_in 1 "day=1" ∷ [])
    else some (added_in 9 "day=4" ∷ added_in 8 "day=3" ∷ added_in 1 "day=1" ∷ [])

manifests_are_read :
    changed_partitions only_spec by_day listed true (some mark) (marked ∷ written ∷ unrecorded ∷ [])
    ≡ record { paths = some ("day=3" ∷ "day=4" ∷ "day=3" ∷ []); source = manifests }
unfolding changed_partitions Changed.snapshots_since_watermark Changed.after_id Changed.changes_in
    Changed.from_summaries Changed.from_manifests Changed.snapshot_paths Changed.manifest_paths
    Changed.entry_paths ℕ_discrete text_discrete
manifests_are_read = refl

written-covered_example :
    covers
      (changed_partitions only_spec by_day listed true
        (some mark)
        (marked ∷ written ∷ unrecorded ∷ []))
      "day=4"
    ≡ true
unfolding Changed.snapshots_since_watermark Changed.after_id ℕ_discrete text_discrete
written-covered_example =
    written-covered only_spec by_day listed true mark (marked ∷ written ∷ unrecorded ∷ [])
      (written ∷ unrecorded ∷ []) "day=4" ((refl, tt), ((refl, tt), tt)) refl refl
