-- ===== src/Tests/Removals.antt =====
-- Tests of src/zamboni/orphans.py and src/zamboni/deletes.py.
use zamboni.Deletes.{
  Manifest, data_content, position_deletes, equality_deletes, gather_entry, gather_entries, gather,
  applied_to, dangling_of, fully_dangling, report_manifest, report_all, find_dangling,
}
use zamboni.Deletes.Dangling.{removable-unneeded}
use zamboni.Base.Dict.{get, put}
use zamboni.Base.{
  List, some, contains, ℕ, ◌+◌, ◌*◌, ◌≡◌, refl, String, [], ◌∷◌, true, false, All, text_discrete,
}
use zamboni.Orphans.{
  StorageFile, paths, Seen, OrphanCleaner, Aborted, aborted, done, OrphanResult, first_missing,
  check_invariants, is_orphan, is_young, orphans_of, young_of, candidates_of, deleted_of, failed_of,
  counted_by, removed_by, failed_by, result_of, clean, run, day,
}
use zamboni.Orphans.Removals.{Removable, removed-Removable, run-aborts}

abbrev file_at : String → ℕ → StorageFile
file_at location modified = record { location = location; size = 8; modified = modified }

-- A data file, an old orphan and a young one beside the table's metadata.
abbrev seen : Seen
seen = record {
  sharing = [];
  storage =
      ("d1", file_at "s3://d1" 0)
      ∷ ("m1", file_at "s3://m1" 0)
      ∷ ("l1", file_at "s3://l1" 0)
      ∷ ("v1", file_at "s3://v1" 0)
      ∷ ("old", file_at "s3://old" 5)
      ∷ ("young", file_at "s3://young" 90)
      ∷ [];
  reachable = record {
    data_files = "d1" ∷ [];
    manifests = "m1" ∷ [];
    manifest_lists = "l1" ∷ [];
    metadata = "v1" ∷ [];
    statistics = [];
    partition_statistics = [];
  };
  current_metadata = "v1";
  has_snapshots = true;
}

abbrev cleaner : OrphanCleaner
cleaner = record { older_than_days = 3; dry_run = false }

abbrev result : OrphanResult
result = record {
  scanned = 6;
  orphans = 2;
  orphan_bytes = 16;
  too_young = 1;
  too_young_bytes = 8;
  deleted = 1;
  deleted_bytes = 8;
  failed = 0;
  removed = ("old", file_at "s3://old" 5) ∷ [];
}

it_ran : run cleaner (λ location. true) (3 * day + 50) seen ≡ done result
unfolding run check_invariants first_missing paths is_orphan is_young orphans_of young_of
    candidates_of deleted_of failed_of counted_by removed_by failed_by result_of clean text_discrete
it_ran = refl

removed-Removable_example : All (Removable cleaner (3 * day + 50) seen) result.removed
removed-Removable_example =
    removed-Removable cleaner (λ location. true) (3 * day + 50) seen result it_ran

-- A listing without the data file.
abbrev partial : Seen
partial = record seen { storage = ("m1", file_at "s3://m1" 0) ∷ [] }

run-aborts_example : (why : Aborted) × (run cleaner (λ location. true) 500 partial ≡ aborted why)
unfolding paths text_discrete
run-aborts_example = run-aborts cleaner (λ location. true) 500 partial "d1" refl refl

-- A delete manifest whose only file applies, and one whose file applies to nothing.
abbrev manifests : List Manifest
manifests =
    record {
      manifest_path = "m-data";
      entries = record { content = data_content; file = "d1" } ∷ [];
    }
    ∷ record {
      manifest_path = "m-live";
      entries = record { content = position_deletes; file = "p1" } ∷ [];
    }
    ∷ record {
      manifest_path = "m-dangling";
      entries = record { content = equality_deletes; file = "e1" } ∷ [];
    }
    ∷ []

abbrev applies : String → List String
applies file = "p1" ∷ []

one_is_removable : (find_dangling applies (some manifests)).removable ≡ "e1" ∷ []
unfolding find_dangling gather gather_entries gather_entry report_all report_manifest fully_dangling
    dangling_of applied_to get put text_discrete
one_is_removable = refl

removable-unneeded_example :
    contains text_discrete (find_dangling applies (some manifests)).removable "p1" ≡ false
unfolding text_discrete
removable-unneeded_example = removable-unneeded applies manifests "d1" "p1" refl refl
