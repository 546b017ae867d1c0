-- ===== src/Deletes/Dangling.antt =====
-- What is reported as removable: delete files that no data file of the snapshot needs.
use mathlib.Core.Bool.{false≢true}
use mathlib.Core.List.{append-nil, append_assoc}
use zamboni.Base.{
  ℕ, ◌+◌, ◌≡◌, refl, sym, ap, subst, ◌∙◌, inl, inr, String, List, [], ◌∷◌, ◌++◌, Bool, true, false,
  some, ◌==◌, if◌then◌else◌, Bool-cases, contains, contains-append, text_discrete, length,
  length-append, All, All-append, arith,
}
use zamboni.Base.Dict.{Dict}
use zamboni.Deletes.{
  Entry, Manifest, DanglingReport, is_delete, Gathered, gather_entry, gather_entries, gather,
  nothing_gathered, applied_to, dangling_of, fully_dangling, report_manifest, report_all,
  empty_report, find_dangling,
}

abbrev has_file : List String → String → Bool
has_file fs f = contains text_discrete fs f

-- The sets of a report: nothing in it that may be removed or is stuck is applied, and it counts both.
record IsSound (applied : List String) (r : DanglingReport) : Type 0 where
  unneeded : All (λ f. has_file applied f ≡ false) r.removable
  counted : r.dangling_files ≡ length r.removable + length r.stuck

dangling_of-All :
    (fs applied : List String) → All (λ f. has_file applied f ≡ false) (dangling_of applied fs)
unfolding dangling_of
dangling_of-All [] applied = tt
dangling_of-All (f ∷ fs) applied = elim (Bool-cases (has_file applied f)) [
  | inl h ↦ rw h (dangling_of-All fs applied)
  | inr h ↦ rw h (h, dangling_of-All fs applied)
]

report_manifest-IsSound :
    (applied : List String) (r : DanglingReport) (path : String) (fs : List String)
    → IsSound applied r
    → IsSound applied (report_manifest applied r (path, fs))
unfolding report_manifest
report_manifest-IsSound applied r path fs h =
    let dangling = dangling_of applied fs in
    elim (Bool-cases (fully_dangling fs dangling)) [
      | inl e ↦
          rw (e, report_manifest)
            record {
              unneeded =
                  All-append (λ f. has_file applied f ≡ false) r.removable dangling h.unneeded
                    (dangling_of-All fs applied);
              counted = omega (arith, h.counted, length-append r.removable dangling);
            }
      | inr e ↦
          rw (e, report_manifest)
            record {
              unneeded = h.unneeded;
              counted = omega (arith, h.counted, length-append r.stuck dangling);
            }
    ]

report_all-IsSound :
    (ms : Dict String (List String)) (applied : List String) (r : DanglingReport)
    → IsSound applied r
    → IsSound applied (report_all applied r ms)
unfolding report_all
report_all-IsSound [] applied r h = h
report_all-IsSound ((path, fs) ∷ ms) applied r h =
    report_all-IsSound ms applied (report_manifest applied r (path, fs))
      (report_manifest-IsSound applied r path fs h)

-- A delete file that applies to one of the data files is among those applied.
applied_to-contains :
    (fs : List String) (applies : String → List String) (read delete : String)
    → has_file fs read ≡ true
    → has_file (applies read) delete ≡ true
    → has_file (applied_to applies fs) delete ≡ true
unfolding applied_to
applied_to-contains [] applies read delete h a = elim (false≢true h) [ ]
applied_to-contains (f ∷ fs) applies read delete h a =
    contains-append text_discrete (applies f) (applied_to applies fs) delete
    ∙ elim (text_discrete f read) [
      | yes p ↦ ground (arith, ap (λ x. has_file (applies x) delete) p, a)
      | no n ↦ ground (arith, applied_to-contains fs applies read delete (ground (arith, h)) a)
    ]

-- The data files that manifests list.
abbrev pub data_files_in : List Entry → List String
data_files_in [] = []
data_files_in (e ∷ es) = if is_delete e.content then data_files_in es else e.file ∷ data_files_in es

abbrev pub live_data : List Manifest → List String
live_data [] = []
live_data (m ∷ ms) = data_files_in m.entries ++ live_data ms

gather_entries-data_files :
    (es : List Entry) (path : String) (g : Gathered)
    → (gather_entries path g es).data_files ≡ g.data_files ++ data_files_in es
unfolding gather_entries gather_entry
gather_entries-data_files [] path g = sym (append-nil g.data_files)
gather_entries-data_files (e ∷ es) path g = elim (Bool-cases (is_delete e.content)) [
  | inl d ↦ gather_entries-data_files es path (gather_entry path g e) ∙ rw (d, gather_entry) refl
  | inr d ↦
      gather_entries-data_files es path (gather_entry path g e)
      ∙ rw (d, gather_entry) (append_assoc g.data_files (e.file ∷ []) (data_files_in es))
]

gather-data_files :
    (ms : List Manifest) (g : Gathered) → (gather g ms).data_files ≡ g.data_files ++ live_data ms
unfolding gather
gather-data_files [] g = sym (append-nil g.data_files)
gather-data_files (m ∷ ms) g =
    gather-data_files ms (gather_entries m.manifest_path g m.entries)
    ∙ ap (λ l. l ++ live_data ms) (gather_entries-data_files m.entries m.manifest_path g)
    ∙ append_assoc g.data_files (data_files_in m.entries) (live_data ms)

unneeded-lacks :
    (fs applied : List String) (f : String)
    → All (λ g. has_file applied g ≡ false) fs
    → has_file applied f ≡ true
    → has_file fs f ≡ false
unneeded-lacks [] applied f h a = refl
unneeded-lacks (g ∷ fs) applied f h a = elim (text_discrete g f) [
  | yes p ↦ elim (false≢true (sym h.0 ∙ ap (has_file applied) p ∙ a)) [ ]
  | no n ↦ ground (arith, unneeded-lacks fs applied f h.1 a)
]

empty-IsSound : (applied : List String) (n : ℕ) → IsSound applied (empty_report n)
empty-IsSound applied n = record { unneeded = tt; counted = refl }

find_dangling-IsSound :
    (applies : String → List String) (manifests : List Manifest)
    → IsSound (applied_to applies (live_data manifests)) (find_dangling applies (some manifests))
unfolding find_dangling
find_dangling-IsSound applies manifests =
    let g = gather nothing_gathered manifests in
    elim (Bool-cases (g.delete_files == 0)) [
      | inl e ↦ rw (e, find_dangling) (empty-IsSound (applied_to applies (live_data manifests)) 0)
      | inr e ↦
          rw (e, find_dangling)
            (subst
              (λ ds.
                IsSound (applied_to applies (live_data manifests))
                  (report_all (applied_to applies ds) (empty_report g.delete_files) g.per_manifest))
              (sym (gather-data_files manifests nothing_gathered))
              (report_all-IsSound g.per_manifest (applied_to applies (live_data manifests))
                (empty_report g.delete_files)
                (empty-IsSound (applied_to applies (live_data manifests)) g.delete_files)))
    ]

-- A delete file that the index applies to a data file which the manifests list is not among the
-- removable ones of the report.
pub removable-unneeded :
    (applies : String → List String) (manifests : List Manifest) (read delete : String)
    → has_file (live_data manifests) read ≡ true
    → has_file (applies read) delete ≡ true
    → has_file (find_dangling applies (some manifests)).removable delete ≡ false
removable-unneeded applies manifests read delete live a =
    unneeded-lacks (find_dangling applies (some manifests)).removable
      (applied_to applies (live_data manifests)) delete
      (find_dangling-IsSound applies manifests).unneeded
      (applied_to-contains (live_data manifests) applies read delete live a)

-- Every dangling file is either removable or stuck.
find_dangling-counts :
    (applies : String → List String) (manifests : List Manifest)
    → (find_dangling applies (some manifests)).dangling_files
      ≡ length (find_dangling applies (some manifests)).removable
        + length (find_dangling applies (some manifests)).stuck
find_dangling-counts applies manifests = (find_dangling-IsSound applies manifests).counted
