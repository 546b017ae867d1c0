-- ===== src/Deletes.antt =====
-- src/zamboni/deletes.py: find_dangling. Manifests are read as their paths with their live entries; `applies` is the
-- table library's index, the delete files that a scan would apply to a data file. A file is known by its path.
pub mod Dangling
use zamboni.Base.{
  ℕ, suc, ◌+◌, String, List, [], ◌∷◌, ◌++◌, Bool, true, false, ◌&&◌, not, Option, none, some,
  or_else, ◌==◌, ltb, if◌then◌else◌, contains, text_discrete, length, keep,
}
use zamboni.Base.Dict.{Dict, get, put}

pub data Content : Type 0 where
  data_content position_deletes equality_deletes : Content

pub record Entry : Type 0 where
  pub content : Content
  pub file : String

pub record Manifest : Type 0 where
  pub manifest_path : String
  pub entries : List Entry

-- `DanglingReport`, less the identifier.
pub record DanglingReport : Type 0 where
  pub delete_files : ℕ
  pub dangling_files : ℕ
  pub removable : List String
  pub manifests_dropped : List String
  pub stuck : List String

-- `entry.data_file.content in DELETE_CONTENT`
abbrev pub is_delete : Content → Bool
is_delete data_content = false
is_delete position_deletes = true
is_delete equality_deletes = true

-- What the first loop gathers: the delete files of each manifest, and the data files.
pub record Gathered : Type 0 where
  pub per_manifest : Dict String (List String)
  pub delete_files : ℕ
  pub data_files : List String

-- A round of the inner loop.
unfoldable pub gather_entry : String → Gathered → Entry → Gathered
gather_entry path g e =
    if is_delete e.content
    then record g {
      per_manifest =
          put text_discrete g.per_manifest path
            (or_else (get text_discrete g.per_manifest path) [] ++ e.file ∷ []);
      delete_files = g.delete_files + 1;
    }
    else record g { data_files = g.data_files ++ e.file ∷ [] }

unfoldable pub gather_entries : String → Gathered → List Entry → Gathered
gather_entries path g [] = g
gather_entries path g (e ∷ es) = gather_entries path (gather_entry path g e) es

unfoldable pub gather : Gathered → List Manifest → Gathered
gather g [] = g
gather g (m ∷ ms) = gather (gather_entries m.manifest_path g m.entries) ms

abbrev pub nothing_gathered : Gathered
nothing_gathered = record { per_manifest = []; delete_files = 0; data_files = [] }

-- `applied`: every delete file that some live data file would pull in.
unfoldable pub applied_to : (String → List String) → List String → List String
applied_to applies [] = []
applied_to applies (f ∷ fs) = applies f ++ applied_to applies fs

unfoldable pub dangling_of : List String → List String → List String
dangling_of applied fs = keep (λ f. not (contains text_discrete applied f)) fs

-- `DeleteManifest.fully_dangling`
unfoldable pub fully_dangling : (live dangling : List String) → Bool
fully_dangling live dangling = ltb 0 (length dangling) && (length dangling == length live)

-- A round of the last loop.
unfoldable pub report_manifest :
    List String → DanglingReport → String × List String → DanglingReport
report_manifest applied r (path, fs) =
    let dangling = dangling_of applied fs in
    let counted = record r { dangling_files = r.dangling_files + length dangling } in
    if fully_dangling fs dangling
    then record counted {
      removable = r.removable ++ dangling;
      manifests_dropped = r.manifests_dropped ++ path ∷ [];
    }
    else record counted { stuck = r.stuck ++ dangling }

unfoldable pub report_all :
    List String → DanglingReport → Dict String (List String) → DanglingReport
report_all applied r [] = r
report_all applied r (m ∷ ms) = report_all applied (report_manifest applied r m) ms

abbrev pub empty_report : ℕ → DanglingReport
empty_report n = record {
  delete_files = n;
  dangling_files = 0;
  removable = [];
  manifests_dropped = [];
  stuck = [];
}

-- `find_dangling`, of the manifests of the current snapshot, if there is one.
unfoldable pub find_dangling : (String → List String) → Option (List Manifest) → DanglingReport
find_dangling applies none = empty_report 0
find_dangling applies (some manifests) =
    let g = gather nothing_gathered manifests in
    if g.delete_files == 0
    then empty_report 0
    else report_all (applied_to applies g.data_files) (empty_report g.delete_files) g.per_manifest
