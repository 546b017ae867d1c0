-- ===== src/Planner.antt =====
-- src/zamboni/planner.py and src/zamboni/windows.py: which files a compaction rewrites together. The
-- partition record, the specs of the table and what changed since the last maintenance are read from the
-- table's metadata, which is a parameter here; partition values before 1970 are not represented.
pub mod Buckets
pub mod Groups
use Prim.Native.String.{compare}
use Prim.Native.Nat.{Ordering}
use zamboni.Base.{
  ℕ, suc, ◌+◌, ◌-◌, ◌*◌, String, List, [], ◌∷◌, ◌++◌, Option, none, some, Bool, true, false, ◌&&◌,
  ◌||◌, not, ltb, leb, ◌==◌, length, keep, if◌then◌else◌, is_some, or_else, text_discrete,
}
use zamboni.Base.Dict.{Dict, get, put}

-- `sorted(xs, key=...)` by a text, stable.
module _ {A : Type 0} (text : A → String) where
  abbrev pub insert_by : A → List A → List A
  insert_by a [] = a ∷ []
  insert_by a (b ∷ bs) = elim (compare (text a) (text b)) [
    | Ordering.gt ↦ b ∷ insert_by a bs
    | _ ↦ a ∷ b ∷ bs
  ]

  abbrev pub sort_by : List A → List A
  sort_by [] = []
  sort_by (a ∷ as_) = insert_by a (sort_by as_)

pub data Granularity : Type 0 where
  hour day month year : Granularity

-- The moment, as `current_index` reads it: whole hours and days since the epoch, the year and the month.
pub record Now : Type 0 where
  pub hours : ℕ
  pub days : ℕ
  pub year : ℕ
  pub month : ℕ

abbrev pub current_index : Granularity → Now → ℕ
current_index hour now = now.hours
current_index day now = now.days
current_index month now = (now.year - 1970) * 12 + (now.month - 1)
current_index year now = now.year - 1970

-- `windows_since_close(granularity, value, now) < floor`, without its subtractions.
abbrev pub closed_less_than : ℕ → Granularity → ℕ → Now → Bool
closed_less_than floor granularity value now =
    ltb (current_index granularity now) (value + 1 + floor)

-- The settings that the planner reads.
pub record CompactionConfig : Type 0 where
  pub rewrite_all : Bool
  pub min_input_files : ℕ
  pub skip_partitions_newer_than_windows : Option ℕ
  pub only_changed_partitions : Bool

pub data Skip : Type 0 where
  unchanged still_open : Skip
  too_few_files : ℕ → Skip
  single_file : Skip

-- `_too_few`, over the number of files.
unfoldable pub too_few : CompactionConfig → ℕ → Option Skip
too_few config n =
    if config.rewrite_all
    then none
    else if ltb n config.min_input_files
    then some (too_few_files n)
    else if n == 1
    then some single_file
    else none

-- The loop of `_still_open` over the spec's fields, `none` for one that is not temporal, and the
-- partition's values, `none` for a null.
unfoldable pub any_open : ℕ → Now → List (Option Granularity) → List (Option ℕ) → Bool
any_open floor now [] values = false
any_open floor now (field ∷ fields) [] = false
any_open floor now (none ∷ fields) (v ∷ values) = any_open floor now fields values
any_open floor now (some g ∷ fields) (none ∷ values) = any_open floor now fields values
any_open floor now (some g ∷ fields) (some v ∷ values) =
    closed_less_than floor g v now || any_open floor now fields values

pub record LiveFile (P : Type 0) : Type 0 where
  pub path : String
  pub size_bytes : ℕ
  pub spec_id : ℕ
  pub partition : P

-- What the plan reads of the table besides its files.
pub record Metadata (P : Type 0) : Type 0 where
  pub specs : ℕ → Option (List (Option Granularity))
  pub values : P → List (Option ℕ)
  pub text : ℕ × P → String
  -- `changed.known`, and `changed.covers` of the partition's path.
  pub known : Bool
  pub covers : ℕ × P → Bool

-- The key is the group's `spec_id` and `partition`; its target size is the plan's.
pub record FileGroup (P : Type 0) : Type 0 where
  pub key : ℕ × P
  pub files : List (LiveFile P)

-- What `plan` fills in: the identifier, the snapshot and the target size are copied from its arguments.
pub record CompactionPlan (P : Type 0) : Type 0 where
  pub groups : List (FileGroup P)
  pub skipped : List ((ℕ × P) × Skip)
  pub held : ℕ

abbrev pub empty_plan : {P : Type 0} → CompactionPlan P
empty_plan = record { groups = []; skipped = []; held = 0 }

module _ {P : Type 0} (dec : Discrete (ℕ × P)) (config : CompactionConfig) (target : ℕ) where
  abbrev pub key_of : LiveFile P → ℕ × P
  key_of f = (f.spec_id, f.partition)

  -- A file that a compaction may rewrite.
  abbrev pub is_candidate : LiveFile P → Bool
  is_candidate f = config.rewrite_all || ltb f.size_bytes target

  -- `buckets.setdefault(key, []).append(live)`
  abbrev pub appended :
      Dict (ℕ × P) (List (LiveFile P)) → LiveFile P → Dict (ℕ × P) (List (LiveFile P))
  appended d f = put dec d (key_of f) (or_else (get dec d (key_of f)) [] ++ f ∷ [])

  unfoldable pub buckets :
      Dict (ℕ × P) (List (LiveFile P)) → List (LiveFile P) → Dict (ℕ × P) (List (LiveFile P))
  buckets d [] = d
  buckets d (f ∷ fs) = if is_candidate f then buckets (appended d f) fs else buckets d fs

  module _ (m : Metadata P) (now : Now) where
    -- `_still_open` under the configured floor.
    unfoldable pub is_held : ℕ × P → Bool
    unfolding any_open
    is_held k = elim config.skip_partitions_newer_than_windows [
      | none ↦ false
      | some floor ↦ elim (m.specs k.0) [
        | none ↦ false
        | some fields ↦ any_open floor now fields (m.values k.1)
      ]
    ]

    abbrev pub is_unchanged : ℕ × P → Bool
    is_unchanged k = config.only_changed_partitions && m.known && not (m.covers k)

    -- One bucket of the loop of `plan`.
    unfoldable pub judged : (ℕ × P) × List (LiveFile P) → CompactionPlan P → CompactionPlan P
    unfolding is_held too_few
    judged (k, files) plan =
        if is_unchanged k
        then record plan { skipped = (k, unchanged) ∷ plan.skipped }
        else if is_held k
        then record plan {
          skipped = (k, still_open) ∷ plan.skipped;
          held = (if is_some (too_few config (length files)) then plan.held else plan.held + 1);
        }
        else elim (too_few config (length files)) [
          | some why ↦ record plan { skipped = (k, why) ∷ plan.skipped }
          | none ↦ record plan {
            groups = record { key = k; files = sort_by (λ f. f.path) files } ∷ plan.groups;
          }
        ]

    -- The loop over the sorted buckets; the rest comes after.
    unfoldable pub judge_all : Dict (ℕ × P) (List (LiveFile P)) → CompactionPlan P
    unfolding judged
    judge_all [] = empty_plan
    judge_all (b ∷ bs) = judged b (judge_all bs)

    -- `plan`, for a table whose profile has this snapshot and these live files.
    unfoldable pub plan : Option ℕ → List (LiveFile P) → CompactionPlan P
    unfolding judge_all buckets
    plan none files = empty_plan
    plan (some snapshot) files = judge_all (sort_by (λ b. m.text b.0) (buckets [] files))

-- `TARGET_FILE_SIZE_PROPERTIES`
abbrev pub target_file_size_properties : List String
target_file_size_properties =
    "write.parquet.target-file-size-bytes" ∷ "write.target-file-size-bytes" ∷ []

abbrev pub default_target_file_size_bytes : ℕ
default_target_file_size_bytes = 134217728

abbrev pub min_target_file_size_bytes : ℕ
min_target_file_size_bytes = 100

-- `resolve_target_file_size`; `none` is the `ValueError`, and `int_of` Python's `int` on a text.
module _ (int_of : String → Option ℕ) (properties : Dict String String) where
  unfoldable pub target_from : List String → Option ℕ
  target_from [] = some default_target_file_size_bytes
  target_from (p ∷ ps) =
      let later = target_from ps in
      elim (get text_discrete properties p) [
        | none ↦ later
        | some raw ↦ elim (int_of raw) [
          | none ↦ none
          | some n ↦ if ltb n min_target_file_size_bytes then none else some n
        ]
      ]

  unfoldable pub resolve_target_file_size : Option ℕ → Option ℕ
  unfolding target_from
  resolve_target_file_size (some n) = some n
  resolve_target_file_size none = target_from target_file_size_properties
