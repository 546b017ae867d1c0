-- ===== src/Expire.antt =====
-- src/zamboni/expire.py: which snapshots and refs a table keeps. Instants and ages are milliseconds, and
-- no age is negative. `ancestors_of` is the table library's walk from a snapshot to its ancestors,
-- the snapshot first; `int_of` is Python's `int` on a text, `none` where it raises `ValueError`.
-- A set is a list that is read through `contains`.
pub mod Keeps
pub mod Safety
use zamboni.Base.{
  ℕ, suc, ◌+◌, ◌*◌, String, List, [], ◌∷◌, ◌++◌, Option, none, some, Bool, true, false, ◌&&◌, not,
  leb, ltb, ◌==◌, is_yes, contains, keep, text_discrete, ℕ_discrete, if◌then◌else◌, ◌>>=◌,
}
use zamboni.Base.Dict.{Dict, get, put, keys}

pub record Snapshot : Type 0 where
  pub snapshot_id : ℕ
  pub timestamp_ms : ℕ

pub data RefType : Type 0 where
  branch tag : RefType

pub record SnapshotRef : Type 0 where
  pub snapshot_id : ℕ
  pub snapshot_ref_type : RefType
  pub max_ref_age_ms : Option ℕ
  pub max_snapshot_age_ms : Option ℕ
  pub min_snapshots_to_keep : Option ℕ

pub record TableMetadata : Type 0 where
  pub snapshots : List Snapshot
  pub refs : Dict String SnapshotRef

pub record RetentionPolicy : Type 0 where
  pub max_snapshot_age_ms : ℕ
  pub min_snapshots_to_keep : ℕ
  pub max_ref_age_ms : Option ℕ

-- The table properties that `resolve` reads, and the spec's defaults.
abbrev pub prop_max_snapshot_age : String
prop_max_snapshot_age = "history.expire.max-snapshot-age-ms"

abbrev pub prop_min_snapshots : String
prop_min_snapshots = "history.expire.min-snapshots-to-keep"

abbrev pub prop_max_ref_age : String
prop_max_ref_age = "history.expire.max-ref-age-ms"

abbrev pub default_max_snapshot_age_ms : ℕ
default_max_snapshot_age_ms = 432000000

abbrev pub default_min_snapshots_to_keep : ℕ
default_min_snapshots_to_keep = 1

-- `_days_to_ms`
abbrev pub days_to_ms : ℕ → ℕ
days_to_ms days = days * 24 * 60 * 60 * 1000

module _ (int_of : String → Option ℕ) where
  -- `prop`; the outer `none` is the `ValueError`.
  unfoldable pub prop : Dict String String → String → ℕ → Option ℕ
  prop properties name default = elim (get text_discrete properties name) [
    | none ↦ some default
    | some raw ↦ int_of raw
  ]

  unfoldable pub optional_prop : Dict String String → String → Option (Option ℕ)
  optional_prop properties name = elim (get text_discrete properties name) [
    | none ↦ some none
    | some raw ↦ elim (int_of raw) [ none ↦ none | some n ↦ some (some n) ]
  ]

  unfoldable pub snapshot_age : Dict String String → Option ℕ → Option ℕ
  unfolding prop
  snapshot_age properties (some days) = some (days_to_ms days)
  snapshot_age properties none = prop properties prop_max_snapshot_age default_max_snapshot_age_ms

  unfoldable pub snapshots_kept : Dict String String → Option ℕ → Option ℕ
  unfolding prop
  snapshots_kept properties (some n) = some n
  snapshots_kept properties none = prop properties prop_min_snapshots default_min_snapshots_to_keep

  unfoldable pub ref_age : Dict String String → Option ℕ → Option (Option ℕ)
  unfolding optional_prop
  ref_age properties (some days) = some (some (days_to_ms days))
  ref_age properties none = optional_prop properties prop_max_ref_age

  -- `RetentionPolicy.resolve(properties, max_snapshot_age_days=..., ...)`
  unfoldable pub resolve :
      Dict String String → Option ℕ → Option ℕ → Option ℕ → Option RetentionPolicy
  unfolding snapshot_age snapshots_kept ref_age
  resolve properties age_days snapshots ref_days = do
    age ← snapshot_age properties age_days
    kept ← snapshots_kept properties snapshots
    of_ref ← ref_age properties ref_days
    some (record {
      max_snapshot_age_ms = age;
      min_snapshots_to_keep = kept;
      max_ref_age_ms = of_ref;
    })

pub record RetentionDecision : Type 0 where
  pub retain : List ℕ
  pub expire : List ℕ
  pub stale_refs : List String

-- `{s.snapshot_id: s for s in metadata.snapshots}`
unfoldable pub index_from : Dict ℕ Snapshot → List Snapshot → Dict ℕ Snapshot
index_from d [] = d
index_from d (s ∷ ss) = index_from (put ℕ_discrete d s.snapshot_id s) ss

unfoldable pub by_id : TableMetadata → Dict ℕ Snapshot
unfolding index_from
by_id m = index_from [] m.snapshots

-- `now_ms - moment > age`
abbrev pub older : ℕ → ℕ → ℕ → Bool
older now_ms moment age = ltb (moment + age) now_ms

-- `x if x is not None else y`
abbrev pub first_given : Option ℕ → Option ℕ → Option ℕ
first_given none y = y
first_given (some x) y = some x

-- `x or y`, where 0 counts as absent.
abbrev pub or_given : Option ℕ → ℕ → ℕ
or_given none y = y
or_given (some x) y = if x == 0 then y else x

abbrev pub main_branch : String
main_branch = "main"

module _ (m : TableMetadata) (policy : RetentionPolicy) (now_ms : ℕ) where
  -- Step 2 for one ref.
  unfoldable pub is_stale : String → SnapshotRef → Bool
  is_stale name ref =
      if is_yes (text_discrete name main_branch)
      then false
      else elim (first_given ref.max_ref_age_ms policy.max_ref_age_ms) [
        | none ↦ false
        | some age ↦ elim (get ℕ_discrete (by_id m) ref.snapshot_id) [
          | none ↦ false
          | some s ↦ older now_ms s.timestamp_ms age
        ]
      ]

  unfoldable pub stale_from : Dict String SnapshotRef → List String
  unfolding is_stale
  stale_from [] = []
  stale_from ((name, ref) ∷ refs) =
      if is_stale name ref then name ∷ stale_from refs else stale_from refs

  -- The loop over a branch's ancestors, from one position on; what it keeps.
  unfoldable pub walk : ℕ → ℕ → ℕ → List Snapshot → List ℕ
  walk max_age min_keep position [] = []
  walk max_age min_keep position (s ∷ ss) =
      if older now_ms s.timestamp_ms max_age && not (ltb position min_keep)
      then []
      else s.snapshot_id ∷ walk max_age min_keep (suc position) ss

  module _ (ancestors_of : Snapshot → List Snapshot) where
    -- Steps 3 and 4 for a ref with its snapshot.
    unfoldable pub kept_by : SnapshotRef → Snapshot → List ℕ
    unfolding walk
    kept_by ref s = s.snapshot_id ∷ elim ref.snapshot_ref_type [
      | tag ↦ []
      | branch ↦
          walk (or_given ref.max_snapshot_age_ms policy.max_snapshot_age_ms)
            (or_given ref.min_snapshots_to_keep policy.min_snapshots_to_keep) 0 (ancestors_of s)
    ]

    unfoldable pub retain_from : List String → Dict String SnapshotRef → List ℕ
    unfolding kept_by
    retain_from stale [] = []
    retain_from stale ((name, ref) ∷ refs) =
        let rest = retain_from stale refs in
        if contains text_discrete stale name
        then rest
        else elim (get ℕ_discrete (by_id m) ref.snapshot_id) [
          | none ↦ rest
          | some s ↦ kept_by ref s ++ rest
        ]

    unfoldable pub decide_retention : RetentionDecision
    unfolding stale_from retain_from by_id
    decide_retention =
        let stale = stale_from m.refs in
        let retain = retain_from stale m.refs in
        record {
          retain = retain;
          expire = keep (λ i. not (contains ℕ_discrete retain i)) (keys (by_id m));
          stale_refs = stale;
        }
