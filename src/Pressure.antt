-- ===== src/Pressure.antt =====
-- src/zamboni/pressure.py: when a table has gathered enough deletes to be compacted early. A ratio is a
-- Python float: its type is a parameter, with `is_ratio` (above 0, at most 1), the whole number 1 as one, and
-- `reaches n d r`, the test `n / d >= r`.
pub mod Triggers
use zamboni.Base.{
  ℕ, ◌≤◌, String, List, [], ◌∷◌, Option, none, some, Bool, true, false, ◌&&◌, ◌||◌, not, ltb, leb,
  ◌==◌, is_some, or_else, if◌then◌else◌,
}

pub record PressureSettings (R : Type 0) : Type 0 where
  pub delete_files : Option ℕ
  pub delete_ratio : Option R
  pub deleted_rows_ratio : Option R
  pub check_every_minutes : ℕ

pub data SettingsError : Type 0 where
  bad_delete_files bad_delete_ratio bad_deleted_rows_ratio bad_interval all_off unknown_keys
        not_a_block :
      SettingsError

pub data Settled (A : Type 0) : Type 0 where
  ok : A → Settled A
  refused : SettingsError → Settled A

-- A health record's fields that a decision reads; `none` is one that was not reported.
pub record Health : Type 0 where
  pub data_files : Option ℕ
  pub delete_files : Option ℕ
  pub position_deletes : Option ℕ
  pub equality_deletes : Option ℕ
  pub records : Option ℕ

pub data Trigger : Type 0 where
  too_many_files : ℕ → Trigger
  files_over_ratio : ℕ → ℕ → Trigger
  rows_over_ratio : ℕ → ℕ → Trigger

-- What a setting is given: null, a whole number from 0 on, a float, or anything else (a boolean, a
-- negative whole number, a text, a list, a block).
pub data Given (R : Type 0) : Type 0 where
  null : Given R
  whole : ℕ → Given R
  real : R → Given R
  odd : Given R

-- The arguments of the constructor.
pub record Raw (R : Type 0) : Type 0 where
  pub delete_files : Given R
  pub delete_ratio : Given R
  pub deleted_rows_ratio : Given R
  pub check_every_minutes : Given R

-- A block of settings: for each key that it names, the value; and the keys that no setting has.
pub record Block (R : Type 0) : Type 0 where
  pub delete_files : Option (Given R)
  pub delete_ratio : Option (Given R)
  pub deleted_rows_ratio : Option (Given R)
  pub check_every_minutes : Option (Given R)
  pub unknown : List String

-- The value of `pressure:` in a fleet file; `no_block` is neither a boolean nor a block.
pub data Value (R : Type 0) : Type 0 where
  off on no_block : Value R
  block : Block R → Value R

module _ {R : Type 0} (is_ratio : R → Bool) (one : R) where
  -- `_positive_int`: the number, where it is one.
  abbrev pub positive_int : Given R → Option ℕ
  positive_int (whole n) = if n == 0 then none else some n
  positive_int null = none
  positive_int (real r) = none
  positive_int odd = none

  -- `delete_files`, where it is in order.
  abbrev pub count_of : Given R → Option (Option ℕ)
  count_of null = some none
  count_of (whole n) = if n == 0 then none else some (some n)
  count_of (real r) = none
  count_of odd = none

  -- `_ratio`: a ratio, where it is in order.
  abbrev pub ratio_of : Given R → Option (Option R)
  ratio_of null = some none
  ratio_of (whole n) = if n == 1 then some (some one) else none
  ratio_of (real r) = if is_ratio r then some (some r) else none
  ratio_of odd = none

  -- The last check of `__post_init__`.
  unfoldable pub any_on : Option ℕ → Option R → Option R → ℕ → Settled (PressureSettings R)
  any_on files ratio rows minutes =
      if not (is_some files) && not (is_some ratio) && not (is_some rows)
      then refused all_off
      else ok (record {
        delete_files = files;
        delete_ratio = ratio;
        deleted_rows_ratio = rows;
        check_every_minutes = minutes;
      })

  -- `__post_init__`
  unfoldable pub checked : Raw R → Settled (PressureSettings R)
  unfolding any_on
  checked raw = elim (count_of raw.delete_files) [
    | none ↦ refused bad_delete_files
    | some files ↦ elim (ratio_of raw.delete_ratio) [
      | none ↦ refused bad_delete_ratio
      | some ratio ↦ elim (ratio_of raw.deleted_rows_ratio) [
        | none ↦ refused bad_deleted_rows_ratio
        | some rows ↦ elim (positive_int raw.check_every_minutes) [
          | none ↦ refused bad_interval
          | some minutes ↦ any_on files ratio rows minutes
        ]
      ]
    ]
  ]

  abbrev given_count : Option ℕ → Given R
  given_count none = null
  given_count (some n) = whole n

  abbrev given_ratio : Option R → Given R
  given_ratio none = null
  given_ratio (some r) = real r

  -- `replace(start, **value)`, up to the constructor's checks.
  abbrev pub replaced : PressureSettings R → Block R → Raw R
  replaced s b = record {
    delete_files = or_else b.delete_files (given_count s.delete_files);
    delete_ratio = or_else b.delete_ratio (given_ratio s.delete_ratio);
    deleted_rows_ratio = or_else b.deleted_rows_ratio (given_ratio s.deleted_rows_ratio);
    check_every_minutes = or_else b.check_every_minutes (whole s.check_every_minutes);
  }

  abbrev no_keys : List String → Bool
  no_keys [] = true
  no_keys (k ∷ ks) = false

  -- `PressureSettings.from_value(value, base)`, with the default settings; an answer of `none` is "off".
  unfoldable pub from_value :
      PressureSettings R
      → Value R
      → Option (PressureSettings R)
      → Settled (Option (PressureSettings R))
  unfolding checked
  from_value defaults off base = ok none
  from_value defaults on base = ok (some (or_else base defaults))
  from_value defaults no_block base = refused not_a_block
  from_value defaults (block b) base =
      if no_keys b.unknown
      then elim (checked (replaced (or_else base defaults) b)) [
        | ok s ↦ ok (some s)
        | refused why ↦ refused why
      ]
      else refused unknown_keys

module _ {R : Type 0} (reaches : ℕ → ℕ → R → Bool) where
  -- Each threshold of `triggered`, for a number of delete files.
  abbrev pub by_files : PressureSettings R → ℕ → Option Trigger
  by_files s n = elim s.delete_files [
    | none ↦ none
    | some most ↦ if leb most n then some (too_many_files n) else none
  ]

  abbrev pub by_ratio : Option R → Option ℕ → ℕ → Option Trigger
  by_ratio none files n = none
  by_ratio (some r) none n = none
  by_ratio (some r) (some d) n =
      if not (d == 0) && reaches n d r then some (files_over_ratio n d) else none

  abbrev pub by_rows : Option R → Option ℕ → Option ℕ → Option Trigger
  by_rows none records deleted = none
  by_rows (some r) none deleted = none
  by_rows (some r) (some n) none = none
  by_rows (some r) (some n) (some d) =
      if not (n == 0) && reaches d n r then some (rows_over_ratio d n) else none

  abbrev pub or_next : Option Trigger → Option Trigger → Option Trigger
  or_next none next = next
  or_next (some t) next = some t

  -- `triggered`, for a number of delete files above 0 and no equality deletes.
  abbrev pub over_threshold : PressureSettings R → Health → ℕ → Option Trigger
  over_threshold s h n = or_next (by_files s n) (
      or_next (by_ratio s.delete_ratio h.data_files n)
        (by_rows s.deleted_rows_ratio h.records h.position_deletes))

  unfoldable pub triggered : PressureSettings R → Health → Option Trigger
  triggered s h = elim h.delete_files [
    | none ↦ none
    | some n ↦ if n == 0 then none else elim h.equality_deletes [
      | none ↦ none
      | some e ↦ if ltb 0 e then none else over_threshold s h n
    ]
  ]
