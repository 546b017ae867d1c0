-- ===== src/Pressure/Triggers.antt =====
-- src/zamboni/pressure.py: what a trigger says of a table's health, and which settings are ever in use.
use mathlib.Core.Bool.{false≢true}
use zamboni.Base.{
  ℕ, ◌≤◌, ◌<◌, ◌≡◌, refl, subst, Option, none, some, Bool, true, ◌||◌, arith, inl, inr, is_some,
  or_else, Option-cases,
}
use zamboni.Pressure.{
  PressureSettings, Settled, ok, Health, Trigger, Given, null, whole, real, odd, Raw, Value, off,
  on, no_block, block, positive_int, count_of, ratio_of, any_on, checked, replaced, from_value,
  by_files, by_ratio, or_next, over_threshold, triggered,
}

-- A number of files that is on is above 0.
abbrev Counts : Option ℕ → Type 0
Counts none = Unit
Counts (some n) = 0 < n

module _ {R : Type 0} (is_ratio : R → Bool) (one : R) (one_is : is_ratio one ≡ true) where
  -- A ratio that is on is in its range.
  abbrev Ratio : Option R → Type 0
  Ratio none = Unit
  Ratio (some r) = is_ratio r ≡ true

  -- A threshold is on, each that is on is in its range, and the interval is positive.
  pub record IsSound (s : PressureSettings R) : Type 0 where
    pub files : Counts s.delete_files
    pub file_ratio : Ratio s.delete_ratio
    pub row_ratio : Ratio s.deleted_rows_ratio
    pub interval : 0 < s.check_every_minutes
    pub some_on :
        (is_some s.delete_files || is_some s.delete_ratio || is_some s.deleted_rows_ratio) ≡ true

  count_of-Counts : (v : Given R) (n : Option ℕ) → count_of is_ratio one v ≡ some n → Counts n
  count_of-Counts v none h = tt
  count_of-Counts null (some n) h = ground (arith, h)
  count_of-Counts (whole k) (some n) h = ground (arith, h)
  count_of-Counts (real r) (some n) h = ground (arith, h)
  count_of-Counts odd (some n) h = ground (arith, h)

  ratio_of-Ratio : (v : Given R) (r : Option R) → ratio_of is_ratio one v ≡ some r → Ratio r
  ratio_of-Ratio v none h = tt
  ratio_of-Ratio null (some r) h = ground (arith, h)
  ratio_of-Ratio (whole n) (some r) h = ground (arith, h, one_is)
  ratio_of-Ratio (real x) (some r) h = ground (arith, h)
  ratio_of-Ratio odd (some r) h = ground (arith, h)

  positive_int-positive : (v : Given R) (n : ℕ) → positive_int is_ratio one v ≡ some n → 0 < n
  positive_int-positive null n h = ground (arith, h)
  positive_int-positive (whole k) n h = ground (arith, h)
  positive_int-positive (real r) n h = ground (arith, h)
  positive_int-positive odd n h = ground (arith, h)

  any_on-IsSound :
      (files : Option ℕ) (ratio rows : Option R) (minutes : ℕ) (t : PressureSettings R)
      → Counts files
      → Ratio ratio
      → Ratio rows
      → 0 < minutes
      → any_on is_ratio one files ratio rows minutes ≡ ok t
      → IsSound t
  unfolding any_on
  any_on-IsSound files ratio rows minutes t a b c d h = subst IsSound same (record {
    files = a;
    file_ratio = b;
    row_ratio = c;
    interval = d;
    some_on = ground (arith, h);
  })
    where
      same :
          record {
            delete_files = files;
            delete_ratio = ratio;
            deleted_rows_ratio = rows;
            check_every_minutes = minutes;
          }
          ≡ t
      same = ground (arith, h)

  checked-IsSound :
      (raw : Raw R) (t : PressureSettings R) → checked is_ratio one raw ≡ ok t → IsSound t
  unfolding checked
  checked-IsSound raw t h = elim (Option-cases (count_of is_ratio one raw.delete_files)) [
    | inl a ↦ absurd (ground (arith, h, a))
    | inr (files, a) ↦ elim (Option-cases (ratio_of is_ratio one raw.delete_ratio)) [
      | inl b ↦ absurd (ground (arith, h, a, b))
      | inr (ratio, b) ↦ elim (Option-cases (ratio_of is_ratio one raw.deleted_rows_ratio)) [
        | inl c ↦ absurd (ground (arith, h, a, b, c))
        | inr (rows, c) ↦ elim (Option-cases (positive_int is_ratio one raw.check_every_minutes)) [
          | inl d ↦ absurd (ground (arith, h, a, b, c, d))
          | inr (minutes, d) ↦
              any_on-IsSound files ratio rows minutes t (count_of-Counts raw.delete_files files a)
                (ratio_of-Ratio raw.delete_ratio ratio b)
                (ratio_of-Ratio raw.deleted_rows_ratio rows c)
                (positive_int-positive raw.check_every_minutes minutes d)
                (ground (arith, h, a, b, c, d))
        ]
      ]
    ]
  ]

  impossible :
      {s : PressureSettings R}
      → ◌≡◌ {A = Settled (Option (PressureSettings R))} (ok none) (ok (some s))
      → ⊥
  impossible h = ground arith

  from_value-IsSound :
      (defaults : PressureSettings R) (value : Value R) (base : Option (PressureSettings R))
      (s : PressureSettings R)
      → IsSound defaults
      → ((b : PressureSettings R) → base ≡ some b → IsSound b)
      → from_value is_ratio one defaults value base ≡ ok (some s)
      → IsSound s
  unfolding from_value
  from_value-IsSound defaults off base s d b h = elim (impossible h) [ ]
  from_value-IsSound defaults no_block base s d b h = absurd (ground (arith, h))
  from_value-IsSound defaults on none s d b h = subst IsSound (ground arith) d
  from_value-IsSound defaults on (some t) s d b h = subst IsSound (ground arith) (b t refl)
  from_value-IsSound defaults (block k) base s d b h =
      checked-IsSound (replaced is_ratio one (or_else base defaults) k) s (ground arith)

  module _ (reaches : ℕ → ℕ → R → Bool)
      (at_one : (n : ℕ) (r : R) → 0 < n → is_ratio r ≡ true → reaches n n r ≡ true) where
    -- As many delete files as data files, all rows deleted, and `n` files.
    abbrev pub all_deleted : ℕ → Health
    all_deleted n = record {
      data_files = some n;
      delete_files = some n;
      position_deletes = some n;
      equality_deletes = some 0;
      records = some n;
    }

    parts-trigger :
        (files : Option ℕ) (ratio rows : Option R) (minutes : ℕ)
        → Counts files
        → Ratio ratio
        → Ratio rows
        → (is_some files || is_some ratio || is_some rows) ≡ true
        → is_some (
            triggered reaches
              (record {
                delete_files = files;
                delete_ratio = ratio;
                deleted_rows_ratio = rows;
                check_every_minutes = minutes;
              })
              (all_deleted (or_else files 1)))
          ≡ true
    unfolding triggered
    parts-trigger (some n) ratio rows minutes a b c h = ground (arith, a)
    parts-trigger none (some r) rows minutes a b c h = ground (arith, at_one 1 r (omega arith) b)
    parts-trigger none none (some r) minutes a b c h = ground (arith, at_one 1 r (omega arith) c)
    parts-trigger none none none minutes a b c h = ground (arith, h)

    -- Settings in order are triggered by a table with all of its rows deleted, and as many files as
    -- they ask for.
    IsSound-triggers :
        (s : PressureSettings R)
        → IsSound s
        → is_some (triggered reaches s (all_deleted (or_else s.delete_files 1))) ≡ true
    IsSound-triggers s v =
        parts-trigger s.delete_files s.delete_ratio s.deleted_rows_ratio s.check_every_minutes
          v.files v.file_ratio v.row_ratio v.some_on

    -- Over default and base settings that are in order, where a ratio of one to one reaches every
    -- ratio that is: whatever values a fleet file writes for `pressure:`, if settings are left in
    -- use, their interval is positive and they are triggered by a table whose rows are all deleted
    -- and which has as many delete files, and data files, as they ask for.
    pub from_value-triggers :
        (defaults : PressureSettings R) (value : Value R) (base : Option (PressureSettings R))
        (s : PressureSettings R)
        → IsSound defaults
        → ((b : PressureSettings R) → base ≡ some b → IsSound b)
        → from_value is_ratio one defaults value base ≡ ok (some s)
        → (0 < s.check_every_minutes)
          × (is_some (triggered reaches s (all_deleted (or_else s.delete_files 1))) ≡ true)
    from_value-triggers defaults value base s d b h =
        let v = from_value-IsSound defaults value base s d b h in (v.interval, IsSound-triggers s v)

module _ {R : Type 0} (reaches : ℕ → ℕ → R → Bool) (settings : PressureSettings R) where
  -- A table that triggers has delete files, and is known to have no equality deletes.
  pub triggered-needs :
      (h : Health) (t : Trigger)
      → triggered reaches settings h ≡ some t
      → (n : ℕ) × (h.delete_files ≡ some n) × (0 < n) × (h.equality_deletes ≡ some 0)
  unfolding triggered
  triggered-needs h t e = (or_else h.delete_files 0, ground arith, ground arith, ground arith)

  module _ (grows : (a b d : ℕ) (r : R) → a ≤ b → reaches a d r ≡ true → reaches b d r ≡ true)
      (n m : ℕ) (le : n ≤ m) where
    by_files-more :
        is_some (by_files reaches settings n) ≡ true → is_some (by_files reaches settings m) ≡ true
    by_files-more t = elim (Option-cases settings.delete_files) [
      | inl none_ ↦ ground arith
      | inr (k, e) ↦ ground arith
    ]

    by_ratio-more :
        (r : Option R) (d : Option ℕ)
        → is_some (by_ratio reaches r d n) ≡ true
        → is_some (by_ratio reaches r d m) ≡ true
    by_ratio-more none d t = t
    by_ratio-more (some r) none t = t
    by_ratio-more (some r) (some d) t = ground (arith, grows n m d r le)

    or_more :
        (a a' b b' : Option Trigger)
        → (is_some a ≡ true → is_some a' ≡ true)
        → (is_some b ≡ true → is_some b' ≡ true)
        → is_some (or_next reaches a b) ≡ true
        → is_some (or_next reaches a' b') ≡ true
    or_more a (some x) b b' f g t = refl
    or_more none none b b' f g t = g t
    or_more (some x) none b b' f g t = elim (false≢true (f refl)) [ ]

    over_threshold-more :
        (h : Health)
        → is_some (over_threshold reaches settings h n) ≡ true
        → is_some (over_threshold reaches settings h m) ≡ true
    over_threshold-more h t =
        or_more (by_files reaches settings n) (by_files reaches settings m) _ _ by_files-more
          (or_more (by_ratio reaches settings.delete_ratio h.data_files n)
            (by_ratio reaches settings.delete_ratio h.data_files m) _ _
            (by_ratio-more settings.delete_ratio h.data_files) (λ x. x))
          t

  -- Where a greater numerator never stops a ratio from being reached: more delete files, with all
  -- else as it was, never stop a table from triggering.
  pub triggered-more :
      (h : Health) (n m : ℕ)
      → ((a b d : ℕ) (r : R) → a ≤ b → reaches a d r ≡ true → reaches b d r ≡ true)
      → h.delete_files ≡ some n
      → n ≤ m
      → is_some (triggered reaches settings h) ≡ true
      → is_some (triggered reaches settings (record h { delete_files = some m })) ≡ true
  unfolding triggered
  triggered-more h n m grows files le t =
      ground (arith, over_threshold-more grows n m le h (reached t))
    where
      reached :
          is_some (triggered reaches settings h) ≡ true
          → is_some (over_threshold reaches settings h n) ≡ true
      reached t = ground arith
