-- ===== src/Expire/Keeps.antt =====
-- src/zamboni/expire.py: what a retention decision keeps, and why.
use mathlib.Core.Bool.{false≢true}
use zamboni.Base.{
  ℕ, suc, ◌≡◌, refl, sym, ◌∙◌, subst, String, List, [], ◌∷◌, ◌++◌, none, some, true, false, not,
  ◌||◌, ◌⊎◌, arith, inl, inr, ltb, contains, contains-append, All, All-map, text_discrete,
  ℕ_discrete, Option-cases, Bool-cases,
}
use zamboni.Base.Dict.{Dict, get}
use zamboni.Expire.{
  Snapshot, SnapshotRef, TableMetadata, RetentionPolicy, by_id, older, main_branch, is_stale,
  stale_from, walk, kept_by, retain_from,
}

-- Every snapshot is young enough, or among the first that the branch keeps.
abbrev pub AllWithin : (now_ms max_age min_keep position : ℕ) → List Snapshot → Type 0
AllWithin now_ms max_age min_keep position [] = Unit
AllWithin now_ms max_age min_keep position (s ∷ ss) =
    (not (older now_ms s.timestamp_ms max_age) || ltb position min_keep ≡ true)
    × AllWithin now_ms max_age min_keep (suc position) ss

module _ (m : TableMetadata) (policy : RetentionPolicy) (now_ms : ℕ) where
  pub main-stale :
      (refs : Dict String SnapshotRef)
      → contains text_discrete (stale_from m policy now_ms refs) main_branch ≡ false
  unfolding stale_from is_stale
  main-stale [] = refl
  main-stale ((name, ref) ∷ refs) = ground (arith, main-stale refs)

  walk-step :
      (max_age min_keep position : ℕ) (s : Snapshot) (ss : List Snapshot)
      → (not (older now_ms s.timestamp_ms max_age) || ltb position min_keep) ≡ true
      → walk m policy now_ms max_age min_keep position (s ∷ ss)
        ≡ s.snapshot_id ∷ walk m policy now_ms max_age min_keep (suc position) ss
  unfolding walk
  walk-step max_age min_keep position s ss h = ground arith

  pub walk-keeps :
      (max_age min_keep position : ℕ) (pre post : List Snapshot)
      → AllWithin now_ms max_age min_keep position pre
      → All
          (λ s.
            contains ℕ_discrete
              (walk m policy now_ms max_age min_keep position (pre ++ post))
              s.snapshot_id
            ≡ true)
          pre
  walk-keeps max_age min_keep position [] post h = tt
  walk-keeps max_age min_keep position (s ∷ pre) post h =
      subst (λ w. All (λ a. contains ℕ_discrete w a.snapshot_id ≡ true) (s ∷ pre))
        (sym (walk-step max_age min_keep position s (pre ++ post) h.0))
        (
          ground arith,
          All-map (λ a e. ground arith) pre
              (walk-keeps max_age min_keep (suc position) pre post h.1),
        )

  module _ (ancestors_of : Snapshot → List Snapshot) where
    module _ (stale : List String) (n : String) (r : SnapshotRef)
        (refs : Dict String SnapshotRef) where
      retain-stale :
          contains text_discrete stale n ≡ true
          → retain_from m policy now_ms ancestors_of stale ((n, r) ∷ refs)
            ≡ retain_from m policy now_ms ancestors_of stale refs
      unfolding retain_from
      retain-stale e = rw (e, retain_from) refl

      retain-missing :
          contains text_discrete stale n ≡ false
          → get ℕ_discrete (by_id m) r.snapshot_id ≡ none
          → retain_from m policy now_ms ancestors_of stale ((n, r) ∷ refs)
            ≡ retain_from m policy now_ms ancestors_of stale refs
      unfolding retain_from
      retain-missing e f = rw (e, f, retain_from) refl

      retain-kept :
          (s : Snapshot)
          → contains text_discrete stale n ≡ false
          → get ℕ_discrete (by_id m) r.snapshot_id ≡ some s
          → retain_from m policy now_ms ancestors_of stale ((n, r) ∷ refs)
            ≡ kept_by m policy now_ms ancestors_of r s
              ++ retain_from m policy now_ms ancestors_of stale refs
      unfolding retain_from
      retain-kept s e f = rw (e, f, retain_from) refl

      -- What the rest retains is retained, whatever the first ref does.
      retain-more :
          (i : ℕ)
          → contains ℕ_discrete (retain_from m policy now_ms ancestors_of stale refs) i ≡ true
          → contains ℕ_discrete (retain_from m policy now_ms ancestors_of stale ((n, r) ∷ refs)) i
            ≡ true
      retain-more i h = elim (Bool-cases (contains text_discrete stale n)) [
        | inl old ↦ rw (retain-stale old) h
        | inr fresh ↦ elim (Option-cases (get ℕ_discrete (by_id m) r.snapshot_id)) [
          | inl missing ↦ rw (retain-missing fresh missing) h
          | inr (s, at) ↦ rw (retain-kept s fresh at, contains-append) (ground arith)
        ]
      ]

    -- What a surviving ref keeps is retained.
    pub kept-retained :
        (stale : List String) (refs : Dict String SnapshotRef) (name : String) (ref : SnapshotRef)
        (s : Snapshot) (i : ℕ)
        → get text_discrete refs name ≡ some ref
        → contains text_discrete stale name ≡ false
        → get ℕ_discrete (by_id m) ref.snapshot_id ≡ some s
        → contains ℕ_discrete (kept_by m policy now_ms ancestors_of ref s) i ≡ true
        → contains ℕ_discrete (retain_from m policy now_ms ancestors_of stale refs) i ≡ true
    unfolding get
    kept-retained stale [] name ref s i h fresh at k = ground arith
    kept-retained stale ((n, r) ∷ refs) name ref s i h fresh at k = elim (text_discrete n name) [
      | no other ↦
          retain-more stale n r refs i
            (kept-retained stale refs name ref s i (ground arith) fresh at k)
      | yes same ↦
          subst
            (λ x. contains ℕ_discrete (retain_from m policy now_ms ancestors_of stale x) i ≡ true)
            (sym (head same))
            (rw (retain-kept stale name ref refs s fresh at, contains-append) (ground arith))
    ]
      where
        head : n ≡ name → ◌≡◌ {A = Dict String SnapshotRef} ((n, r) ∷ refs) ((name, ref) ∷ refs)
        head same = ground arith

    -- These refs hold this one under the name.
    abbrev pub Holds : Dict String SnapshotRef → String → SnapshotRef → Type 0
    Holds [] name ref = ⊥
    Holds ((n, r) ∷ refs) name ref = ((n ≡ name) × (r ≡ ref)) ⊎ Holds refs name ref

    -- A surviving ref of these keeps the snapshot.
    abbrev pub KeptBy : List String → Dict String SnapshotRef → ℕ → Type 0
    KeptBy stale refs i =
        (name : String) × (ref : SnapshotRef) × (s : Snapshot) × Holds refs name ref
        × (contains text_discrete stale name ≡ false)
        × (get ℕ_discrete (by_id m) ref.snapshot_id ≡ some s)
        × (contains ℕ_discrete (kept_by m policy now_ms ancestors_of ref s) i ≡ true)

    widen :
        (stale : List String) (n : String) (r : SnapshotRef) (refs : Dict String SnapshotRef)
        (i : ℕ)
        → KeptBy stale refs i
        → KeptBy stale ((n, r) ∷ refs) i
    widen stale n r refs i (name, ref, s, known, fresh, at, k) =
        (name, ref, s, inr known, fresh, at, k)

    retain-nil :
        (stale : List String) (i : ℕ)
        → contains ℕ_discrete (retain_from m policy now_ms ancestors_of stale []) i ≡ false
    unfolding retain_from
    retain-nil stale i = refl

    -- A retained snapshot is kept by a surviving ref.
    pub retained-kept :
        (stale : List String) (refs : Dict String SnapshotRef) (i : ℕ)
        → contains ℕ_discrete (retain_from m policy now_ms ancestors_of stale refs) i ≡ true
        → KeptBy stale refs i
    retained-kept stale [] i h = elim (false≢true (sym (retain-nil stale i) ∙ h)) [ ]
    retained-kept stale ((n, r) ∷ refs) i h = elim (Bool-cases (contains text_discrete stale n)) [
      | inl old ↦
          widen stale n r refs i
            (retained-kept stale refs i (rw (retain-stale stale n r refs old) at h))
      | inr fresh ↦ elim (Option-cases (get ℕ_discrete (by_id m) r.snapshot_id)) [
        | inl missing ↦
            widen stale n r refs i
              (retained-kept stale refs i (rw (retain-missing stale n r refs fresh missing) at h))
        | inr (s, at) ↦
            elim (Bool-cases (contains ℕ_discrete (kept_by m policy now_ms ancestors_of r s) i)) [
              | inl here ↦ (n, r, s, inl (refl, refl), fresh, at, here)
              | inr rest ↦ widen stale n r refs i (
                  retained-kept stale refs i (
                    rest_only s rest
                      (rw (retain-kept stale n r refs s fresh at, contains-append) at h)))
            ]
      ]
    ]
      where
        rest_only :
            (s : Snapshot)
            → contains ℕ_discrete (kept_by m policy now_ms ancestors_of r s) i ≡ false
            → (contains ℕ_discrete (kept_by m policy now_ms ancestors_of r s) i
                || contains ℕ_discrete (retain_from m policy now_ms ancestors_of stale refs) i)
              ≡ true
            → contains ℕ_discrete (retain_from m policy now_ms ancestors_of stale refs) i ≡ true
        rest_only s e o = ground arith
