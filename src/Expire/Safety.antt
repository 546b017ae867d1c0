-- ===== src/Expire/Safety.antt =====
-- src/zamboni/expire.py: what a retention decision never expires, and that it expires all else.
use zamboni.Base.{
  ℕ, ◌≡◌, refl, ◌∙◌, String, List, ◌∷◌, ◌++◌, some, true, false, not, ◌&&◌, ◌⊎◌, arith, inl, inr,
  contains, contains-keep, All, All-map, text_discrete, ℕ_discrete, Bool-cases,
}
use zamboni.Base.Dict.{get, keys}
use zamboni.Expire.{
  Snapshot, SnapshotRef, branch, TableMetadata, RetentionPolicy, by_id, or_given, main_branch,
  stale_from, walk, kept_by, decide_retention,
}
use zamboni.Expire.Keeps.{AllWithin, KeptBy, main-stale, walk-keeps, kept-retained, retained-kept}

module _ (m : TableMetadata) (policy : RetentionPolicy) (now_ms : ℕ)
    (ancestors_of : Snapshot → List Snapshot) where
  expire-contains :
      (i : ℕ)
      → contains ℕ_discrete (decide_retention m policy now_ms ancestors_of).expire i ≡ (
          not (contains ℕ_discrete (decide_retention m policy now_ms ancestors_of).retain i)
          && contains ℕ_discrete (keys (by_id m)) i)
  unfolding decide_retention
  expire-contains i = contains-keep ℕ_discrete _ (keys (by_id m)) i

  kept-unexpired :
      (i : ℕ)
      → contains ℕ_discrete (decide_retention m policy now_ms ancestors_of).retain i ≡ true
      → contains ℕ_discrete (decide_retention m policy now_ms ancestors_of).expire i ≡ false
  kept-unexpired i h = expire-contains i ∙ ground arith

  module _ (name : String) (ref : SnapshotRef) (s : Snapshot)
      (at : get text_discrete m.refs name ≡ some ref)
      (fresh : contains text_discrete
          (decide_retention m policy now_ms ancestors_of).stale_refs
          name
        ≡ false)
      (head : get ℕ_discrete (by_id m) ref.snapshot_id ≡ some s) where
    by_ref :
        (i : ℕ)
        → contains ℕ_discrete (kept_by m policy now_ms ancestors_of ref s) i ≡ true
        → contains ℕ_discrete (decide_retention m policy now_ms ancestors_of).expire i ≡ false
    unfolding decide_retention
    by_ref i k = kept-unexpired i (
        kept-retained m policy now_ms ancestors_of (stale_from m policy now_ms m.refs) m.refs name
          ref s i at fresh head k)

    head-unexpired :
        contains ℕ_discrete (decide_retention m policy now_ms ancestors_of).expire s.snapshot_id
        ≡ false
    unfolding kept_by
    head-unexpired = by_ref s.snapshot_id (ground arith)

  kept-branch :
      (ref : SnapshotRef) (s : Snapshot)
      → ref.snapshot_ref_type ≡ branch
      → kept_by m policy now_ms ancestors_of ref s
        ≡ s.snapshot_id
          ∷ walk m policy now_ms
              (or_given ref.max_snapshot_age_ms policy.max_snapshot_age_ms)
              (or_given ref.min_snapshots_to_keep policy.min_snapshots_to_keep)
              0
              (ancestors_of s)
  unfolding kept_by
  kept-branch ref s kind = rw (kind, kept_by) refl

  -- Where `main` points at a snapshot that the table has, that snapshot is not expired and `main`
  -- is not dropped.
  pub main-kept :
      (ref : SnapshotRef) (s : Snapshot)
      → get text_discrete m.refs main_branch ≡ some ref
      → get ℕ_discrete (by_id m) ref.snapshot_id ≡ some s
      → (contains text_discrete
            (decide_retention m policy now_ms ancestors_of).stale_refs
            main_branch
          ≡ false)
        × (contains ℕ_discrete (decide_retention m policy now_ms ancestors_of).expire s.snapshot_id
            ≡ false)
  unfolding decide_retention
  main-kept ref s at head =
      let fresh = main-stale m policy now_ms m.refs in
      (fresh, head-unexpired main_branch ref s at fresh head)

  -- For a branch that is not dropped and points at a snapshot that the table has: that snapshot is
  -- not expired; and of the branch's ancestors, none of an initial part is expired in which each
  -- is young enough or among the first that the branch keeps.
  pub surviving-kept :
      (name : String) (ref : SnapshotRef) (s : Snapshot) (pre post : List Snapshot)
      → get text_discrete m.refs name ≡ some ref
      → contains text_discrete (decide_retention m policy now_ms ancestors_of).stale_refs name
        ≡ false
      → get ℕ_discrete (by_id m) ref.snapshot_id ≡ some s
      → ref.snapshot_ref_type ≡ branch
      → ancestors_of s ≡ pre ++ post
      → AllWithin now_ms
          (or_given ref.max_snapshot_age_ms policy.max_snapshot_age_ms)
          (or_given ref.min_snapshots_to_keep policy.min_snapshots_to_keep)
          0
          pre
      → (contains ℕ_discrete (decide_retention m policy now_ms ancestors_of).expire s.snapshot_id
          ≡ false)
        × All
            (λ a.
              contains ℕ_discrete
                (decide_retention m policy now_ms ancestors_of).expire
                a.snapshot_id
              ≡ false)
            pre
  surviving-kept name ref s pre post at fresh head kind line within = (
    head-unexpired name ref s at fresh head,
    All-map (λ a e. by_ref name ref s at fresh head a.snapshot_id (walked a e)) pre
        (walk-keeps m policy now_ms _ _ 0 pre post within),
  )
    where
      walked :
          (a : Snapshot)
          → contains ℕ_discrete
              (walk m policy now_ms
                (or_given ref.max_snapshot_age_ms policy.max_snapshot_age_ms)
                (or_given ref.min_snapshots_to_keep policy.min_snapshots_to_keep)
                0
                (pre ++ post))
              a.snapshot_id
            ≡ true
          → contains ℕ_discrete (kept_by m policy now_ms ancestors_of ref s) a.snapshot_id ≡ true
      walked a e = rw (kept-branch ref s kind, line) (ground arith)

  -- A snapshot that the table has is expired unless one of the table's refs that is not dropped
  -- keeps it.
  pub unreferenced-expired :
      (i : ℕ)
      → contains ℕ_discrete (keys (by_id m)) i ≡ true
      → (contains ℕ_discrete (decide_retention m policy now_ms ancestors_of).expire i ≡ true)
        ⊎ KeptBy m policy now_ms ancestors_of
            (decide_retention m policy now_ms ancestors_of).stale_refs
            m.refs
            i
  unfolding decide_retention
  unreferenced-expired i known =
      elim (Bool-cases
        (contains ℕ_discrete (decide_retention m policy now_ms ancestors_of).retain i)) [
          | inl kept ↦ inr (
              retained-kept m policy now_ms ancestors_of (stale_from m policy now_ms m.refs) m.refs
                i kept)
          | inr gone ↦ inl (expire-contains i ∙ ground arith)
        ]
