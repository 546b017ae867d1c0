-- ===== src/Changed/Widening.antt =====
-- src/zamboni/changed.py: narrowing to the changed partitions never leaves out a written one.
use mathlib.Core.Bool.{false≢true}
use zamboni.Base.{
  ℕ, ◌≡◌, refl, ◌∙◌, subst, not, All, String, List, [], ◌∷◌, ◌++◌, Option, some, Bool, true, false,
  ◌||◌, ◌&&◌, arith, inl, inr, text_discrete, contains, contains-append, All-contains, Option-cases,
  Bool-cases,
}
use zamboni.Changed.{
  given, Snapshot, Manifest, from_manifests, Watermark, covers, snapshots_since_watermark,
  from_summaries, changes_in, changed_partitions,
}
use zamboni.Changed.Manifests.{written_by, wrote, Recorded, from_manifests-covers}

-- One of the snapshots' summaries names the partition.
abbrev named : List Snapshot → String → Bool
named [] path = false
named (s ∷ ss) path = s.counted && contains text_discrete s.paths path || named ss path

from_summaries-included :
    (ss : List Snapshot) (paths : List String)
    → from_summaries ss ≡ some paths
    → All (λ s. (not s.counted || s.included) ≡ true) ss
unfolding from_summaries
from_summaries-included [] paths h = tt
from_summaries-included (s ∷ ss) paths h = elim (Option-cases (from_summaries ss)) [
  | inl gone ↦ absurd (ground (arith, gone, h))
  | inr (rest, e) ↦ (ground (arith, e, h), from_summaries-included ss rest e)
]

from_summaries-covers :
    (ss : List Snapshot) (path : String) (paths : List String)
    → from_summaries ss ≡ some paths
    → named ss path ≡ true
    → contains text_discrete paths path ≡ true
unfolding from_summaries
from_summaries-covers [] path paths h w = elim (false≢true w) [ ]
from_summaries-covers (s ∷ ss) path paths h w = elim (Bool-cases s.counted) [
  | inr nothing ↦ from_summaries-covers ss path paths (ground arith) (ground arith)
  | inl counted ↦ elim (Option-cases (from_summaries ss)) [
    | inl gone ↦ ground arith
    | inr (rest, e) ↦
        subst (λ ps. contains text_discrete ps path ≡ true) (joined counted rest e)
          (contains-append text_discrete s.paths rest path
            ∙ ground (arith, from_summaries-covers ss path rest e))
  ]
]
  where
    joined :
        s.counted ≡ true
        → (rest : List String) → from_summaries ss ≡ some rest
        → s.paths ++ rest ≡ paths
    joined counted rest e = ground arith

module _ {P Spec : Type 0} (specs : ℕ → Option Spec) (partition_path : Spec → P → String)
    (manifests_of : Snapshot → Option (List (Manifest P))) where
  -- Where every summary includes its partitions, what the snapshots wrote their summaries name.
  wrote-named :
      (ss : List Snapshot) (path : String)
      → All (λ s. (not s.counted || s.included) ≡ true) ss
      → All (Recorded specs partition_path manifests_of) ss
      → wrote specs partition_path manifests_of ss path ≡ true
      → named ss path ≡ true
  wrote-named [] path i r w = w
  wrote-named (s ∷ ss) path i r w =
      elim (Bool-cases
        (contains text_discrete (written_by specs partition_path manifests_of s) path)) [
          | inl here ↦ ground (
            arith,
            i.0,
            All-contains text_discrete _ (written_by specs partition_path manifests_of s) path r.0
                here,
          )
          | inr gone ↦ ground (arith, wrote-named ss path i.1 r.1 (ground (arith, w, gone)))
        ]

  changes_in-covers :
      (ss : List Snapshot) (path : String)
      → All (Recorded specs partition_path manifests_of) ss
      → wrote specs partition_path manifests_of ss path ≡ true
      → covers (changes_in specs partition_path manifests_of ss) path ≡ true
  unfolding changes_in
  changes_in-covers [] path r w = elim (false≢true w) [ ]
  changes_in-covers (s ∷ ss) path r w = elim (Option-cases (from_summaries (s ∷ ss))) [
    | inr (paths, e) ↦
        rw (e, changes_in)
          (from_summaries-covers (s ∷ ss) path paths e
            (wrote-named (s ∷ ss) path (from_summaries-included (s ∷ ss) paths e) r w))
    | inl none_ ↦ elim (Option-cases (from_manifests specs partition_path manifests_of (s ∷ ss))) [
      | inr (paths, e) ↦
          rw (none_, e, changes_in)
            (from_manifests-covers specs partition_path manifests_of (s ∷ ss) path paths e w)
      | inl gone ↦ rw (none_, gone, changes_in) refl
    ]
  ]

  -- Where each summary of the snapshots after the watermark says that partitions changed if the
  -- snapshot wrote any, and names each of them if it includes its partitions: a partition in which
  -- a manifest added by such a snapshot has a live data file is covered by the changed partitions,
  -- whether or not the table is partitioned, whatever work the last run left and whatever could be
  -- read.
  pub written-covered :
      (partitioned : Bool) (mark : Watermark) (snapshots since : List Snapshot) (path : String)
      → All (Recorded specs partition_path manifests_of) since
      → snapshots_since_watermark mark snapshots ≡ some since
      → wrote specs partition_path manifests_of since path ≡ true
      → covers
          (changed_partitions specs partition_path manifests_of partitioned (some mark) snapshots)
          path
        ≡ true
  unfolding changed_partitions
  written-covered false mark snapshots since path r h w = refl
  written-covered true mark snapshots since path r h w =
      elim (Option-cases (given mark.incomplete)) [
        | inr (why, e) ↦ rw (e, changed_partitions) refl
        | inl done ↦ rw (done, h, changed_partitions) (changes_in-covers since path r w)
      ]
