-- ===== src/Maintenance/Skips.antt =====
-- When an operation is passed over as having nothing to do: only on a table whose last commit is maintenance's.
use mathlib.Core.Bool.{false≢true}
use zamboni.Base.{◌≡◌, refl, sym, ◌∙◌, inl, inr, List, [], ◌∷◌, true, false, some, length, arith}
use zamboni.Health.{Snapshot, Table, Watermark, maintenance_watermark, maintained, written_since}
use zamboni.Health.Order.{DistinctSequences}
use zamboni.Health.Watermarks.{Marks, later_than, maintenance_watermark-Marks}
use zamboni.Scheduler.Reasons.{Operation, Operation-discrete, compact}
use zamboni.Maintenance.{among, truthy, unchanged_since}

unchanged_since-stamped :
    (mark : Watermark) (o : Operation)
    → among o (unchanged_since (some mark)) ≡ true
    → (mark.snapshots_since ≡ 0) × (maintained mark ≡ true)
unfolding unchanged_since written_since
unchanged_since-stamped mark o h = ground (arith, h)

no_length : (ss : List Snapshot) → length ss ≡ 0 → ss ≡ []
no_length [] h = refl
no_length (s ∷ ss) h = absurd (omega arith)

-- For a table whose snapshots have distinct sequence numbers: where its watermark says that an
-- operation has nothing to do, the watermark is a stamped snapshot and no snapshot has a greater
-- sequence number.
pub unchanged_since-last :
    (t : Table) (o : Operation)
    → DistinctSequences t.snapshots
    → among o (unchanged_since (some (maintenance_watermark t))) ≡ true
    → (s : Snapshot) × (Marks t (maintenance_watermark t) s × (later_than s t.snapshots ≡ []))
unchanged_since-last t o d h =
    let stamped = unchanged_since-stamped (maintenance_watermark t) o h in
    elim (maintenance_watermark-Marks t d) [
      | inl (never, bare, all) ↦ elim (false≢true (sym never ∙ stamped.1)) [ ]
      | inr (s, marks) ↦
          (s, (marks, no_length (later_than s t.snapshots) (sym marks.counts ∙ stamped.0)))
    ]

-- Compaction has nothing to do only where the last stamp says that it finished.
unchanged_since-compact :
    (mark : Watermark)
    → among compact (unchanged_since (some mark)) ≡ true
    → truthy mark.incomplete ≡ false
unfolding unchanged_since Operation-discrete
unchanged_since-compact mark h = ground (arith, h)
