-- ===== src/Health/Watermarks.antt =====
-- What the watermark says: the last stamped commit, and how many commits came after it, in whatever order the
-- catalog lists the snapshots.
use mathlib.Core.List.Permᴰ
use mathlib.Core.List.{Permᴰ}
use zamboni.Base.{
  ℕ, ◌+◌, ◌<◌, ◌≡◌, ◌≢◌, refl, sym, ap, subst, ◌∙◌, ◌⊎◌, inl, inr, String, List, [], ◌∷◌, ◌++◌,
  false, Option, none, some, ltb, length, length-append, keep, Option-cases, All, arith,
}
use zamboni.Health.{
  Snapshot, Table, Watermark, sequence, commit_order, stamp, Mark, newest_from, mark_of,
  maintenance_watermark, maintained,
}
use zamboni.Health.Order.{
  DistinctSequences, Ascending, commit_order-Permᴰ, commit_order-Ascending, commit_order-shuffles,
  All-Permᴰ, length-Permᴰ, keep-Permᴰ,
}

-- A table whose snapshots, with distinct sequence numbers, are listed in another order has the
-- same watermark.
pub maintenance_watermark-Permᴰ :
    (t : Table) (snapshots : List Snapshot)
    → Permᴰ t.snapshots snapshots
    → DistinctSequences t.snapshots
    → maintenance_watermark (record t { snapshots = snapshots }) ≡ maintenance_watermark t
unfolding maintenance_watermark
maintenance_watermark-Permᴰ t snapshots p d =
    ap (λ ss. mark_of t.name ss (newest_from 0 none ss)) (sym (commit_order-Permᴰ p d))

-- Where the last stamped snapshot of a list stands, found at `position` or later.
record Newest (position : ℕ) (ss : List Snapshot) (m : Mark) : Type 0 where
  before : List Snapshot
  after : List Snapshot
  split : ss ≡ before ++ m.1 ∷ after
  counted : m.0 ≡ position + length before
  stamped : stamp m.1 ≡ some m.2
  bare : All (λ r. stamp r ≡ none) after

Newest-cons :
    (s : Snapshot) (position : ℕ) (ss : List Snapshot) (m : Mark)
    → Newest (position + 1) ss m
    → Newest position (s ∷ ss) m
Newest-cons s position ss m at = record {
  before = s ∷ at.before;
  after = at.after;
  split = ap (λ l. s ∷ l) at.split;
  counted = omega (arith, at.counted);
  stamped = at.stamped;
  bare = at.bare;
}

newest_from-none :
    (s : Snapshot) (ss : List Snapshot) (position : ℕ) (newest : Option Mark)
    → stamp s ≡ none
    → newest_from position newest (s ∷ ss) ≡ newest_from (position + 1) newest ss
unfolding newest_from
newest_from-none s ss position newest e = rw (e, newest_from) refl

newest_from-some :
    (s : Snapshot) (ss : List Snapshot) (position : ℕ) (newest : Option Mark) (operation : String)
    → stamp s ≡ some operation
    → newest_from position newest (s ∷ ss)
      ≡ newest_from (position + 1) (some (position, s, operation)) ss
unfolding newest_from
newest_from-some s ss position newest operation e = rw (e, newest_from) refl

newest_from-Newest :
    (ss : List Snapshot) (position : ℕ) (newest : Option Mark)
    → ((newest_from position newest ss ≡ newest) × All (λ r. stamp r ≡ none) ss)
      ⊎ ((m : Mark) × ((newest_from position newest ss ≡ some m) × Newest position ss m))
unfolding newest_from
newest_from-Newest [] position newest = inl (refl, tt)
newest_from-Newest (s ∷ ss) position newest = elim (Option-cases (stamp s)) [
  | inl e ↦
      let next = newest_from-none s ss position newest e in
      elim (newest_from-Newest ss (position + 1) newest) [
        | inl (same, bare) ↦ inl (next ∙ same, (e, bare))
        | inr (m, (found, at)) ↦ inr (m, (next ∙ found, Newest-cons s position ss m at))
      ]
  | inr (operation, e) ↦
      let next = newest_from-some s ss position newest operation e in
      elim (newest_from-Newest ss (position + 1) (some (position, s, operation))) [
        | inl (same, bare) ↦ inr (
          (position, s, operation),
          (
            next ∙ same,
            record {
              before = [];
              after = ss;
              split = refl;
              counted = omega arith;
              stamped = e;
              bare = bare;
            },
          ),
        )
        | inr (m, (found, at)) ↦ inr (m, (next ∙ found, Newest-cons s position ss m at))
      ]
]

-- The commits after a snapshot, by sequence number.
abbrev pub later_than : Snapshot → List Snapshot → List Snapshot
later_than s ss = keep (λ r. ltb (sequence s) (sequence r)) ss

later_than-all :
    (s : Snapshot) (ss : List Snapshot)
    → All (λ r. sequence s < sequence r) ss
    → later_than s ss ≡ ss
later_than-all s [] h = refl
later_than-all s (r ∷ ss) h = ground (arith, h.0, later_than-all s ss h.1)

before-lt :
    (before : List Snapshot) (s : Snapshot) (after : List Snapshot) (r : Snapshot)
    → All (λ q. sequence r < sequence q) (before ++ s ∷ after)
    → sequence r < sequence s
before-lt [] s after r h = h.0
before-lt (q ∷ before) s after r h = before-lt before s after r h.1

-- In an ascending list, the commits after an entry are those that follow it.
later_than-Ascending :
    (before : List Snapshot) (s : Snapshot) (after : List Snapshot)
    → Ascending (before ++ s ∷ after)
    → later_than s (before ++ s ∷ after) ≡ after
later_than-Ascending [] s after h = ground (arith, later_than-all s after h.0)
later_than-Ascending (r ∷ before) s after h =
    ground (arith, before-lt before s after r h.0, later_than-Ascending before s after h.1)

-- What the watermark says of a stamped snapshot `s`: it is the last stamped commit, and `rest` are the others.
pub record Marks (t : Table) (w : Watermark) (s : Snapshot) : Type 0 where
  pub rest : List Snapshot
  pub listed : Permᴰ t.snapshots (s ∷ rest)
  pub is_mark : w.snapshot_id ≡ some s.snapshot_id
  pub is_stamped : stamp s ≡ w.operation
  pub has_operation : w.operation ≢ none
  pub none_later : All (λ r. stamp r ≡ none) (later_than s t.snapshots)
  pub counts : w.snapshots_since ≡ length (later_than s t.snapshots)

to_front :
    (before : List Snapshot) (s : Snapshot) (after : List Snapshot)
    → Permᴰ (before ++ s ∷ after) (s ∷ before ++ after)
to_front [] s after = Permᴰ.refl (s ∷ after)
to_front (r ∷ before) s after =
    Permᴰ.trans (Permᴰ.cons refl (to_front before s after)) (Permᴰ.swap refl refl)

mark_of-Marks :
    (t : Table) (m : Mark)
    → Ascending (commit_order t.snapshots)
    → Newest 0 (commit_order t.snapshots) m
    → Marks t (mark_of t.name (commit_order t.snapshots) (some m)) m.1
unfolding mark_of
mark_of-Marks t m up at =
    let sorted = commit_order-shuffles t.snapshots in
    let order = subst Ascending at.split up in
    let kept = later_than-Ascending at.before m.1 at.after order in
    let later =
      subst (λ l. Permᴰ (later_than m.1 t.snapshots) l) (ap (later_than m.1) at.split ∙ kept)
        (keep-Permᴰ (λ r. ltb (sequence m.1) (sequence r)) sorted) in
    record {
      rest = at.before ++ at.after;
      listed =
          Permᴰ.trans (subst (λ l. Permᴰ t.snapshots l) at.split sorted)
            (to_front at.before m.1 at.after);
      is_mark = refl;
      is_stamped = at.stamped;
      has_operation = λ e. ground (arith, e);
      none_later = All-Permᴰ (λ r. stamp r ≡ none) (Permᴰ.symm later) at.bare;
      counts = omega (
        arith,
        at.counted,
        length-Permᴰ later,
        ap length at.split,
        length-append at.before (m.1 ∷ at.after),
      );
    }

mark_of-none :
    (identifier : List String) (ss : List Snapshot)
    → (maintained (mark_of identifier ss none) ≡ false)
      × ((mark_of identifier ss none).snapshots_since ≡ length ss)
unfolding mark_of maintained
mark_of-none identifier ss = (refl, refl)

-- For a table whose snapshots have distinct sequence numbers: either no snapshot is stamped, and
-- the watermark counts them all and says that the table was not maintained; or it is a stamped
-- snapshot, and it counts those with a greater sequence number, none of which is stamped.
pub maintenance_watermark-Marks :
    (t : Table)
    → DistinctSequences t.snapshots
    → ((maintained (maintenance_watermark t) ≡ false)
        × All (λ r. stamp r ≡ none) t.snapshots
        × ((maintenance_watermark t).snapshots_since ≡ length t.snapshots))
      ⊎ ((s : Snapshot) × Marks t (maintenance_watermark t) s)
unfolding maintenance_watermark
maintenance_watermark-Marks t d =
    let sorted = commit_order-shuffles t.snapshots in
    elim (newest_from-Newest (commit_order t.snapshots) 0 none) [
      | inl (e, bare) ↦
          let none_left = mark_of-none t.name (commit_order t.snapshots) in
          rw e (
            inl (
              none_left.0,
              All-Permᴰ (λ r. stamp r ≡ none) (Permᴰ.symm sorted) bare,
              none_left.1 ∙ sym (length-Permᴰ sorted),
            ))
      | inr (m, (e, at)) ↦
          rw e (inr (m.1, mark_of-Marks t m (commit_order-Ascending t.snapshots d) at))
    ]
