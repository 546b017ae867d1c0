-- ===== src/Orphans/Removals.antt =====
-- What orphan removal may delete: only old files that nothing references, on a listing that is whole.
use mathlib.Core.Bool.{false≢true}
use zamboni.Base.{
  ℕ, ◌+◌, ◌*◌, ◌≤◌, ◌≡◌, ◌≢◌, refl, sym, ap, subst, ◌∙◌, inl, inr, String, List, [], ◌∷◌, Bool,
  true, false, some, Bool-cases, Option-cases, List-cases, All, text_discrete, arith,
}
use zamboni.Base.Dict.{Dict, keys}
use zamboni.Orphans.{
  StorageFile, paths, Seen, OrphanCleaner, Aborted, shared_location, missing_from_listing,
  OrphanResult, aborted, done, has_path, first_missing, check_invariants, day, is_orphan, is_young,
  orphans_of, candidates_of, deleted_of, removed_by, result_of, clean, run,
}

-- An entry that may be deleted at `now`.
pub record Removable (c : OrphanCleaner) (now : ℕ) (s : Seen) (e : String × StorageFile)
    : Type 0 where
  pub unreferenced : has_path (paths s.reachable) e.0 ≡ false
  pub not_current : e.0 ≢ s.current_metadata
  pub old : e.1.modified + c.older_than_days * day ≤ now

orphans_of-All :
    (storage : Dict String StorageFile) (s : Seen)
    → All (λ e. is_orphan s e.0 ≡ true) (orphans_of s storage)
unfolding orphans_of
orphans_of-All [] s = tt
orphans_of-All ((key, entry) ∷ storage) s = elim (Bool-cases (is_orphan s key)) [
  | inl h ↦ rw h (h, orphans_of-All storage s)
  | inr h ↦ rw h (orphans_of-All storage s)
]

old_orphan :
    (c : OrphanCleaner) (now : ℕ) (s : Seen) (e : String × StorageFile)
    → is_orphan s e.0 ≡ true
    → is_young c now e.1 ≡ false
    → Removable c now s e
unfolding is_orphan is_young
old_orphan c now s e h y = record {
  unreferenced = ground (arith, h);
  not_current = λ q. ground (arith, h, q);
  old = ground (arith, y);
}

candidates_of-Removable :
    (es : List (String × StorageFile)) (c : OrphanCleaner) (now : ℕ) (s : Seen)
    → All (λ e. is_orphan s e.0 ≡ true) es
    → All (Removable c now s) (candidates_of c now es)
unfolding candidates_of
candidates_of-Removable [] c now s h = tt
candidates_of-Removable (e ∷ es) c now s h = elim (Bool-cases (is_young c now e.1)) [
  | inl y ↦ rw y (candidates_of-Removable es c now s h.1)
  | inr y ↦ rw y (old_orphan c now s e h.0 y, candidates_of-Removable es c now s h.1)
]

deleted_of-All :
    (P : String × StorageFile → Type 0) (es : List (String × StorageFile)) (deletes : String → Bool)
    → All P es
    → All P (deleted_of deletes es)
unfolding deleted_of
deleted_of-All P [] deletes h = tt
deleted_of-All P (e ∷ es) deletes h = elim (Bool-cases (deletes e.1.location)) [
  | inl d ↦ rw d (h.0, deleted_of-All P es deletes h.1)
  | inr d ↦ rw d (deleted_of-All P es deletes h.1)
]

pub run-done :
    (c : OrphanCleaner) (deletes : String → Bool) (now : ℕ) (s : Seen) (r : OrphanResult)
    → run c deletes now s ≡ done r
    → r ≡ clean c deletes now s
unfolding run
run-done c deletes now s r e = elim (List-cases s.sharing) [
  | inl q ↦ elim (Option-cases (check_invariants s)) [
    | inl n ↦ ground (arith, e, q, n)
    | inr (why, n) ↦ absurd (ground (arith, e, q, n))
  ]
  | inr (other, (others, q)) ↦ absurd (ground (arith, e, q))
]

removed_by-All :
    (dry : Bool) (P : String × StorageFile → Type 0) (es : List (String × StorageFile))
    (deletes : String → Bool)
    → All P es
    → All P (removed_by dry deletes es)
unfolding removed_by
removed_by-All true P es deletes h = tt
removed_by-All false P es deletes h = deleted_of-All P es deletes h

clean-Removable :
    (c : OrphanCleaner) (deletes : String → Bool) (now : ℕ) (s : Seen)
    → All (Removable c now s) (clean c deletes now s).removed
unfolding clean result_of
clean-Removable c deletes now s =
    removed_by-All c.dry_run (Removable c now s) (candidates_of c now (orphans_of s s.storage))
      deletes
      (candidates_of-Removable (orphans_of s s.storage) c now s (orphans_of-All s.storage s))

first_missing-some :
    (ps listed : List String) (path : String)
    → has_path ps path ≡ true
    → has_path listed path ≡ false
    → (p : String) × (first_missing ps listed ≡ some p)
unfolding first_missing
first_missing-some [] listed path h n = elim (false≢true h) [ ]
first_missing-some (p ∷ ps) listed path h n = elim (Bool-cases (has_path listed p)) [
  | inr e ↦ (p, rw (e, first_missing) refl)
  | inl e ↦ elim (text_discrete p path) [
    | yes same ↦ elim (false≢true (sym n ∙ ap (has_path listed) (sym same) ∙ e)) [ ]
    | no other ↦
        let (q, found) = first_missing-some ps listed path (ground (arith, h)) n in
        (q, rw (e, first_missing) found)
  ]
]

-- Where orphan removal ends without an abort, each file that it deleted is referenced by nothing
-- in the reachable set, is not the table's current metadata, and was modified at the cutoff or
-- before it.
pub removed-Removable :
    (c : OrphanCleaner) (deletes : String → Bool) (now : ℕ) (s : Seen) (r : OrphanResult)
    → run c deletes now s ≡ done r
    → All (Removable c now s) r.removed
removed-Removable c deletes now s r e =
    subst (λ q. All (Removable c now s) q.removed) (sym (run-done c deletes now s r e))
      (clean-Removable c deletes now s)

-- Where the listing lacks a path of the reachable set, orphan removal aborts.
pub run-aborts :
    (c : OrphanCleaner) (deletes : String → Bool) (now : ℕ) (s : Seen) (path : String)
    → has_path (paths s.reachable) path ≡ true
    → has_path (keys s.storage) path ≡ false
    → (why : Aborted) × (run c deletes now s ≡ aborted why)
unfolding run check_invariants
run-aborts c deletes now s path referenced unlisted =
    let (p, missing) =
      first_missing-some (paths s.reachable) (keys s.storage) path referenced unlisted in
    elim (List-cases s.sharing) [
      | inl q ↦ (missing_from_listing p, rw (q, missing, run, check_invariants) refl)
      | inr (other, (others, q)) ↦ (shared_location (other ∷ others), rw (q, run) refl)
    ]
