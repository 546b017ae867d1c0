-- ===== src/Orphans/Accounts.antt =====
-- What the report of orphan removal adds up to.
use zamboni.Base.{
  ℕ, ◌+◌, ◌≡◌, refl, sym, subst, inl, inr, String, List, [], ◌∷◌, Bool, true, false, Bool-cases,
  length, arith,
}
use zamboni.Orphans.{
  StorageFile, Seen, OrphanCleaner, OrphanResult, done, is_young, orphans_of, young_of,
  candidates_of, deleted_of, failed_of, counted_by, failed_by, result_of, clean, run, bytes,
}
use zamboni.Orphans.Removals.{run-done}

-- Orphans are young or candidates, with their sizes.
split_by_age :
    (es : List (String × StorageFile)) (c : OrphanCleaner) (now : ℕ)
    → (length es ≡ length (young_of c now es) + length (candidates_of c now es))
      × (bytes es ≡ bytes (young_of c now es) + bytes (candidates_of c now es))
unfolding young_of candidates_of
split_by_age [] c now = (refl, refl)
split_by_age (e ∷ es) c now = elim (Bool-cases (is_young c now e.1)) [
  | inl y ↦ rw y (omega (arith, split_by_age es c now), omega (arith, split_by_age es c now))
  | inr y ↦ rw y (omega (arith, split_by_age es c now), omega (arith, split_by_age es c now))
]

-- Each deletion succeeds or fails.
tried :
    (es : List (String × StorageFile)) (deletes : String → Bool)
    → length es ≡ length (deleted_of deletes es) + failed_of deletes es
unfolding deleted_of failed_of
tried [] deletes = refl
tried (e ∷ es) deletes = elim (Bool-cases (deletes e.1.location)) [
  | inl d ↦ rw d (omega (arith, tried es deletes))
  | inr d ↦ rw d (omega (arith, tried es deletes))
]

counted_by-length :
    (dry : Bool) (es : List (String × StorageFile)) (deletes : String → Bool)
    → length es ≡ length (counted_by dry deletes es) + failed_by dry deletes es
unfolding counted_by failed_by
counted_by-length true es deletes = omega arith
counted_by-length false es deletes = tried es deletes

clean-counts :
    (c : OrphanCleaner) (deletes : String → Bool) (now : ℕ) (s : Seen)
    → (clean c deletes now s).orphans
      ≡ (clean c deletes now s).too_young
        + (clean c deletes now s).deleted
        + (clean c deletes now s).failed
unfolding clean result_of
clean-counts c deletes now s =
    let orphans = orphans_of s s.storage in
    omega (
      arith,
      split_by_age orphans c now,
      counted_by-length c.dry_run (candidates_of c now orphans) deletes,
    )

-- In the result of orphan removal, the orphans are as many as those too young, those deleted and
-- those that failed to be deleted together.
pub run-counts :
    (c : OrphanCleaner) (deletes : String → Bool) (now : ℕ) (s : Seen) (r : OrphanResult)
    → run c deletes now s ≡ done r
    → r.orphans ≡ r.too_young + r.deleted + r.failed
run-counts c deletes now s r e =
    subst (λ q. q.orphans ≡ q.too_young + q.deleted + q.failed) (sym (run-done c deletes now s r e))
      (clean-counts c deletes now s)
