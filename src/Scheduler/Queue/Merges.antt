-- ===== src/Scheduler/Queue/Merges.antt =====
-- src/zamboni/scheduler.py: a merged candidate has the reasons and the operations of its two parts.
use zamboni.Base.{
  ◌≡◌, refl, sym, ◌∙◌, ap, ap₂, subst, ◌⊎◌, List, [], ◌∷◌, ◌++◌, Bool, true, ◌||◌, arith, inl, inr,
  any_of,
}
use zamboni.Scheduler.Reasons.{Reason, Reason-discrete, Operation, reason_operations, stronger}
use zamboni.Scheduler.Reasons.Unions.{runs, runs-operations_of}
use zamboni.Scheduler.Candidate.{Candidate, reasons, operations, merged, without}

stronger_cases : (a b : Reason) → (stronger a b ≡ a) ⊎ (stronger a b ≡ b)
unfolding stronger
stronger_cases a b = ground arith

module _ (p : Reason → Bool) where
  any_of-append : (xs ys : List Reason) → any_of p (xs ++ ys) ≡ (any_of p xs || any_of p ys)
  any_of-append [] ys = refl
  any_of-append (x ∷ xs) ys = ground (arith, any_of-append xs ys)

  any_of-without :
      (r : Reason) (xs : List Reason) → (p r || any_of p (without r xs)) ≡ (p r || any_of p xs)
  any_of-without r [] = refl
  any_of-without r (x ∷ xs) = elim (Reason-discrete x r) [
    | yes e ↦
        subst (λ y. (p r || any_of p (without r (y ∷ xs))) ≡ (p r || any_of p (y ∷ xs))) (sym e)
          (ground (arith, any_of-without r xs))
    | no n ↦ ground (arith, any_of-without r xs)
  ]

  picked :
      (r : Reason) (xs : List Reason)
      → (p r ≡ true → any_of p xs ≡ true)
      → any_of p (r ∷ without r xs) ≡ any_of p xs
  picked r xs h = ground (arith, any_of-without r xs)

  head_counts :
      (a b : Candidate) (r : Reason)
      → (r ≡ a.reason) ⊎ (r ≡ b.reason)
      → p r ≡ true
      → (any_of p (reasons a) || any_of p (reasons b)) ≡ true
  head_counts a b r (inl e) h = ground (arith, ap p e)
  head_counts a b r (inr e) h = ground (arith, ap p e)

  -- The reasons of a merge are those of its two parts, as a set.
  pub any_of-reasons-merged :
      (a b : Candidate)
      → any_of p (reasons (merged a b)) ≡ (any_of p (reasons a) || any_of p (reasons b))
  unfolding merged
  any_of-reasons-merged a b =
      picked (stronger a.reason b.reason) (reasons a ++ reasons b) (λ h.
        any_of-append (reasons a) (reasons b)
        ∙ head_counts a b _ (stronger_cases a.reason b.reason) h)
      ∙ any_of-append (reasons a) (reasons b)

-- A merged candidate runs an operation exactly when one of its two parts does.
pub runs-merged :
    (a b : Candidate) (o : Operation)
    → runs (operations (merged a b)) o ≡ (runs (operations a) o || runs (operations b) o)
runs-merged a b o =
    runs-operations_of (reasons (merged a b)) o
    ∙ any_of-reasons-merged (λ r. runs (reason_operations r) o) a b
    ∙ ap₂ ◌||◌ (sym (runs-operations_of (reasons a) o)) (sym (runs-operations_of (reasons b) o))
