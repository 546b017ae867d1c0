-- ===== src/Scheduler/Reasons/Unions.antt =====
-- src/zamboni/scheduler.py: what merged reasons run, and what a run covers.
use zamboni.Base.{
  ◌≡◌, refl, inl, inr, subst, Option-cases, List, [], ◌∷◌, ◌++◌, none, some, Bool, true, ◌||◌,
  arith, contains, contains-append, contains-keep, any_of,
}
use zamboni.Scheduler.Reasons.{
  Reason, Operation, Operation-discrete, compact, apply_properties, remove_dangling_deletes,
  rewrite_manifests, expire, remove_orphans, Operations, default_operations, reason_operations,
  union_from, operations_of, subset, covers,
}

-- Whether a run of these operations does one of them; `none` does every one.
abbrev pub runs : Operations → Operation → Bool
runs none o = true
runs (some operations) o = contains Operation-discrete operations o

default-contains : (o : Operation) → contains Operation-discrete default_operations o ≡ true
default-contains compact = ground arith
default-contains apply_properties = ground arith
default-contains remove_dangling_deletes = ground arith
default-contains rewrite_manifests = ground arith
default-contains expire = ground arith
default-contains remove_orphans = ground arith

runs-union_from :
    (wanted : List Operation) (rs : List Reason) (o : Operation)
    → runs (union_from wanted rs) o
      ≡ (contains Operation-discrete wanted o || any_of (λ r. runs (reason_operations r) o) rs)
unfolding union_from
runs-union_from wanted [] o = ground (
  arith,
  contains-keep Operation-discrete (contains Operation-discrete wanted) default_operations o,
  default-contains o,
)
runs-union_from wanted (r ∷ rs) o = elim (Option-cases (reason_operations r)) [
  | inl e ↦ rw e (ground arith)
  | inr (operations, e) ↦ rw e (
      ground (
        arith,
        runs-union_from (wanted ++ operations) rs o,
        contains-append Operation-discrete wanted operations o,
      ))
]

-- A run for merged reasons does an operation exactly when one of the reasons asks for it.
pub runs-operations_of :
    (rs : List Reason) (o : Operation)
    → runs (operations_of rs) o ≡ any_of (λ r. runs (reason_operations r) o) rs
unfolding operations_of
runs-operations_of rs o = runs-union_from [] rs o

subset-contains :
    (asked running : List Operation) (o : Operation)
    → subset asked running ≡ true
    → contains Operation-discrete asked o ≡ true
    → contains Operation-discrete running o ≡ true
subset-contains [] running o h m = cc
subset-contains (a ∷ asked) running o h m = elim (Operation-discrete a o) [
  | yes e ↦ subst (λ b. contains Operation-discrete running b ≡ true) e (ground arith)
  | no n ↦ subset-contains asked running o (ground arith) (ground arith)
]

-- A run that covers what is asked does every operation that is asked.
pub covers-runs :
    (running asked : Operations) (o : Operation)
    → covers running asked ≡ true
    → runs asked o ≡ true
    → runs running o ≡ true
unfolding covers
covers-runs none asked o h m = refl
covers-runs (some running) none o h m = cc
covers-runs (some running) (some asked) o h m = subset-contains asked running o h m
