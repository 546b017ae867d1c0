-- ===== src/Pool/Limits.antt =====
-- src/zamboni/pool.py: the time limit of a run, and the workers' shares of the spill budget.
use native.Mathlib.Nat.{mul-div-le, le-div_iff_mul-le}
use zamboni.Base.{
  ℕ, ◌*◌, ◌/◌, ◌≤◌, ◌<◌, ◌≡◌, refl, sym, ◌∙◌, subst, max, List, [], ◌∷◌, Option, none, some, true,
  arith, inl, inr, ltb, leb, ltb→lt, Bool-cases, Option-cases, map, All, ◌⊎◌,
}
use zamboni.Scheduler.Reasons.{Reason, Reason-discrete}
use zamboni.Scheduler.WorkItem.{WorkItem, reasons}
use zamboni.Base.{contains}
use zamboni.Pool.{PoolSize, spill_share, longest, time_limit}

-- The limit allows at least as long; no limit allows any time.
abbrev pub Allows : Option ℕ → Option ℕ → Type 0
Allows none limit = Unit
Allows (some n) none = ⊥
Allows (some n) (some m) = m ≤ n

Allows-max :
    (limits : List (Option ℕ)) (n : ℕ) (m : ℕ)
    → All (Allows (some m)) limits
    → All (Allows (some (max n m))) limits
Allows-max [] n m h = tt
Allows-max (none ∷ limits) n m h = elim h.0 [ ]
Allows-max (some k ∷ limits) n m h = (omega (arith, h.0), Allows-max limits n m h.1)

Allows-none : (limits : List (Option ℕ)) → All (Allows none) limits
Allows-none [] = tt
Allows-none (n ∷ limits) = (tt, Allows-none limits)

longest-Allows : (limits : List (Option ℕ)) → All (Allows (longest limits)) limits
unfolding longest
longest-Allows [] = tt
longest-Allows (none ∷ limits) = (tt, Allows-none limits)
longest-Allows (some n ∷ limits) = by_rest (longest limits) (longest-Allows limits)
  where
    by_rest :
        (rest : Option ℕ)
        → All (Allows rest) limits
        → All (Allows (elim rest [ none ↦ none | some m ↦ some (max n m) ])) (some n ∷ limits)
    by_rest none h = (tt, h)
    by_rest (some m) h = (omega arith, Allows-max limits n m h)

longest-cons-none : (limits : List (Option ℕ)) → longest (none ∷ limits) ≡ none
unfolding longest
longest-cons-none limits = refl

longest-cons :
    (n : ℕ) (limits : List (Option ℕ)) (m : ℕ)
    → longest limits ≡ some m
    → longest (some n ∷ limits) ≡ some (max n m)
unfolding longest
longest-cons n limits m e = rw (e, longest) refl

longest-cons-open :
    (n : ℕ) (limits : List (Option ℕ)) → longest limits ≡ none → longest (some n ∷ limits) ≡ none
unfolding longest
longest-cons-open n limits e = rw (e, longest) refl

longest-one : (o : Option ℕ) → longest (o ∷ []) ≡ o
unfolding longest
longest-one none = refl
longest-one (some n) = ground arith

-- One of the reasons has the limit.
abbrev pub HasLimit : (Reason → Option ℕ) → List Reason → Option ℕ → Type 0
HasLimit f rs limit = (s : Reason) × (contains Reason-discrete rs s ≡ true) × (f s ≡ limit)

HasLimit-cons :
    (f : Reason → Option ℕ) (r : Reason) (rs : List Reason) (limit : Option ℕ)
    → HasLimit f rs limit
    → HasLimit f (r ∷ rs) limit
HasLimit-cons f r rs limit (s, here, e) = (s, ground arith, e)

longest-HasLimit :
    (f : Reason → Option ℕ) (r : Reason) (rs : List Reason)
    → HasLimit f (r ∷ rs) (longest (map f (r ∷ rs)))
longest-HasLimit f r [] = (r, ground arith, sym (longest-one (f r)))
longest-HasLimit f r (s ∷ rs) = elim (Option-cases (f r)) [
  | inl open_end ↦
      (r, ground arith, open_end ∙ sym (rw open_end (longest-cons-none (map f (s ∷ rs)))))
  | inr (n, e) ↦ elim (Option-cases (longest (map f (s ∷ rs)))) [
    | inl rest ↦ HasLimit-cons f r (s ∷ rs) _ (
        rw (e, longest-cons-open n (map f (s ∷ rs)) rest)
          (subst (HasLimit f (s ∷ rs)) rest (longest-HasLimit f s rs)))
    | inr (m, rest) ↦ elim (Bool-cases (leb m n)) [
      | inl longer ↦
          (r, ground arith, e ∙ sym (rw (e, longest-cons n (map f (s ∷ rs)) m rest) (ground arith)))
      | inr shorter ↦ HasLimit-cons f r (s ∷ rs) _ (
          rw (e, longest-cons n (map f (s ∷ rs)) m rest)
            (subst (HasLimit f (s ∷ rs)) (rest ∙ ground arith) (longest-HasLimit f s rs)))
    ]
  ]
]

All-of-map :
    (f : Reason → Option ℕ) (limit : Option ℕ) (rs : List Reason)
    → All (Allows limit) (map f rs)
    → (r : Reason) → contains Reason-discrete rs r ≡ true
    → Allows limit (f r)
All-of-map f limit [] h r e = ground arith
All-of-map f limit (s ∷ rs) h r e = elim (Reason-discrete s r) [
  | yes same ↦ subst (λ q. Allows limit (f q)) same h.0
  | no other ↦ All-of-map f limit rs h.1 r (ground arith)
]

-- A merged item may run at least as long as each of its reasons allows, without limit where one of
-- them has none, and its limit is that of one of its reasons.
pub time_limit_lem :
    (table_timeout : Reason → Option ℕ) (item : WorkItem)
    → ((r : Reason)
        → contains Reason-discrete (reasons item) r ≡ true
        → Allows (time_limit table_timeout item) (table_timeout r))
      × HasLimit table_timeout (reasons item) (time_limit table_timeout item)
unfolding time_limit
time_limit_lem f item = (
  All-of-map f _ (reasons item) (longest-Allows (map f (reasons item))),
  longest-HasLimit f item.reason item.also,
)

-- For a pool with a worker, the spill budget is refused when it is less than a byte for each
-- worker; otherwise each worker gets a byte or more, and the workers together no more than the
-- budget.
pub spill_share_lem :
    (size : PoolSize) (budget : ℕ)
    → 1 ≤ size.workers
    → ((budget < size.workers) × (spill_share size (some budget) ≡ none))
      ⊎ ((n : ℕ) × (spill_share size (some budget) ≡ some (some n))
          × (1 ≤ n)
          × (size.workers * n ≤ budget))
unfolding spill_share
spill_share_lem size budget h = elim (Bool-cases (ltb budget size.workers)) [
  | inl short ↦ inl (ltb→lt _ _ short, ground arith)
  | inr enough ↦ inr (
    budget / size.workers,
    ground arith,
    (le-div_iff_mul-le {k = size.workers} {x = 1} {y = budget} h).1 (ground arith),
    mul-div-le budget size.workers,
  )
]
