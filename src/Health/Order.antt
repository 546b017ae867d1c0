-- ===== src/Health/Order.antt =====
-- Commit order does not depend on the order in which the catalog sent the snapshots.
use mathlib.Core.List.Permᴰ
use mathlib.Core.List.{Permᴰ}
use zamboni.Base.{
  ◌<◌, ◌≡◌, ◌≢◌, refl, sym, ap, ap₂, subst, ◌∙◌, List, [], ◌∷◌, leb, Bool-cases, inl, inr, All,
  All-map, Bool, keep, length, arith,
}
use zamboni.Health.{Snapshot, sequence, insert, commit_order}

-- No two snapshots share a sequence number: from format v2 on, every commit takes a new one.
abbrev pub DistinctSequences : List Snapshot → Type 0
DistinctSequences [] = Unit
DistinctSequences (s ∷ ss) = All (λ r. sequence s ≢ sequence r) ss × DistinctSequences ss

insert_comm :
    (ss : List Snapshot) (a b : Snapshot)
    → sequence a ≢ sequence b
    → insert a (insert b ss) ≡ insert b (insert a ss)
unfolding insert
insert_comm [] a b ne = ground (arith, ne)
insert_comm (s ∷ ss) a b ne = ground (arith, ne, insert_comm ss a b)

pub All-Permᴰ : (P : Snapshot → Type 0) {xs ys : List Snapshot} → Permᴰ xs ys → All P xs → All P ys
All-Permᴰ P Permᴰ.nil h = tt
All-Permᴰ P (Permᴰ.cons e d) h = (subst P e h.0, All-Permᴰ P d h.1)
All-Permᴰ P (Permᴰ.swap e f) h = (subst P f h.1.0, (subst P e h.0, h.1.1))
All-Permᴰ P (Permᴰ.trans d f) h = All-Permᴰ P f (All-Permᴰ P d h)

DistinctSequences-Permᴰ :
    {xs ys : List Snapshot} → Permᴰ xs ys → DistinctSequences xs → DistinctSequences ys
DistinctSequences-Permᴰ Permᴰ.nil h = tt
DistinctSequences-Permᴰ (Permᴰ.cons {l₂ = ys} e d) h = (
  subst (λ s. All (λ r. sequence s ≢ sequence r) ys) e (All-Permᴰ _ d h.0),
  DistinctSequences-Permᴰ d h.1,
)
DistinctSequences-Permᴰ (Permᴰ.swap {l = l} e f) h = (
  (
    λ q. h.0.0 (ap sequence e ∙ sym q ∙ ap sequence (sym f)),
    subst (λ s. All (λ r. sequence s ≢ sequence r) l) f h.1.0,
  ),
  (subst (λ s. All (λ r. sequence s ≢ sequence r) l) e h.0.1, h.1.1),
)
DistinctSequences-Permᴰ (Permᴰ.trans d f) h =
    DistinctSequences-Permᴰ f (DistinctSequences-Permᴰ d h)

pub commit_order-Permᴰ :
    {xs ys : List Snapshot} → Permᴰ xs ys → DistinctSequences xs → commit_order xs ≡ commit_order ys
unfolding commit_order
commit_order-Permᴰ Permᴰ.nil h = refl
commit_order-Permᴰ (Permᴰ.cons e d) h = ap₂ insert e (commit_order-Permᴰ d h.1)
commit_order-Permᴰ (Permᴰ.swap {a = a} {b = b} {l = l} e f) h =
    insert_comm (commit_order l) a b h.0.0 ∙ ap₂ insert f (ap (λ s. insert s (commit_order l)) e)
commit_order-Permᴰ (Permᴰ.trans d f) h =
    commit_order-Permᴰ d h ∙ commit_order-Permᴰ f (DistinctSequences-Permᴰ d h)

-- Each entry has a smaller sequence number than all that follow.
abbrev pub Ascending : List Snapshot → Type 0
Ascending [] = Unit
Ascending (s ∷ ss) = All (λ r. sequence s < sequence r) ss × Ascending ss

pub insert-All :
    (P : Snapshot → Type 0) (ss : List Snapshot) (s : Snapshot)
    → P s
    → All P ss
    → All P (insert s ss)
unfolding insert
insert-All P [] s p h = (p, tt)
insert-All P (r ∷ ss) s p h = elim (Bool-cases (leb (sequence s) (sequence r))) [
  | inl e ↦ rw e (p, h)
  | inr e ↦ rw e (h.0, insert-All P ss s p h.1)
]

insert-Ascending :
    (ss : List Snapshot) (s : Snapshot)
    → All (λ r. sequence s ≢ sequence r) ss
    → Ascending ss
    → Ascending (insert s ss)
unfolding insert
insert-Ascending [] s ne h = (tt, tt)
insert-Ascending (r ∷ ss) s ne h = elim (Bool-cases (leb (sequence s) (sequence r))) [
  | inl e ↦ rw e ((ground (arith, e, ne.0), All-map (λ q lt. ground (arith, e, lt)) ss h.0), h)
  | inr e ↦ rw e (
    insert-All (λ q. sequence r < sequence q) ss s (ground (arith, e)) h.0,
    insert-Ascending ss s ne.1 h.1,
  )
]

pub commit_order-All :
    (P : Snapshot → Type 0) (ss : List Snapshot) → All P ss → All P (commit_order ss)
unfolding commit_order
commit_order-All P [] h = tt
commit_order-All P (s ∷ ss) h = insert-All P (commit_order ss) s h.0 (commit_order-All P ss h.1)

-- Snapshots with distinct sequence numbers come out in ascending order.
pub commit_order-Ascending :
    (ss : List Snapshot) → DistinctSequences ss → Ascending (commit_order ss)
unfolding commit_order
commit_order-Ascending [] d = tt
commit_order-Ascending (s ∷ ss) d =
    insert-Ascending (commit_order ss) s (commit_order-All (λ r. sequence s ≢ sequence r) ss d.0)
      (commit_order-Ascending ss d.1)

insert-Permᴰ : (ss : List Snapshot) (s : Snapshot) → Permᴰ (s ∷ ss) (insert s ss)
unfolding insert
insert-Permᴰ [] s = Permᴰ.refl (s ∷ [])
insert-Permᴰ (r ∷ ss) s = elim (Bool-cases (leb (sequence s) (sequence r))) [
  | inl e ↦ rw e (Permᴰ.refl (s ∷ r ∷ ss))
  | inr e ↦ rw e (Permᴰ.trans (Permᴰ.swap refl refl) (Permᴰ.cons refl (insert-Permᴰ ss s)))
]

-- Sorting gives the snapshots that there were.
pub commit_order-shuffles : (ss : List Snapshot) → Permᴰ ss (commit_order ss)
unfolding commit_order
commit_order-shuffles [] = Permᴰ.nil
commit_order-shuffles (s ∷ ss) =
    Permᴰ.trans (Permᴰ.cons refl (commit_order-shuffles ss)) (insert-Permᴰ (commit_order ss) s)

pub length-Permᴰ : {xs ys : List Snapshot} → Permᴰ xs ys → length xs ≡ length ys
length-Permᴰ Permᴰ.nil = refl
length-Permᴰ (Permᴰ.cons e d) = omega (arith, length-Permᴰ d)
length-Permᴰ (Permᴰ.swap e f) = refl
length-Permᴰ (Permᴰ.trans d f) = length-Permᴰ d ∙ length-Permᴰ f

keep-cons :
    (p : Snapshot → Bool) (xs ys : List Snapshot) {a b : Snapshot}
    → a ≡ b
    → Permᴰ (keep p xs) (keep p ys)
    → Permᴰ (keep p (a ∷ xs)) (keep p (b ∷ ys))
keep-cons p xs ys {a} {b} e d =
    subst (λ c. Permᴰ (keep p (a ∷ xs)) (keep p (c ∷ ys))) e
      (elim (Bool-cases (p a)) [ inl q ↦ rw q (Permᴰ.cons refl d) | inr q ↦ rw q d ])

keep-swap :
    (p : Snapshot → Bool) (a b : Snapshot) (xs : List Snapshot)
    → Permᴰ (keep p (a ∷ b ∷ xs)) (keep p (b ∷ a ∷ xs))
keep-swap p a b xs = elim (Bool-cases (p a)) [
  | inl q ↦ elim (Bool-cases (p b)) [
    | inl r ↦ rw (q, r) (Permᴰ.swap refl refl)
    | inr r ↦ rw (q, r) (Permᴰ.refl (a ∷ keep p xs))
  ]
  | inr q ↦ elim (Bool-cases (p b)) [
    | inl r ↦ rw (q, r) (Permᴰ.refl (b ∷ keep p xs))
    | inr r ↦ rw (q, r) (Permᴰ.refl (keep p xs))
  ]
]

-- A filter keeps the same entries of a list in another order.
pub keep-Permᴰ :
    (p : Snapshot → Bool) {xs ys : List Snapshot} → Permᴰ xs ys → Permᴰ (keep p xs) (keep p ys)
keep-Permᴰ p Permᴰ.nil = Permᴰ.nil
keep-Permᴰ p (Permᴰ.cons {l₁ = xs} {l₂ = ys} e d) = keep-cons p xs ys e (keep-Permᴰ p d)
keep-Permᴰ p (Permᴰ.swap {a = a} {b = b} {a' = b2} {b' = a2} {l = l} e f) =
    Permᴰ.trans (keep-swap p a b l)
      (keep-cons p (a ∷ l) (a2 ∷ l) f (keep-cons p l l e (Permᴰ.refl (keep p l))))
keep-Permᴰ p (Permᴰ.trans d f) = Permᴰ.trans (keep-Permᴰ p d) (keep-Permᴰ p f)
