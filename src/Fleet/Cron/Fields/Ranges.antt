-- ===== src/Fleet/Cron/Fields/Ranges.antt =====
-- The values of a range: `range` gives those, and only those, that its bounds and step say.
use mathlib.Core.Bool.{false≢true}
use zamboni.Base.{
  ℕ, zero, suc, ◌+◌, ◌-◌, ◌*◌, ◌≤◌, ◌≡◌, true, leb, inl, inr, ◌↔◌, Bool-cases, All, All-map,
  contains, ℕ_discrete, arith,
}
use zamboni.Fleet.Cron.Fields.{range_from, range}

-- A range has nothing out of its bounds.
suc_times : (k step : ℕ) → suc k * step ≡ step + k * step
suc_times k step = grind arith

positive : (k step : ℕ) → 0 ≤ k * step
positive k step = omega arith

range_from-All :
    (fuel step end x low : ℕ)
    → low ≤ x
    → All (λ v. (low ≤ v) × (v ≤ end)) (range_from fuel step end x)
unfolding range_from
range_from-All zero step end x low h = tt
range_from-All (suc fuel) step end x low h = elim (Bool-cases (leb x end)) [
  | inl e ↦ rw e ((h, ground arith), range_from-All fuel step end (x + step) low (omega arith))
  | inr e ↦ rw e tt
]

pub range-All :
    (start end step low high : ℕ)
    → low ≤ start
    → end ≤ high
    → All (λ v. (low ≤ v) × (v ≤ high)) (range start end step)
unfolding range
range-All start end step low high hl hh =
    All-map (λ v b. (b.0, omega arith)) (range start end step)
      (range_from-All (end + 1 - start) step end start low hl)

-- With the fuel that `range` gives, each step from the start on is in the range up to its end.
range_from-holds :
    (fuel step end x k v : ℕ)
    → 1 ≤ step
    → end + 1 ≤ x + fuel
    → v ≡ x + k * step
    → v ≤ end
    → contains ℕ_discrete (range_from fuel step end x) v ≡ true
unfolding range_from
range_from-holds zero step end x k v h f e le = absurd (ground (arith, positive k step))
range_from-holds (suc fuel) step end x zero v h f e le = ground arith
range_from-holds (suc fuel) step end x (suc k) v h f e le =
    let rest = range_from-holds fuel step end (x + step) k v h (omega arith) (grind arith) le in
    ground (arith, rest, positive k step, suc_times k step)

range_from-steps :
    (fuel step end x v : ℕ)
    → contains ℕ_discrete (range_from fuel step end x) v ≡ true
    → (k : ℕ) × ((v ≡ x + k * step) × (v ≤ end))
unfolding range_from
range_from-steps zero step end x v h = elim (false≢true h) [ ]
range_from-steps (suc fuel) step end x v h = elim (Bool-cases (leb x end)) [
  | inr e ↦ absurd (ground (arith, e))
  | inl e ↦ elim (ℕ_discrete x v) [
    | yes p ↦ (0, (omega arith, ground arith))
    | no n ↦
        let (k, (q, le)) = range_from-steps fuel step end (x + step) v (ground arith) in
        (suc k, (ground (arith, suc_times k step), le))
  ]
]

-- A range with a step of at least 1 holds a value just where it is a number of steps from the
-- start and not past the end.
pub range-contains :
    (start end step v : ℕ)
    → 1 ≤ step
    → (contains ℕ_discrete (range start end step) v ≡ true)
      ↔ ((k : ℕ) × ((v ≡ start + k * step) × (v ≤ end)))
unfolding range
range-contains start end step v h = (
  range_from-steps (end + 1 - start) step end start v,
  λ (k, (e, le)). range_from-holds (end + 1 - start) step end start k v h (omega arith) e le,
)
