-- ===== src/Maintenance/Counters.antt =====
-- src/zamboni/maintenance.py: MaintenanceReport.counters, RunCounters, `tables` and `failures`.
use zamboni.Base.{
  ℕ, suc, ◌+◌, ◌≤◌, ◌<◌, ◌≡◌, refl, sym, ap, ◌∙◌, ◌↔◌, String, List, [], ◌∷◌, true, some, or_else,
  leb, ◌==◌, if◌then◌else◌, length, contains, text_discrete, if_pos, if_neg, arith,
}
use zamboni.Base.Dict.{Dict, get, put}
use zamboni.Scheduler.Reasons.{Operation, Operation-discrete}
use zamboni.Maintenance.{
  Outcome, WorkState, skipped, maintained_work, failed_work, work_state, exit_code,
}

abbrev pub Pair : Type 0
Pair = String × Operation

pair_parts_dec :
    {a c : String} {b d : Operation}
    → Dec (a ≡ c)
    → Dec (b ≡ d)
    → Dec (◌≡◌ {A = Pair} (a, b) (c, d))
pair_parts_dec (yes p) (yes q) = yes (λ i. (p i, q i))
pair_parts_dec (no p) _ = no (λ e. p (λ i. (e i).0))
pair_parts_dec (yes p) (no q) = no (λ e. q (λ i. (e i).1))

unfoldable pub pair_discrete : Discrete Pair
unfolding pair_parts_dec
pair_discrete (a, b) (c, d) = pair_parts_dec (text_discrete a c) (Operation-discrete b d)

-- `_WORK_STATES.index(state)`
abbrev pub rank : WorkState → ℕ
rank skipped = 0
rank maintained_work = 1
rank failed_work = 2

abbrev pub pair_of : Outcome → Pair
pair_of o = (o.table, o.operation)

-- The round of the first loop of `counters`: the worse state of a pair wins.
unfoldable pub worse : Dict Pair WorkState → Outcome → Dict Pair WorkState
worse worst o =
    let key = pair_of o in
    let state = work_state o in
    if leb (rank (or_else (get pair_discrete worst key) skipped)) (rank state)
    then put pair_discrete worst key state
    else worst

unfoldable pub worst_from : Dict Pair WorkState → List Outcome → Dict Pair WorkState
worst_from worst [] = worst
worst_from worst (o ∷ os) = worst_from (worse worst o) os

-- `tally[state]`
unfoldable pub tally : WorkState → Dict Pair WorkState → ℕ
tally state [] = 0
tally state ((k, s) ∷ worst) =
    if rank s == rank state then suc (tally state worst) else tally state worst

-- The loop of `tables`, over the ones seen.
unfoldable pub tables_from : List String → List Outcome → List String
tables_from seen [] = []
tables_from seen (o ∷ os) =
    if contains text_discrete seen o.table
    then tables_from seen os
    else o.table ∷ tables_from (o.table ∷ seen) os

abbrev pub tables : List Outcome → List String
tables os = tables_from [] os

pub record RunCounters : Type 0 where
  pub tables : ℕ
  pub considered : ℕ
  pub skips : ℕ
  pub maintains : ℕ
  pub failures : ℕ

unfoldable pub counters : List Outcome → RunCounters
counters os =
    let worst = worst_from [] os in
    record {
      tables = length (tables os);
      considered = length worst;
      skips = tally skipped worst;
      maintains = tally maintained_work worst;
      failures = tally failed_work worst;
    }

tally-sum :
    (worst : Dict Pair WorkState)
    → length worst ≡ tally skipped worst + tally maintained_work worst + tally failed_work worst
unfolding tally
tally-sum [] = refl
tally-sum ((k, skipped) ∷ worst) = omega (arith, tally-sum worst)
tally-sum ((k, maintained_work) ∷ worst) = omega (arith, tally-sum worst)
tally-sum ((k, failed_work) ∷ worst) = omega (arith, tally-sum worst)

-- The buckets partition what was considered.
pub counters-partition :
    (os : List Outcome)
    → (counters os).considered
      ≡ (counters os).skips + (counters os).maintains + (counters os).failures
unfolding counters
counters-partition os = tally-sum (worst_from [] os)

put-same :
    (worst : Dict Pair WorkState) (j k : Pair) (w s : WorkState)
    → ◌≡◌ {A = Pair} j k
    → put pair_discrete ((j, w) ∷ worst) k s ≡ (j, s) ∷ worst
unfolding put
put-same worst j k w s p = if_pos (pair_discrete j k) p _ _

put-other :
    (worst : Dict Pair WorkState) (j k : Pair) (w s : WorkState)
    → ¬ (◌≡◌ {A = Pair} j k)
    → put pair_discrete ((j, w) ∷ worst) k s ≡ (j, w) ∷ put pair_discrete worst k s
unfolding put
put-other worst j k w s n = if_neg (pair_discrete j k) n _ _

get-same :
    (worst : Dict Pair WorkState) (j k : Pair) (w : WorkState)
    → ◌≡◌ {A = Pair} j k
    → get pair_discrete ((j, w) ∷ worst) k ≡ some w
unfolding get
get-same worst j k w p = if_pos (pair_discrete j k) p _ _

get-other :
    (worst : Dict Pair WorkState) (j k : Pair) (w : WorkState)
    → ¬ (◌≡◌ {A = Pair} j k)
    → get pair_discrete ((j, w) ∷ worst) k ≡ get pair_discrete worst k
unfolding get
get-other worst j k w n = if_neg (pair_discrete j k) n _ _

-- A worse state of a pair takes no failure away.
put-tally :
    (worst : Dict Pair WorkState) (k : Pair) (s : WorkState)
    → leb (rank (or_else (get pair_discrete worst k) skipped)) (rank s) ≡ true
    → tally failed_work worst ≤ tally failed_work (put pair_discrete worst k s)
unfolding tally
put-tally [] k s h = omega arith
put-tally ((j, w) ∷ worst) k s h = elim (pair_discrete j k) [
  | yes p ↦ rw (put-same worst j k w s p) (
      ground (arith, ap (λ g. leb (rank (or_else g skipped)) (rank s)) (get-same worst j k w p), h))
  | no n ↦ rw (put-other worst j k w s n) (
      ground (
        arith,
        put-tally worst k s
            (ap (λ g. leb (rank (or_else g skipped)) (rank s)) (sym (get-other worst j k w n)) ∙ h),
      ))
]

put-failed :
    (worst : Dict Pair WorkState) (k : Pair) (s : WorkState)
    → rank s ≡ 2
    → 0 < tally failed_work (put pair_discrete worst k s)
unfolding tally put
put-failed [] k s h = ground (arith, h)
put-failed ((j, w) ∷ worst) k s h = elim (pair_discrete j k) [
  | yes p ↦ rw (put-same worst j k w s p) (ground (arith, h))
  | no n ↦ rw (put-other worst j k w s n) (ground (arith, put-failed worst k s h))
]

-- A state that is no failure adds none.
put_sound :
    (worst : Dict Pair WorkState) (k : Pair) (s : WorkState)
    → rank s < 2
    → tally failed_work (put pair_discrete worst k s) ≤ tally failed_work worst
unfolding tally put
put_sound [] k s h = ground (arith, h)
put_sound ((j, w) ∷ worst) k s h = elim (pair_discrete j k) [
  | yes p ↦ rw (put-same worst j k w s p) (ground (arith, h))
  | no n ↦ rw (put-other worst j k w s n) (ground (arith, put_sound worst k s h))
]

work_state-failed : (o : Outcome) → (rank (work_state o) ≡ 2) ↔ (0 < o.exit_code)
unfolding work_state
work_state-failed o = ground arith

worse_sound :
    (worst : Dict Pair WorkState) (o : Outcome)
    → o.exit_code ≡ 0
    → tally failed_work (worse worst o) ≤ tally failed_work worst
unfolding worse
worse_sound worst o h =
    ground (arith, put_sound worst (pair_of o) (work_state o), work_state-failed o)

worse_mono :
    (worst : Dict Pair WorkState) (o : Outcome)
    → tally failed_work worst ≤ tally failed_work (worse worst o)
unfolding worse
worse_mono worst o = ground (arith, put-tally worst (pair_of o) (work_state o))

rank-le : (s : WorkState) → rank s ≤ 2
rank-le s = ground arith

worse-failed :
    (worst : Dict Pair WorkState) (o : Outcome)
    → 0 < o.exit_code
    → 0 < tally failed_work (worse worst o)
unfolding worse
worse-failed worst o h = ground (
  arith,
  put-failed worst (pair_of o) (work_state o),
  work_state-failed o,
  rank-le (or_else (get pair_discrete worst (pair_of o)) skipped),
)

worst_from_mono :
    (os : List Outcome) (worst : Dict Pair WorkState)
    → tally failed_work worst ≤ tally failed_work (worst_from worst os)
unfolding worst_from
worst_from_mono [] worst = omega arith
worst_from_mono (o ∷ os) worst =
    omega (arith, worst_from_mono os (worse worst o), worse_mono worst o)

-- Without an exit code no failure is added.
worst_from_sound :
    (os : List Outcome) (worst : Dict Pair WorkState)
    → exit_code os ≡ 0
    → tally failed_work (worst_from worst os) ≤ tally failed_work worst
unfolding worst_from exit_code
worst_from_sound [] worst h = omega arith
worst_from_sound (o ∷ os) worst h =
    omega
      (arith, worst_from_sound os (worse worst o) (omega arith), worse_sound worst o (omega arith))

-- Where no failure is counted, no outcome has an exit code.
worst_from-failed :
    (os : List Outcome) (worst : Dict Pair WorkState)
    → tally failed_work (worst_from worst os) ≡ 0
    → exit_code os ≡ 0
unfolding worst_from exit_code
worst_from-failed [] worst h = refl
worst_from-failed (o ∷ os) worst h = ground (
  arith,
  worst_from-failed os (worse worst o) h,
  worst_from_mono os (worse worst o),
  worse-failed worst o,
)

-- The exit code of a report is zero just where its counters show no failure.
pub exit_code-counters : (os : List Outcome) → (exit_code os ≡ 0) ↔ ((counters os).failures ≡ 0)
unfolding counters tally
exit_code-counters os = (λ h. omega (arith, worst_from_sound os [] h), worst_from-failed os [])
