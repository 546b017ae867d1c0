-- ===== src/Quarantine/Streak.antt =====
-- src/zamboni/quarantine.py: what a table's failures in a row, and its sound runs, do to its admission.
use native.Mathlib.Nat.{pow-suc}
use zamboni.Base.{
  ℕ, zero, suc, min, ◌+◌, ◌-◌, ◌*◌, ◌^◌, ◌≤◌, ◌<◌, ◌≡◌, refl, ◌∙◌, subst, if_pos, String, List, [],
  ◌∷◌, Option, none, some, true, false, ◌||◌, arith, inl, inr, text_discrete, ltb, leb, ltb→lt,
  if◌then◌else◌, contains, or_else, Bool-cases, length, All,
}
use zamboni.Base.Dict.{get, get-put}
use zamboni.Scheduler.Reasons.{Reason-discrete, manual}
use zamboni.Scheduler.Candidate.{Candidate, reasons}
use zamboni.Quarantine.{
  Quarantine, QuarantineState, ItemResult, is_sound, longest, backoff_after, state_after, failed,
  cleared, finished, table_key, admits,
}
use zamboni.Quarantine.Backoff.{
  IsSound, Fits, failures_of, failed-below, failed-over, finished-IsSound,
}

-- The key of the table that a run was of.
abbrev pub key_of : ItemResult → String
key_of r = table_key r.item.warehouse r.item.table

-- The run counts as a failure of its table.
abbrev pub Fails : ItemResult → Type 0
Fails r = (r.dropped ≡ none) × (is_sound r.exit_code ≡ false)

-- The state after a sequence of runs, each with the time at which it ended.
abbrev pub after_runs : Quarantine → List (ItemResult × ℕ) → Quarantine
after_runs q [] = q
after_runs q ((r, now) ∷ rs) = after_runs (finished q r now).0 rs

power-positive : (n : ℕ) → 1 ≤ 2 ^ n
power-positive zero = omega arith
power-positive (suc n) = omega (arith, power-positive n, pow-suc 2 n)

scaled-le : (b p : ℕ) → 1 ≤ p → b ≤ b * p
scaled-le b zero h = elim h [ ]
scaled-le b (suc p) h = omega arith

backoff_after-bounds :
    (b most after n s : ℕ) → b ≤ most → backoff_after b most after n ≡ some s → (b ≤ s) × (s ≤ most)
unfolding backoff_after
backoff_after-bounds b most after n s h e =
    let same : min (b * 2 ^ (n - after)) most ≡ s = ground (arith, e) in
    (omega (arith, same, scaled-le b (2 ^ (n - after)) (power-positive (n - after))), ground arith)

-- Where the product does not raise, the backoff is the product or the most.
backoff_after-fits :
    (b most after n : ℕ)
    → b * 2 ^ (n - after) ≤ longest
    → backoff_after b most after n ≡ some (min (b * 2 ^ (n - after)) most)
unfolding backoff_after
backoff_after-fits b most after n h = ground (arith, h)

held-bounds :
    (b most : ℕ) (after count : Option ℕ) (held : Option QuarantineState) (s : QuarantineState)
    → b ≤ most
    → Fits b most after count held
    → held ≡ some s
    → (b ≤ s.backoff) × (s.backoff ≤ most)
held-bounds b most none count held s h f e = ground arith
held-bounds b most (some a) count none s h f e = ground arith
held-bounds b most (some a) count (some t) s h f e =
    ground (arith, backoff_after-bounds b most a t.failures t.backoff h f.2)

-- In a sound state, the backoff of a quarantined table is between the first backoff and the most.
pub quarantined-bounds :
    (q : Quarantine) (k : String) (s : QuarantineState)
    → IsSound q
    → get text_discrete q.quarantined k ≡ some s
    → (q.backoff ≤ s.backoff) × (s.backoff ≤ q.most)
quarantined-bounds q k s v h = held-bounds q.backoff q.most q.threshold _ _ s v.ceiling (v.fits k) h

pub finished-Fails :
    (q : Quarantine) (r : ItemResult) (now : ℕ)
    → Fails r
    → finished q r now ≡ failed q (key_of r) r now
unfolding finished
finished-Fails q r now h = rw (h.0, finished, h.1) refl

pub finished_sound :
    (q : Quarantine) (r : ItemResult) (now : ℕ)
    → r.dropped ≡ none
    → is_sound r.exit_code ≡ true
    → finished q r now ≡ cleared q (key_of r)
unfolding finished
finished_sound q r now h e = rw (h, finished, e) refl

-- In a sound state, a table with fewer failures than the threshold is not quarantined.
free-Fits :
    (b m after n : ℕ) (count : Option ℕ) (held : Option QuarantineState)
    → Fits b m (some after) count held
    → or_else count 0 < after
    → held ≡ none
free-Fits b m after n count none f h = refl
free-Fits b m after n count (some s) f h = absurd (omega (arith, f.0, f.1, h))

module _ (q : Quarantine) (r : ItemResult) (now after : ℕ) (v : IsSound q)
    (e : q.threshold ≡ some after) (h : Fails r)
    (fits : q.backoff * 2 ^ (failures_of q (key_of r) + 1 - after) ≤ longest) where
  abbrev backoff_now : ℕ
  backoff_now = min (q.backoff * 2 ^ (failures_of q (key_of r) + 1 - after)) q.most

  held-after : get text_discrete (finished q r now).0.quarantined (key_of r) ≡ (
      if ltb (failures_of q (key_of r) + 1) after
      then none
      else some (state_after r now (failures_of q (key_of r) + 1) backoff_now))
  held-after = elim (Bool-cases (ltb (failures_of q (key_of r) + 1) after)) [
    | inl below ↦
        rw
          (
            finished-Fails q r now h,
            failed-below q (key_of r) r now after e (ltb→lt _ _ below),
            below,
          )
          (free-Fits q.backoff q.most after 0 (get text_discrete q.failures (key_of r)) _
            (rw e at (v.fits (key_of r))) (ground arith))
    | inr over ↦
        rw
          (
            finished-Fails q r now h,
            failed-over q (key_of r) r now after backoff_now e (ground arith)
                (backoff_after-fits q.backoff q.most after (failures_of q (key_of r) + 1) fits),
            over,
            get-put,
            if_pos _ refl,
          )
          refl
  ]

failed-count :
    (q : Quarantine) (k : String) (r : ItemResult) (now : ℕ)
    → failures_of (failed q k r now).0 k ≡ failures_of q k + 1
unfolding failed
failed-count q k r now = ground (arith, get-put text_discrete q.failures k k (failures_of q k + 1))

count-after :
    (q : Quarantine) (r : ItemResult) (now : ℕ)
    → Fails r
    → failures_of (finished q r now).0 (key_of r) ≡ failures_of q (key_of r) + 1
count-after q r now h = rw (finished-Fails q r now h) (failed-count q (key_of r) r now)

-- Each of the runs failed, and each was of the table under this key.
abbrev pub AllFail : String → List (ItemResult × ℕ) → Type 0
AllFail k rs = All (λ run. (key_of run.0 ≡ k) × Fails run.0) rs

after_runs-IsSound :
    (rs : List (ItemResult × ℕ)) (q : Quarantine) → IsSound q → IsSound (after_runs q rs)
after_runs-IsSound [] q v = v
after_runs-IsSound ((r, now) ∷ rs) q v =
    after_runs-IsSound rs (finished q r now).0 (finished-IsSound q r now v)

finished-threshold :
    (q : Quarantine) (r : ItemResult) (now : ℕ) → (finished q r now).0.threshold ≡ q.threshold
unfolding finished failed cleared
finished-threshold q r now = ground arith

finished-backoff :
    (q : Quarantine) (r : ItemResult) (now : ℕ) → (finished q r now).0.backoff ≡ q.backoff
unfolding finished failed cleared
finished-backoff q r now = ground arith

finished-most : (q : Quarantine) (r : ItemResult) (now : ℕ) → (finished q r now).0.most ≡ q.most
unfolding finished failed cleared
finished-most q r now = ground arith

after_runs-threshold :
    (rs : List (ItemResult × ℕ)) (q : Quarantine) → (after_runs q rs).threshold ≡ q.threshold
after_runs-threshold [] q = refl
after_runs-threshold ((r, now) ∷ rs) q =
    after_runs-threshold rs (finished q r now).0 ∙ finished-threshold q r now

after_runs-backoff :
    (rs : List (ItemResult × ℕ)) (q : Quarantine) → (after_runs q rs).backoff ≡ q.backoff
after_runs-backoff [] q = refl
after_runs-backoff ((r, now) ∷ rs) q =
    after_runs-backoff rs (finished q r now).0 ∙ finished-backoff q r now

after_runs-most : (rs : List (ItemResult × ℕ)) (q : Quarantine) → (after_runs q rs).most ≡ q.most
after_runs-most [] q = refl
after_runs-most ((r, now) ∷ rs) q = after_runs-most rs (finished q r now).0 ∙ finished-most q r now

after_runs-count :
    (k : String) (rs : List (ItemResult × ℕ)) (q : Quarantine)
    → AllFail k rs
    → failures_of (after_runs q rs) k ≡ failures_of q k + length rs
after_runs-count k [] q h = omega arith
after_runs-count k ((r, now) ∷ rs) q h =
    after_runs-count k rs (finished q r now).0 h.1
    ∙ omega (
      arith,
      subst (λ j. failures_of (finished q r now).0 j ≡ failures_of q j + 1) h.0.0
          (count-after q r now h.0.1),
    )

-- A failing run of the candidate's table: below the threshold it changes nothing, from it on the
-- candidate waits for the backoff, unless someone asked for it by hand.
admits-Fails :
    (q : Quarantine) (r : ItemResult) (now after : ℕ) (c : Candidate) (t : ℕ)
    → IsSound q
    → q.threshold ≡ some after
    → Fails r
    → q.backoff * 2 ^ (failures_of q (key_of r) + 1 - after) ≤ longest
    → table_key c.warehouse c.table ≡ key_of r
    → admits (finished q r now).0 c t ≡ (
        contains Reason-discrete (reasons c) manual
        || ltb (failures_of q (key_of r) + 1) after
        || leb (now + min (q.backoff * 2 ^ (failures_of q (key_of r) + 1 - after)) q.most) t)
unfolding admits
admits-Fails q r now after c t v e h fits same =
    rw (same, held-after q r now after v e h fits) (ground arith)

-- For a table with no failures in a row in a sound state with a threshold: after a sequence of its
-- failing runs, the last of which ended at `now`, and whose doubled backoff is within what a
-- `timedelta` holds, its candidate is admitted at `t` exactly when it was asked for by hand, or
-- the sequence is shorter than the threshold, or since `now` the first backoff has passed, doubled
-- for each failure past the threshold and at most the ceiling.
pub failing_runs-admits :
    (q : Quarantine) (rs : List (ItemResult × ℕ)) (r : ItemResult) (now after : ℕ) (c : Candidate)
    (t : ℕ)
    → IsSound q
    → q.threshold ≡ some after
    → failures_of q (key_of r) ≡ 0
    → AllFail (key_of r) rs
    → Fails r
    → q.backoff * 2 ^ (length rs + 1 - after) ≤ longest
    → table_key c.warehouse c.table ≡ key_of r
    → admits (finished (after_runs q rs) r now).0 c t ≡ (
        contains Reason-discrete (reasons c) manual
        || ltb (length rs + 1) after
        || leb (now + min (q.backoff * 2 ^ (length rs + 1 - after)) q.most) t)
failing_runs-admits q rs r now after c t v e zero_count hs h fits same =
    admits-Fails (after_runs q rs) r now after c t (after_runs-IsSound rs q v)
      (after_runs-threshold rs q ∙ e) h (rw (from_zero, after_runs-backoff rs q) fits) same
    ∙ rw (from_zero, after_runs-backoff rs q, after_runs-most rs q) refl
  where
    from_zero : failures_of (after_runs q rs) (key_of r) ≡ length rs
    from_zero = omega (arith, after_runs-count (key_of r) rs q hs)
