-- ===== src/Quarantine/Backoff.antt =====
-- src/zamboni/quarantine.py: what holds of every record of the quarantine.
use native.Mathlib.Nat.{sub_self}
use zamboni.Base.{
  ℕ, ◌+◌, ◌≤◌, ◌<◌, ◌≡◌, refl, subst, if_pos, if_neg, String, [], Option, none, some, false, arith,
  ◌⊎◌, inl, inr, text_discrete, ltb, ltb→lt, or_else, Option-cases, Bool-cases,
}
use zamboni.Base.Dict.{get, put, get-put, get-remove, get-nil}
use zamboni.Quarantine.{
  Quarantine, QuarantineState, ItemResult, Change, is_sound, make_quarantine, bad_threshold,
  longest, backoff_after, state_after, failed, cleared, finished,
}

-- A quarantined table's record has failures, at least the threshold, and the backoff that they call
-- for; the table has as many in a row, or more, for which the product raises. A table that is not
-- quarantined has fewer than the threshold.
abbrev pub Fits : ℕ → ℕ → Option ℕ → Option ℕ → Option QuarantineState → Type 0
Fits backoff most none count held = held ≡ none
Fits backoff most (some after) count none = or_else count 0 < after
Fits backoff most (some after) count (some state) =
    (after ≤ state.failures)
    × (state.failures ≤ or_else count 0)
    × (backoff_after backoff most after state.failures ≡ some state.backoff)
    × ((count ≡ some state.failures) ⊎ (backoff_after backoff most after (or_else count 0) ≡ none))

pub record IsSound (q : Quarantine) : Type 0 where
  pub positive : 0 < q.backoff
  pub ceiling : q.backoff ≤ q.most
  pub allowed : q.most ≤ longest
  pub counts : bad_threshold q.threshold ≡ false
  pub fits :
      (k : String)
      → Fits q.backoff q.most q.threshold
          (get text_discrete q.failures k)
          (get text_discrete q.quarantined k)

pub start-Fits :
    (b m : ℕ) (after : Option ℕ) → bad_threshold after ≡ false → Fits b m after none none
start-Fits b m none h = refl
start-Fits b m (some n) h = ground arith

pub make_quarantine-IsSound :
    (after : Option ℕ) (backoff most : ℕ) (q : Quarantine)
    → most ≤ longest
    → make_quarantine after backoff most ≡ some q
    → IsSound q
unfolding make_quarantine
make_quarantine-IsSound after backoff most q held h = subst IsSound same (record {
  positive = ground arith;
  ceiling = ground arith;
  allowed = held;
  counts = ground arith;
  fits = λ k. rw (get-nil, get-nil) (start-Fits backoff most after (ground arith));
})
  where
    same :
        record {
          threshold = after;
          backoff = backoff;
          most = most;
          failures = [];
          quarantined = [];
        }
        ≡ q
    same = ground arith

-- The failures in a row that a table has.
abbrev pub failures_of : Quarantine → String → ℕ
failures_of q k = or_else (get text_discrete q.failures k) 0

abbrev pub counted : Quarantine → String → Quarantine
counted q key = record q { failures = put text_discrete q.failures key (failures_of q key + 1) }

pub failed-below :
    (q : Quarantine) (key : String) (r : ItemResult) (now after : ℕ)
    → q.threshold ≡ some after
    → failures_of q key + 1 < after
    → failed q key r now ≡ (counted q key, Change.unchanged)
unfolding failed
failed-below q key r now after e below = rw (e, failed) (ground arith)

pub failed-over :
    (q : Quarantine) (key : String) (r : ItemResult) (now after backoff : ℕ)
    → q.threshold ≡ some after
    → after ≤ failures_of q key + 1
    → backoff_after q.backoff q.most after (failures_of q key + 1) ≡ some backoff
    → failed q key r now ≡ (
      record (counted q key) {
        quarantined =
            put text_discrete q.quarantined key (state_after r now (failures_of q key + 1) backoff);
      },
      Change.quarantined (state_after r now (failures_of q key + 1) backoff),
    )
unfolding failed
failed-over q key r now after backoff e over b =
    let passed : ltb (failures_of q key + 1) after ≡ false = ground arith in
    ground (arith, e, passed, b)

pub failed-overflows :
    (q : Quarantine) (key : String) (r : ItemResult) (now after : ℕ)
    → q.threshold ≡ some after
    → after ≤ failures_of q key + 1
    → backoff_after q.backoff q.most after (failures_of q key + 1) ≡ none
    → failed q key r now ≡ (counted q key, Change.overflowed)
unfolding failed
failed-overflows q key r now after e over b =
    let passed : ltb (failures_of q key + 1) after ≡ false = ground arith in
    ground (arith, e, passed, b)

failed-never :
    (q : Quarantine) (key : String) (r : ItemResult) (now : ℕ)
    → q.threshold ≡ none
    → failed q key r now ≡ (counted q key, Change.unchanged)
unfolding failed
failed-never q key r now e = ground arith

-- Without a threshold, how often a table has failed does not matter.
never-Fits :
    (b m : ℕ) (after : Option ℕ) (count other : Option ℕ) (held : Option QuarantineState)
    → after ≡ none
    → Fits b m after count held
    → Fits b m after other held
never-Fits b m none count other held e f = f
never-Fits b m (some n) count other held e f = ground arith

-- One more failure below the threshold.
below-Fits :
    (b m after : ℕ) (count : Option ℕ) (held : Option QuarantineState)
    → Fits b m (some after) count held
    → or_else count 0 + 1 < after
    → Fits b m (some after) (some (or_else count 0 + 1)) held
below-Fits b m after count none f below = below
below-Fits b m after count (some state) f below = absurd (omega (arith, f.0, f.1, below))

-- The first backoff does not raise.
first-backoff : (b m after : ℕ) → b ≤ m → m ≤ longest → backoff_after b m after after ≡ none → ⊥
unfolding backoff_after
first-backoff b m after le held e = ground (arith, rw (sub_self after) at e)

-- One more failure, for which the product raises.
overflow-Fits :
    (b m after : ℕ) (count : Option ℕ) (held : Option QuarantineState)
    → b ≤ m
    → m ≤ longest
    → Fits b m (some after) count held
    → after ≤ or_else count 0 + 1
    → backoff_after b m after (or_else count 0 + 1) ≡ none
    → Fits b m (some after) (some (or_else count 0 + 1)) held
overflow-Fits b m after count none le most f over e =
    let first : or_else count 0 + 1 ≡ after = omega (arith, f, over) in
    absurd (first-backoff b m after le most (rw first at e))
overflow-Fits b m after count (some state) le most f over e = (f.0, omega (arith, f.1), f.2, inr e)

module _ (q : Quarantine) (key : String) (v : IsSound q) where
  never-IsSound : q.threshold ≡ none → IsSound (counted q key)
  never-IsSound e = record {
    positive = v.positive;
    ceiling = v.ceiling;
    allowed = v.allowed;
    counts = v.counts;
    fits = λ k.
        never-Fits q.backoff q.most q.threshold (get text_discrete q.failures k) _ _ e (v.fits k);
  }

  below-IsSound :
      (after : ℕ)
      → q.threshold ≡ some after
      → failures_of q key + 1 < after
      → IsSound (counted q key)
  below-IsSound after e below = record {
    positive = v.positive;
    ceiling = v.ceiling;
    allowed = v.allowed;
    counts = v.counts;
    fits = λ k. elim (text_discrete key k) [
      | yes same ↦
          subst
            (λ j.
              Fits q.backoff q.most q.threshold (get text_discrete (counted q key).failures j)
                (get text_discrete q.quarantined j))
            same
            (rw (get-put, if_pos _ refl, e)
              (below-Fits q.backoff q.most after (get text_discrete q.failures key) _
                (rw e at (v.fits key)) below))
      | no other ↦ rw (get-put, if_neg _ other) (v.fits k)
    ];
  }

  overflow-IsSound :
      (after : ℕ)
      → q.threshold ≡ some after
      → after ≤ failures_of q key + 1
      → backoff_after q.backoff q.most after (failures_of q key + 1) ≡ none
      → IsSound (counted q key)
  overflow-IsSound after e over raises = record {
    positive = v.positive;
    ceiling = v.ceiling;
    allowed = v.allowed;
    counts = v.counts;
    fits = λ k. elim (text_discrete key k) [
      | yes same ↦
          subst
            (λ j.
              Fits q.backoff q.most q.threshold (get text_discrete (counted q key).failures j)
                (get text_discrete q.quarantined j))
            same
            (rw (get-put, if_pos _ refl, e)
              (overflow-Fits q.backoff q.most after (get text_discrete q.failures key) _ v.ceiling
                v.allowed (rw e at (v.fits key)) over raises))
      | no other ↦ rw (get-put, if_neg _ other) (v.fits k)
    ];
  }

module _ (q : Quarantine) (key : String) (r : ItemResult) (now : ℕ) (v : IsSound q) where
  over-IsSound :
      (after backoff : ℕ)
      → q.threshold ≡ some after
      → after ≤ failures_of q key + 1
      → backoff_after q.backoff q.most after (failures_of q key + 1) ≡ some backoff
      → IsSound (record (counted q key) {
        quarantined =
            put text_discrete q.quarantined key (state_after r now (failures_of q key + 1) backoff);
      })
  over-IsSound after backoff e over b = record {
    positive = v.positive;
    ceiling = v.ceiling;
    allowed = v.allowed;
    counts = v.counts;
    fits = λ k. elim (text_discrete key k) [
      | yes same ↦
          rw (e, get-put, get-put, if_pos _ same, if_pos _ same) (over, omega arith, b, inl refl)
      | no other ↦ rw (get-put, get-put, if_neg _ other, if_neg _ other) (v.fits k)
    ];
  }

cleared-Fits :
    (q : Quarantine) (key : String)
    → IsSound q
    → (k : String)
    → Fits q.backoff q.most q.threshold
        (get text_discrete (cleared q key).0.failures k)
        (get text_discrete (cleared q key).0.quarantined k)
unfolding cleared
cleared-Fits q key v k = elim (text_discrete key k) [
  | yes same ↦
      rw (get-remove, get-remove, if_pos _ same, if_pos _ same)
        (start-Fits q.backoff q.most q.threshold v.counts)
  | no other ↦ rw (get-remove, get-remove, if_neg _ other, if_neg _ other) (v.fits k)
]

failed-IsSound :
    (q : Quarantine) (key : String) (r : ItemResult) (now : ℕ)
    → IsSound q
    → IsSound (failed q key r now).0
failed-IsSound q key r now v = elim (Option-cases q.threshold) [
  | inl e ↦ rw (failed-never q key r now e) (never-IsSound q key v e)
  | inr (after, e) ↦ elim (Bool-cases (ltb (failures_of q key + 1) after)) [
    | inl below ↦
        rw (failed-below q key r now after e (ltb→lt _ _ below))
          (below-IsSound q key v after e (ltb→lt _ _ below))
    | inr over ↦
        let passed : after ≤ failures_of q key + 1 = ground arith in
        elim (Option-cases (backoff_after q.backoff q.most after (failures_of q key + 1))) [
          | inl raises ↦
              rw (failed-overflows q key r now after e passed raises)
                (overflow-IsSound q key v after e passed raises)
          | inr (b, found) ↦
              rw (failed-over q key r now after b e passed found)
                (over-IsSound q key r now v after b e passed found)
        ]
  ]
]

cleared-IsSound : (q : Quarantine) (key : String) → IsSound q → IsSound (cleared q key).0
unfolding cleared
cleared-IsSound q key v = record {
  positive = v.positive;
  ceiling = v.ceiling;
  allowed = v.allowed;
  counts = v.counts;
  fits = cleared-Fits q key v;
}

pub finished-IsSound :
    (q : Quarantine) (r : ItemResult) (now : ℕ) → IsSound q → IsSound (finished q r now).0
unfolding finished
finished-IsSound q r now v = elim (Option-cases r.dropped) [
  | inl kept ↦ elim (Bool-cases (is_sound r.exit_code)) [
    | inl sound ↦ rw (kept, finished, sound) (cleared-IsSound q _ v)
    | inr bad ↦ rw (kept, finished, bad) (failed-IsSound q _ r now v)
  ]
  | inr (why, e) ↦ rw (e, finished) v
]
