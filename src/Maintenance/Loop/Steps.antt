-- ===== src/Maintenance/Loop/Steps.antt =====
-- What the inner loop does on one table: it runs operations in order until it is done, stopped, or has aborted.
use mathlib.Core.List.{append-nil, append_assoc}
use zamboni.Base.{
  String, List, [], ◌∷◌, ◌++◌, Bool, ◌&&◌, true, false, Option, none, some, ◌≡◌, ◌≢◌, refl, sym, ap,
  subst, ◌∙◌, inl, inr, ◌==◌, Bool-cases, Option-cases, arith,
}
use zamboni.Scheduler.Reasons.{Operation}
use zamboni.Maintenance.{
  Outcome, bare, stopping_this_table, Executed, produced, raised, unsupported, blocked, conflict,
  aborted, misconfigured, failed, outcome_of, skip_of, Retention, among, fulfilled,
}
use zamboni.Maintenance.Loop.{
  Run, Progress, TableRun, recorded, skipped_as, run_one, kept_after, step, check, run_steps,
  held_back,
}

-- What a table's run may report of `ops`, and what it may leave. After an abort there is only the note.
pub data Ran (table : String) : List Operation → List Outcome → List Operation → Type 0 where
  finished : Ran table [] [] []
  stopped : (ops : List Operation) → Ran table ops [] ops
  broken_off :
      (o : Operation) (rest : List Operation) (outcome : Outcome)
      → outcome.table ≡ table
      → outcome.operation ≡ o
      → outcome.exit_code ≡ 4
      → Ran table (o ∷ rest) (outcome ∷ bare table o 0 (stopping_this_table o) ∷ []) []
  went_on :
      (o : Operation) (rest : List Operation) (outcome : Outcome) (news : List Outcome)
      (left : List Operation)
      → outcome.table ≡ table
      → outcome.operation ≡ o
      → outcome.exit_code ≢ 4
      → Ran table rest news left
      → Ran table (o ∷ rest) (outcome ∷ news) left

-- An outcome is about the table and the operation that were run.
abbrev pub IsAbout : String → Operation → Outcome → Type 0
IsAbout table o outcome = (outcome.table ≡ table) × (outcome.operation ≡ o)

outcome_of-IsAbout :
    (table : String) (o : Operation) (ex : Executed) → IsAbout table o (outcome_of table o ex)
unfolding outcome_of failed
outcome_of-IsAbout table o (produced r) = (refl, refl)
outcome_of-IsAbout table o (raised (unsupported x)) = (refl, refl)
outcome_of-IsAbout table o (raised (blocked x)) = (refl, refl)
outcome_of-IsAbout table o (raised (conflict x)) = (refl, refl)
outcome_of-IsAbout table o (raised (aborted x)) = (refl, refl)
outcome_of-IsAbout table o (raised (misconfigured x)) = (refl, refl)

skip_of-IsAbout :
    (r : Retention) (table : String) (o : Operation) (held unchanged : Bool) (by : Option Operation)
    (outcome : Outcome)
    → skip_of r table o held unchanged by ≡ some outcome
    → IsAbout table o outcome
unfolding skip_of
skip_of-IsAbout r table o held unchanged by outcome e = ground (arith, e)

module _ {W : Type 0} (c : Run W) where
  skipped_as-IsAbout :
      (table : String) (t : TableRun W) (o : Operation) (outcome : Outcome)
      → skipped_as c table t o ≡ some outcome
      → IsAbout table o outcome
  unfolding skipped_as
  skipped_as-IsAbout table t o outcome e =
      skip_of-IsAbout (c.retention table) table o (t.recent && held_back c.min_interval o)
        (among o t.unchanged) (fulfilled (c.engine.fulfilled_by o) t.done) outcome e

  pub run_one-skips :
      (table : String) (t : TableRun W) (o : Operation) (outcome : Outcome)
      → skipped_as c table t o ≡ some outcome
      → (run_one c table t o).2 ≡ outcome
  unfolding run_one
  run_one-skips table t o outcome e = rw (e, run_one) refl

  pub run_one-executes :
      (table : String) (t : TableRun W) (o : Operation)
      → skipped_as c table t o ≡ none
      → (run_one c table t o).2
        ≡ outcome_of table o (c.engine.executed t.run.world table o t.unfinished).2
  unfolding run_one
  run_one-executes table t o e = rw (e, run_one) refl

  run_one-IsAbout :
      (table : String) (t : TableRun W) (o : Operation) → IsAbout table o (run_one c table t o).2
  run_one-IsAbout table t o = elim (Option-cases (skipped_as c table t o)) [
    | inl e ↦
        subst (IsAbout table o) (sym (run_one-executes table t o e))
          (outcome_of-IsAbout table o (c.engine.executed t.run.world table o t.unfinished).2)
    | inr (outcome, e) ↦
        subst (IsAbout table o) (sym (run_one-skips table t o outcome e))
          (skipped_as-IsAbout table t o outcome e)
  ]

  pub step-IsAbout :
      (table : String) (t : TableRun W) (o : Operation) (rest : List Operation)
      → IsAbout table o (step c table t o rest).1
  unfolding step
  step-IsAbout table t o rest = run_one-IsAbout table t o

  -- A step reports its own outcome and nothing else.
  pub step-outcomes :
      (table : String) (t : TableRun W) (o : Operation) (rest : List Operation)
      → (step c table t o rest).0.run.outcomes ≡ t.run.outcomes ++ (step c table t o rest).1 ∷ []
  unfolding step kept_after recorded
  step-outcomes table t o rest = refl

  -- The state in which a step starts, past the check for a stop.
  abbrev pub checked : TableRun W → TableRun W
  checked t = record t { run = record t.run { stop = (check c t).0 } }

  pub run_steps-stops :
      (table : String) (o : Operation) (rest : List Operation) (t : TableRun W)
      → (check c t).1 ≡ true
      → run_steps c table (o ∷ rest) t ≡ ((checked t).run, o ∷ rest)
  unfolding run_steps
  run_steps-stops table o rest t e = rw (e, run_steps) refl

  pub run_steps-aborts :
      (table : String) (o : Operation) (rest : List Operation) (t : TableRun W)
      → (check c t).1 ≡ false
      → ((step c table (checked t) o rest).1.exit_code == 4) ≡ true
      → run_steps c table (o ∷ rest) t ≡ (
        recorded c (step c table (checked t) o rest).0.run (bare table o 0 (stopping_this_table o)),
        [],
      )
  unfolding run_steps
  run_steps-aborts table o rest t e f = rw (e, f, run_steps) refl

  pub run_steps-goes_on :
      (table : String) (o : Operation) (rest : List Operation) (t : TableRun W)
      → (check c t).1 ≡ false
      → ((step c table (checked t) o rest).1.exit_code == 4) ≡ false
      → run_steps c table (o ∷ rest) t ≡ run_steps c table rest (step c table (checked t) o rest).0
  unfolding run_steps
  run_steps-goes_on table o rest t e f = rw (e, f, run_steps) refl

  recorded-outcomes :
      (p : Progress W) (o : Outcome) → (recorded c p o).outcomes ≡ p.outcomes ++ o ∷ []
  unfolding recorded
  recorded-outcomes p o = refl

  -- After an abort, the outcome and the note are added.
  pub run_steps-noted :
      (table : String) (o : Operation) (rest : List Operation) (t : TableRun W)
      → (recorded c
          (step c table (checked t) o rest).0.run
          (bare table o 0 (stopping_this_table o))).outcomes
        ≡ t.run.outcomes
          ++ (step c table (checked t) o rest).1 ∷ bare table o 0 (stopping_this_table o) ∷ []
  run_steps-noted table o rest t =
      let next = step c table (checked t) o rest in
      let note = bare table o 0 (stopping_this_table o) in
      recorded-outcomes next.0.run note
      ∙ ap (λ l. l ++ note ∷ []) (step-outcomes table (checked t) o rest)
      ∙ append_assoc t.run.outcomes (next.1 ∷ []) (note ∷ [])

  -- What the rest of the run adds comes after the outcome of the step.
  pub run_steps-adds :
      (table : String) (o : Operation) (rest : List Operation) (t : TableRun W)
      (news : List Outcome)
      → (run_steps c table rest (step c table (checked t) o rest).0).0.outcomes
        ≡ (step c table (checked t) o rest).0.run.outcomes ++ news
      → (run_steps c table rest (step c table (checked t) o rest).0).0.outcomes
        ≡ t.run.outcomes ++ (step c table (checked t) o rest).1 ∷ news
  run_steps-adds table o rest t news adds =
      adds
      ∙ ap (λ l. l ++ news) (step-outcomes table (checked t) o rest)
      ∙ append_assoc t.run.outcomes ((step c table (checked t) o rest).1 ∷ []) news

  -- What a run of a table adds and leaves.
  abbrev Result : String → List Operation → TableRun W → Progress W × List Operation → Type 0
  Result table ops t r =
      (news : List Outcome) × ((r.0.outcomes ≡ t.run.outcomes ++ news) × Ran table ops news r.1)

  -- What the run of a table adds to the outcomes, and leaves not run, is what the relation `Ran`
  -- allows: an outcome for each operation in order, until all are done, a stop leaves the rest, or
  -- an abort is followed by its note and nothing more.
  pub run_steps-Ran :
      (ops : List Operation) (table : String) (t : TableRun W)
      → (news : List Outcome) × (((run_steps c table ops t).0.outcomes ≡ t.run.outcomes ++ news)
          × Ran table ops news (run_steps c table ops t).1)
  unfolding run_steps
  run_steps-Ran [] table t = ([], (sym (append-nil t.run.outcomes), finished))
  run_steps-Ran (o ∷ rest) table t = elim (Bool-cases (check c t).1) [
    | inl e ↦
        subst (Result table (o ∷ rest) t) (sym (run_steps-stops table o rest t e))
          ([], (sym (append-nil t.run.outcomes), stopped (o ∷ rest)))
    | inr e ↦
        let next = step c table (checked t) o rest in
        let about = step-IsAbout table (checked t) o rest in
        elim (Bool-cases (next.1.exit_code == 4)) [
          | inl f ↦ subst (Result table (o ∷ rest) t) (sym (run_steps-aborts table o rest t e f)) (
            next.1 ∷ bare table o 0 (stopping_this_table o) ∷ [],
            (
              run_steps-noted table o rest t,
              broken_off o rest next.1 about.0 about.1 (ground (arith, f)),
            ),
          )
          | inr f ↦
              let (news, (adds, ran)) = run_steps-Ran rest table next.0 in
              subst (Result table (o ∷ rest) t) (sym (run_steps-goes_on table o rest t e f)) (
                next.1 ∷ news,
                (
                  run_steps-adds table o rest t news adds,
                  went_on o rest next.1 news (run_steps c table rest next.0).1 about.0 about.1
                      (λ q. ground (arith, f, q)) ran,
                ),
              )
        ]
  ]
