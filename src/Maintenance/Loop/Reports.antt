-- ===== src/Maintenance/Loop/Reports.antt =====
-- What a report accounts for: every operation of every table is reported once, in order, or listed as not run.
use mathlib.Core.List.{append-nil, append_assoc, nil≢cons}
use mathlib.Core.Bool.{false≢true}
use zamboni.Base.{
  ◌==◌, String, List, [], ◌∷◌, ◌++◌, map, Bool, true, false, Option, none, some, is_some, ◌≡◌, ◌≢◌,
  refl, sym, ap, ap₂, subst, ◌∙◌, ◌⊎◌, inl, inr, List-cases, Bool-cases, Option-cases, All, arith,
}
use zamboni.Scheduler.Reasons.{Operation}
use zamboni.Maintenance.{Ask, Outcome}
use zamboni.Maintenance.Loop.{
  StopReason, Stop, stopping, Run, Progress, TableRun, check, step, run_steps, begun, pairs,
  all_pairs, run_tables, started, stopped_of, maintain,
}
use zamboni.Maintenance.Loop.Steps.{
  Ran, finished, stopped, broken_off, went_on, run_steps-Ran, run_steps-stops, run_steps-aborts,
  run_steps-goes_on, checked,
}

-- What an outcome is about.
abbrev pub subject : Outcome → String × Operation
subject o = (o.table, o.operation)

abbrev pub NoAbort : List Outcome → Type 0
NoAbort os = All (λ o. o.exit_code ≢ 4) os

map-append : (xs ys : List Outcome) → map subject (xs ++ ys) ≡ map subject xs ++ map subject ys
map-append [] ys = refl
map-append (x ∷ xs) ys = ap (λ l. subject x ∷ l) (map-append xs ys)

All-prefix : (P : Outcome → Type 0) (xs ys : List Outcome) → All P (xs ++ ys) → All P xs × All P ys
All-prefix P [] ys h = (tt, h)
All-prefix P (x ∷ xs) ys h = let r = All-prefix P xs ys h.1 in ((h.0, r.0), r.1)

join :
    (xs ys : List Outcome) (rest ls ks : List (String × Operation))
    → map subject xs ++ [] ≡ ls
    → map subject ys ++ rest ≡ ks
    → map subject (xs ++ ys) ++ rest ≡ ls ++ ks
join xs ys rest ls ks e f =
    ap (λ l. l ++ rest) (map-append xs ys)
    ∙ append_assoc (map subject xs) (map subject ys) rest
    ∙ ap₂ (λ a b. a ++ b) (sym (append-nil (map subject xs)) ∙ e) f

module _ {W : Type 0} (c : Run W) where
  -- Without an abort, the run of a table reports or leaves each of its operations.
  Ran-pairs :
      (table : String) (ops : List Operation) (news : List Outcome) (left : List Operation)
      → Ran table ops news left
      → NoAbort news
      → map subject news ++ pairs c table left ≡ pairs c table ops
  Ran-pairs table ops news left finished h = refl
  Ran-pairs table ops news left (stopped os) h = refl
  Ran-pairs table ops news left (broken_off o rest outcome at is four) h = absurd (h.0 four)
  Ran-pairs table ops news left (went_on o rest outcome more l at is ne ran) h =
      ap₂ (λ k ks. k ∷ ks) (λ i. (at i, is i)) (Ran-pairs table rest more l ran h.1)

  -- A stop was acted on.
  abbrev Acted : Stop → Type 0
  Acted s = (s.seen ≡ true) × (is_some s.reason ≡ true)

  stopping-Acted : (s : Stop) (ask : Ask) → (stopping s ask).1 ≡ true → Acted (stopping s ask).0
  unfolding stopping
  stopping-Acted s ask h = (ground (arith, h), h)

  check-nil :
      (t : TableRun W)
      → t.owed ≡ []
      → check c t ≡ stopping t.run.stop (c.engine.should_stop t.run.world)
  unfolding check
  check-nil t e = rw (e, check) refl

  check-cons :
      (t : TableRun W) (o : Operation) (os : List Operation)
      → t.owed ≡ o ∷ os
      → check c t ≡ (t.run.stop, false)
  unfolding check
  check-cons t o os e = rw (e, check) refl

  check-Acted : (t : TableRun W) → (check c t).1 ≡ true → Acted (check c t).0
  unfolding check
  check-Acted t h = elim (List-cases t.owed) [
    | inl e ↦ subst Acted (ap (λ r. r.0) (sym (check-nil t e))) (
        stopping-Acted t.run.stop (c.engine.should_stop t.run.world)
          (ap (λ r. r.1) (sym (check-nil t e)) ∙ h))
    | inr (o, (os, e)) ↦ elim (false≢true (ap (λ r. r.1) (sym (check-cons t o os e)) ∙ h)) [ ]
  ]

  abbrev Told : Progress W × List Operation → Type 0
  Told r = (r.1 ≡ []) ⊎ Acted r.0.stop

  -- What a table's run leaves undone, it leaves because of a stop.
  run_steps-Acted :
      (ops : List Operation) (table : String) (t : TableRun W)
      → ((run_steps c table ops t).1 ≡ []) ⊎ Acted (run_steps c table ops t).0.stop
  unfolding run_steps
  run_steps-Acted [] table t = inl refl
  run_steps-Acted (o ∷ rest) table t = elim (Bool-cases (check c t).1) [
    | inl e ↦ subst Told (sym (run_steps-stops c table o rest t e)) (inr (check-Acted t e))
    | inr e ↦ elim (Bool-cases ((step c table (checked c t) o rest).1.exit_code == 4)) [
      | inl f ↦ subst Told (sym (run_steps-aborts c table o rest t e f)) (inl refl)
      | inr f ↦
          subst Told (sym (run_steps-goes_on c table o rest t e f))
            (run_steps-Acted rest table (step c table (checked c t) o rest).0)
    ]
  ]

  -- The run of a table past the check for a stop before it.
  abbrev asked : Progress W → Stop × Bool
  asked p = stopping p.stop (c.engine.should_stop p.world)

  abbrev table_run : String → Progress W → Progress W × List Operation
  table_run table p = run_steps c table c.order (begun c table (record p { stop = (asked p).0 }))

  run_tables-stops :
      (table : String) (tables : List String) (p : Progress W)
      → (asked p).1 ≡ true
      → run_tables c (table ∷ tables) p
        ≡ (record p { stop = (asked p).0 }, all_pairs c (table ∷ tables))
  unfolding run_tables
  run_tables-stops table tables p e = rw (e, run_tables) refl

  run_tables-next :
      (table : String) (tables : List String) (p : Progress W)
      → (asked p).1 ≡ false
      → (table_run table p).1 ≡ []
      → run_tables c (table ∷ tables) p ≡ run_tables c tables (table_run table p).0
  unfolding run_tables
  run_tables-next table tables p e f = rw (e, f, run_tables) refl

  run_tables-ends :
      (table : String) (tables : List String) (p : Progress W) (o : Operation) (os : List Operation)
      → (asked p).1 ≡ false
      → (table_run table p).1 ≡ o ∷ os
      → run_tables c (table ∷ tables) p
        ≡ ((table_run table p).0, pairs c table (o ∷ os) ++ all_pairs c tables)
  unfolding run_tables
  run_tables-ends table tables p o os e f = rw (e, f, run_tables) refl

  -- What the run of the tables adds, leaves, and why.
  abbrev Accounts : List String → Progress W → Progress W × List (String × Operation) → Type 0
  Accounts tables p r =
      (news : List Outcome) × ((r.0.outcomes ≡ p.outcomes ++ news)
        × (NoAbort news → map subject news ++ r.1 ≡ all_pairs c tables)
        × ((r.1 ≡ []) ⊎ Acted r.0.stop))

  begun-outcomes : (table : String) (p : Progress W) → (begun c table p).run.outcomes ≡ p.outcomes
  unfolding begun
  begun-outcomes table p = refl

  -- The run of one table adds outcomes, and without an abort reports or leaves its operations.
  table-Accounts :
      (table : String) (p : Progress W)
      → (news : List Outcome) × (((table_run table p).0.outcomes ≡ p.outcomes ++ news)
          × (NoAbort news
              → map subject news ++ pairs c table (table_run table p).1 ≡ pairs c table c.order))
  table-Accounts table p =
      let start = begun c table (record p { stop = (asked p).0 }) in
      let (news, (adds, ran)) = run_steps-Ran c c.order table start in
      (
        news,
        (
          adds ∙ ap (λ l. l ++ news) (begun-outcomes table (record p { stop = (asked p).0 })),
          Ran-pairs table c.order news (table_run table p).1 ran,
        ),
      )

  left-Acted :
      (table : String) (p : Progress W) (o : Operation) (os : List Operation)
      → (table_run table p).1 ≡ o ∷ os
      → Acted (table_run table p).0.stop
  left-Acted table p o os f =
      elim (run_steps-Acted c.order table (begun c table (record p { stop = (asked p).0 }))) [
        | inl e ↦ absurd (nil≢cons (sym e ∙ f))
        | inr acted ↦ acted
      ]

  run_tables-Accounts :
      (tables : List String) (p : Progress W) → Accounts tables p (run_tables c tables p)
  unfolding run_tables
  run_tables-Accounts [] p = ([], (sym (append-nil p.outcomes), λ h. refl, inl refl))
  run_tables-Accounts (table ∷ tables) p = elim (Bool-cases (asked p).1) [
    | inl e ↦ subst (Accounts (table ∷ tables) p) (sym (run_tables-stops table tables p e)) (
      [],
      (
        sym (append-nil p.outcomes),
        λ h. refl,
        inr (stopping-Acted p.stop (c.engine.should_stop p.world) e),
      ),
    )
    | inr e ↦
        let (news, (adds, left)) = table-Accounts table p in
        elim (List-cases (table_run table p).1) [
          | inl f ↦
              let (more, (adds_more, all, told)) =
                run_tables-Accounts tables (table_run table p).0 in
              subst (Accounts (table ∷ tables) p) (sym (run_tables-next table tables p e f)) (
                news ++ more,
                (
                  adds_more ∙ ap (λ l. l ++ more) adds ∙ append_assoc p.outcomes news more,
                  λ h.
                      let (h1, h2) = All-prefix (λ o. o.exit_code ≢ 4) news more h in
                      join news more _ _ _
                        (ap (λ l. map subject news ++ pairs c table l) (sym f) ∙ left h1) (all h2),
                  told,
                ),
              )
          | inr (o, (os, f)) ↦
              subst (Accounts (table ∷ tables) p) (sym (run_tables-ends table tables p o os e f)) (
                news,
                (
                  adds,
                  λ h.
                      sym (
                        append_assoc (map subject news) (pairs c table (o ∷ os))
                          (all_pairs c tables))
                      ∙ ap (λ l. l ++ all_pairs c tables)
                          (ap (λ l. map subject news ++ pairs c table l) (sym f) ∙ left h),
                  inr (left-Acted table p o os f),
                ),
              )
        ]
  ]

  -- What a report lists as not run.
  abbrev pub left_out : Option (StopReason × List (String × Operation)) → List (String × Operation)
  left_out none = []
  left_out (some s) = s.1

  left_out-stopped_of :
      (stop : Stop) (not_run : List (String × Operation))
      → (not_run ≡ []) ⊎ Acted stop
      → left_out (stopped_of c stop not_run) ≡ not_run
  unfolding stopped_of
  left_out-stopped_of stop not_run told = elim (Option-cases stop.reason) [
    | inl e ↦ ground (arith, e, told)
    | inr (r, e) ↦ ground (arith, e, told)
  ]

  -- For a report in which no outcome is an abort: what its outcomes are about, in order, and then
  -- what it lists as not run, are every operation of every table, once and in order.
  pub maintain-accounts :
      (wanted : List String) (world : W)
      → NoAbort (maintain c wanted world).outcomes
      → map subject (maintain c wanted world).outcomes ++ left_out (maintain c wanted world).stopped
        ≡ all_pairs c wanted
  unfolding maintain
  maintain-accounts wanted world h =
      let r = run_tables c wanted (started c world) in
      let (news, (adds, all, told)) = run_tables-Accounts wanted (started c world) in
      ap (λ l. map subject r.0.outcomes ++ l) (left_out-stopped_of r.0.stop r.1 told)
      ∙ ap (λ l. map subject l ++ r.1) adds
      ∙ all (subst NoAbort adds h)
