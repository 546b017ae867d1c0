-- ===== src/Scheduler/Ticks/Work.antt =====
-- src/zamboni/scheduler.py: the work that a firing asks for is not lost.
use zamboni.Base.{
  ℕ, ◌≤◌, ◌≡◌, refl, sym, ◌∙◌, ap, subst, String, List, [], ◌∷◌, Option, some, Bool, true, false,
  ◌||◌, arith, inl, inr, TableKey, key_discrete, ltb, text_discrete, contains, Distinct, Bool-cases,
  is_yes, Option-cases,
}
use zamboni.Base.Dict.{Dict, get}
use zamboni.Fleet.{Firing, Warehouse, ScheduleOps, names, find}
use zamboni.Scheduler.Reasons.{Operation, reason_operations, schedule}
use zamboni.Scheduler.Reasons.Unions.{runs, runs-operations_of}
use zamboni.Scheduler.Candidate.{Candidate, key, operations}
use zamboni.Scheduler.Queue.{Queue, offer}
use zamboni.Scheduler.Queue.Offers.{in_hand, in_hand-offer, in_hand-offer_ne}
use zamboni.Scheduler.Ticks.{Scheduler, Ticked, scheduled, insert_name, sorted, offer_tables, tick}
use zamboni.Scheduler.Ticks.Fires.{Armed, GoesOn, offer_one, offer_due, tick-Outcome}

contains-insert_name :
    (s : String) (ts : List String) (x : String)
    → contains text_discrete (insert_name s ts) x
      ≡ (is_yes (text_discrete s x) || contains text_discrete ts x)
unfolding insert_name
contains-insert_name s [] x = refl
contains-insert_name s (t ∷ ts) x = ground (arith, contains-insert_name s ts x)

contains-sorted :
    (ts : List String) (x : String)
    → contains text_discrete (sorted ts) x ≡ contains text_discrete ts x
unfolding sorted
contains-sorted [] x = refl
contains-sorted (t ∷ ts) x =
    ground (arith, contains-insert_name t (sorted ts) x, contains-sorted ts x)

module _ (admit : Candidate → Bool) (o : Operation) where
  refused-same : (q : Queue) (c : Candidate) → admit c ≡ false → (offer admit q c).0 ≡ q
  unfolding offer
  refused-same q c h = rw h refl

  -- An offer takes no work away.
  pub in_hand-offer_mono :
      (q : Queue) (c : Candidate) (k : TableKey)
      → in_hand q k o ≡ true
      → in_hand (offer admit q c).0 k o ≡ true
  in_hand-offer_mono q c k h = elim (key_discrete (key c) k) [
    | yes same ↦ elim (Bool-cases (admit c)) [
      | inl let_in ↦
          subst (λ j. in_hand (offer admit q c).0 j o ≡ true) same
            (in_hand-offer admit q c o let_in
              ∙ ap (λ b. b || runs (operations c) o)
                  (subst (λ j. in_hand q j o ≡ true) (sym same) h))
      | inr refused ↦ rw (refused-same q c refused) h
    ]
    | no other ↦ in_hand-offer_ne admit q c k o other ∙ h
  ]

  scheduled-runs :
      (w : String) (d : Option ℕ) (t : String) → runs (operations (scheduled w d t)) o ≡ true
  unfolding reason_operations
  scheduled-runs w d t = runs-operations_of (schedule ∷ []) o ∙ refl

  module _ (w : String) (d : Option ℕ) where
    offer_tables_mono :
        (ts : List String) (q : Queue) (k : TableKey)
        → in_hand q k o ≡ true
        → in_hand (offer_tables admit w d ts q) k o ≡ true
    unfolding offer_tables
    offer_tables_mono [] q k h = h
    offer_tables_mono (t ∷ ts) q k h =
        offer_tables_mono ts _ k (in_hand-offer_mono q (scheduled w d t) k h)

    offer_tables-runs :
        (ts : List String) (q : Queue) (t : String)
        → contains text_discrete ts t ≡ true
        → admit (scheduled w d t) ≡ true
        → in_hand (offer_tables admit w d ts q) (w, t) o ≡ true
    unfolding offer_tables
    offer_tables-runs [] q t m let_in = cc
    offer_tables-runs (x ∷ ts) q t m let_in = elim (text_discrete x t) [
      | yes e ↦
          offer_tables_mono ts _ (w, t)
            (subst (λ y. in_hand (offer admit q (scheduled w d y)).0 (w, t) o ≡ true) (sym e)
              (in_hand-offer admit q (scheduled w d t) o let_in
                ∙ ground (arith, scheduled-runs w d t)))
      | no n ↦ offer_tables-runs ts _ t (ground arith) let_in
    ]

module _ {S : Type 0} (ops : ScheduleOps S) (admit : Candidate → Bool) (now : ℕ)
    (o : Operation) where
  module _ (armed : Dict String Firing) where
    offer_one_mono :
        (w : Warehouse S) (q : Queue) (k : TableKey)
        → in_hand q k o ≡ true
        → in_hand (offer_one ops admit now armed w q) k o ≡ true
    unfolding offer_one
    offer_one_mono w q k h = elim (Option-cases (get text_discrete armed w.name)) [
      | inl e ↦ rw (e, offer_one) h
      | inr (f, e) ↦ elim (Bool-cases (ltb now f.due)) [
        | inl idle ↦ rw (e, offer_one) (rw idle h)
        | inr due ↦
            rw (e, offer_one)
              (rw due
                (offer_tables_mono admit o w.name f.not_after (sorted w.table_config.tables) q k h))
      ]
    ]

    offer_due_mono :
        (ws : List (Warehouse S)) (q : Queue) (k : TableKey)
        → in_hand q k o ≡ true
        → in_hand (offer_due ops admit now armed ws q) k o ≡ true
    offer_due_mono [] q k h = h
    offer_due_mono (w ∷ ws) q k h = offer_due_mono ws _ k (offer_one_mono w q k h)

    module _ (w : Warehouse S) (f : Firing) (table : String)
        (e : get text_discrete armed w.name ≡ some f) (due : f.due ≤ now)
        (declared : contains text_discrete w.table_config.tables table ≡ true)
        (let_in : admit (scheduled w.name f.not_after table) ≡ true) where
      offer_one-runs :
          (q : Queue) → in_hand (offer_one ops admit now armed w q) (w.name, table) o ≡ true
      unfolding offer_one
      offer_one-runs q =
          let passed : ltb now f.due ≡ false = ground arith in
          rw (e, offer_one)
            (rw passed (
              offer_tables-runs admit o w.name f.not_after (sorted w.table_config.tables) q table
                (contains-sorted w.table_config.tables table ∙ declared) let_in))

      offer_due-runs :
          (ws : List (Warehouse S)) (name : String) (q : Queue)
          → find ws name ≡ some w
          → in_hand (offer_due ops admit now armed ws q) (w.name, table) o ≡ true
      unfolding find
      offer_due-runs [] name q found = cc
      offer_due-runs (x ∷ ws) name q found = elim (text_discrete x.name name) [
        | yes here ↦
            let same : x ≡ w = ground arith in
            offer_due_mono ws _ (w.name, table)
              (subst (λ y. in_hand (offer_one ops admit now armed y q) (w.name, table) o ≡ true)
                (sym same) (offer_one-runs q))
        | no there ↦ offer_due-runs ws name _ (ground arith)
      ]

  -- On a fleet with distinct warehouses that all have a firing armed, and where the schedule of
  -- each due warehouse has a firing after it: a tick at which a warehouse's firing is due leaves
  -- every operation in hand, done by the run in flight or by a later one, for every table that the
  -- warehouse declares and the runtime admits.
  pub tick-runs :
      (s : Scheduler S) (q : Queue) (w : Warehouse S) (f : Firing) (name table : String)
      (t : Ticked)
      → Distinct text_discrete (names s.fleet)
      → Armed ops s.fleet s.armed
      → GoesOn ops now s.armed s.fleet
      → find s.fleet name ≡ some w
      → get text_discrete s.armed w.name ≡ some f
      → f.due ≤ now
      → contains text_discrete w.table_config.tables table ≡ true
      → admit (scheduled w.name f.not_after table) ≡ true
      → tick ops admit now s q ≡ some t
      → in_hand t.queue (w.name, table) o ≡ true
  tick-runs s q w f name table t d a m found e due declared let_in ran =
      let (r, ran', outcome) = tick-Outcome ops admit now s q d a m in
      let same : r ≡ t = cc (ran', ran) in
      subst (λ (x : Ticked). in_hand x.queue (w.name, table) o ≡ true) same
        (rw outcome.offered
          (offer_due-runs s.armed w f table e due declared let_in s.fleet name q found))
