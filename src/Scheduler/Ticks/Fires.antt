-- ===== src/Scheduler/Ticks/Fires.antt =====
-- src/zamboni/scheduler.py: what a tick and a reload do to every warehouse.
use zamboni.Base.{
  ℕ, ◌≡◌, refl, sym, ◌∙◌, ap, String, List, [], ◌∷◌, Option, none, some, Bool, true, false, not,
  arith, inl, inr, max, ltb, text_discrete, if◌then◌else◌, contains, keep, All, is_some, Distinct,
  Option-cases, Bool-cases, if_pos,
}
use zamboni.Base.Dict.{Dict, get, put, get-put}
use zamboni.Fleet.{Firing, Warehouse, ScheduleOps, names}
use zamboni.Scheduler.Candidate.{Candidate}
use zamboni.Scheduler.Queue.{Queue}
use zamboni.Scheduler.Ticks.{Scheduler, Ticked, sorted, offer_tables, tick_from, tick}

module _ {S : Type 0} (ops : ScheduleOps S) where
  -- Every warehouse has a firing armed.
  abbrev pub Armed : List (Warehouse S) → Dict String Firing → Type 0
  Armed ws armed = All (λ w. is_some (get text_discrete armed w.name) ≡ true) ws

  Armed-put :
      (ws : List (Warehouse S)) (armed : Dict String Firing) (name : String) (f : Firing)
      → Armed ws armed
      → Armed ws (put text_discrete armed name f)
  Armed-put [] armed name f a = tt
  Armed-put (w ∷ ws) armed name f a = (
    ground (arith, a.0, get-put text_discrete armed name w.name f),
    Armed-put ws armed name f a.1,
  )

  -- The warehouses whose firing is due.
  pub is_due : ℕ → Dict String Firing → Warehouse S → Bool
  is_due now armed w = elim (get text_discrete armed w.name) [
    | none ↦ false
    | some f ↦ not (ltb now f.due)
  ]

  -- The firing that a tick leaves for a warehouse, where its schedule finds one.
  unfoldable pub firing_left : ℕ → Dict String Firing → Warehouse S → Option Firing
  firing_left now armed w = elim (get text_discrete armed w.name) [
    | none ↦ none
    | some f ↦
        if ltb now f.due then some f else ops.firing_after w.schedule (max now f.nominal) w.name
  ]

  -- Each warehouse whose firing is due has one after it.
  abbrev pub GoesOn : ℕ → Dict String Firing → List (Warehouse S) → Type 0
  GoesOn now armed ws = All (λ w. is_some (firing_left now armed w) ≡ true) ws

  abbrev Agree : List (Warehouse S) → Dict String Firing → Dict String Firing → Type 0
  Agree ws armed armed' =
      All (λ w. get text_discrete armed w.name ≡ get text_discrete armed' w.name) ws

  Agree-put :
      (ws : List (Warehouse S)) (armed armed' : Dict String Firing) (name : String) (f : Firing)
      → contains text_discrete (names ws) name ≡ false
      → Agree ws armed armed'
      → Agree ws (put text_discrete armed name f) armed'
  Agree-put [] armed armed' name f fresh a = tt
  Agree-put (w ∷ ws) armed armed' name f fresh a = (
    ground (arith, a.0, get-put text_discrete armed name w.name f),
    Agree-put ws armed armed' name f (ground arith) a.1,
  )

  Agree-refl : (ws : List (Warehouse S)) (armed : Dict String Firing) → Agree ws armed armed
  Agree-refl [] armed = tt
  Agree-refl (w ∷ ws) armed = (refl, Agree-refl ws armed)

  module _ (admit : Candidate → Bool) (now : ℕ) where
    -- The queue once the tables of a warehouse are offered, if it is due.
    unfoldable pub offer_one : Dict String Firing → Warehouse S → Queue → Queue
    offer_one armed w q = elim (get text_discrete armed w.name) [
      | none ↦ q
      | some f ↦
          if ltb now f.due
          then q
          else offer_tables admit w.name f.not_after (sorted w.table_config.tables) q
    ]

    abbrev pub offer_due : Dict String Firing → List (Warehouse S) → Queue → Queue
    offer_due armed [] q = q
    offer_due armed (w ∷ ws) q = offer_due armed ws (offer_one armed w q)

    pub record Outcome (ws : List (Warehouse S)) (armed before : Dict String Firing) (q : Queue)
        (t : Ticked) : Type 0 where
      pub fired : t.fired ≡ names (keep (is_due now armed) ws)
      pub firings : All (λ w. get text_discrete t.armed w.name ≡ firing_left now armed w) ws
      pub offered : t.queue ≡ offer_due armed ws q
      pub others :
          (name : String)
          → contains text_discrete (names ws) name ≡ false
          → get text_discrete t.armed name ≡ get text_discrete before name

    module _ (w : Warehouse S) (ws : List (Warehouse S)) (armed before : Dict String Firing)
        (q : Queue) (f : Firing) (e : get text_discrete armed w.name ≡ some f)
        (fresh : contains text_discrete (names ws) w.name ≡ false) where
      is_due-of : (b : Bool) → ltb now f.due ≡ b → is_due now armed w ≡ not b
      unfolding is_due
      is_due-of b h = rw (e, is_due) (rw h refl)

      firing_left-of :
          (b : Bool)
          → ltb now f.due ≡ b
          → firing_left now armed w
            ≡ (if b then some f else ops.firing_after w.schedule (max now f.nominal) w.name)
      unfolding firing_left
      firing_left-of b h = rw (e, firing_left) (rw h refl)

      offer_one-of :
          (b : Bool)
          → ltb now f.due ≡ b
          → offer_one armed w q ≡ (
              if b
              then q
              else offer_tables admit w.name f.not_after (sorted w.table_config.tables) q)
      unfolding offer_one
      offer_one-of b h = rw (e, offer_one) (rw h refl)

      Outcome-skip :
          (t : Ticked)
          → ltb now f.due ≡ true
          → get text_discrete before w.name ≡ some f
          → Outcome ws armed before q t
          → Outcome (w ∷ ws) armed before q t
      Outcome-skip t h g o = record {
        fired = rw (is_due-of true h) o.fired;
        firings = (o.others w.name fresh ∙ g ∙ sym (firing_left-of true h), o.firings);
        offered = rw (offer_one-of true h) o.offered;
        others = λ name new. o.others name (ground arith);
      }

      Outcome-fire :
          (t : Ticked) (next : Firing)
          → ltb now f.due ≡ false
          → ops.firing_after w.schedule (max now f.nominal) w.name ≡ some next
          → Outcome ws armed
              (put text_discrete before w.name next)
              (offer_tables admit w.name f.not_after (sorted w.table_config.tables) q)
              t
          → Outcome (w ∷ ws) armed before q (record t { fired = w.name ∷ t.fired })
      Outcome-fire t next h found o = record {
        fired = rw (is_due-of false h) (ap (◌∷◌ w.name) o.fired);
        firings = (
          o.others w.name fresh
              ∙ rw get-put (rw (if_pos _ refl) (sym (firing_left-of false h ∙ found))),
          o.firings,
        );
        offered = rw (offer_one-of false h) o.offered;
        others = λ name new. o.others name (ground arith) ∙ rw get-put (ground arith);
      }

    tick_from-Outcome :
        (ws : List (Warehouse S)) (armed before : Dict String Firing) (q : Queue)
        → Distinct text_discrete (names ws)
        → Armed ws armed
        → GoesOn now armed ws
        → Agree ws before armed
        → (t : Ticked) × (tick_from ops admit now ws before q ≡ some t)
          × Outcome ws armed before q t
    unfolding tick_from
    tick_from-Outcome [] armed before q d a m g = (
      record { armed = before; queue = q; fired = [] },
      refl,
      record { fired = refl; firings = tt; offered = refl; others = λ n h. refl },
    )
    tick_from-Outcome (w ∷ ws) armed before q d a m g =
        elim (Option-cases (get text_discrete armed w.name)) [
          | inl e ↦ absurd (ground (arith, a.0))
          | inr (f, e) ↦ elim (Bool-cases (ltb now f.due)) [
            | inl later ↦
                let (t, ran, o) = tick_from-Outcome ws armed before q d.1 a.1 m.1 g.1 in
                (
                  t,
                  rw (g.0 ∙ e, tick_from) (rw later ran),
                  Outcome-skip w ws armed before q f e d.0 t later (g.0 ∙ e) o,
                )
            | inr due ↦
                elim (Option-cases (ops.firing_after w.schedule (max now f.nominal) w.name)) [
                  | inl gone ↦
                      absurd
                        (ground (arith, m.0, firing_left-of w ws armed before q f e d.0 false due))
                  | inr (next, found) ↦
                      let (t, ran, o) =
                        tick_from-Outcome ws armed (put text_discrete before w.name next)
                          (offer_tables admit w.name f.not_after (sorted w.table_config.tables) q)
                          d.1 a.1 m.1 (Agree-put ws before armed w.name _ d.0 g.1) in
                      (
                        record t { fired = w.name ∷ t.fired },
                        rw (g.0 ∙ e, tick_from) (rw (due, found) (rw ran refl)),
                        Outcome-fire w ws armed before q f e d.0 t next due found o,
                      )
                ]
          ]
        ]

    -- On a fleet with distinct warehouses that all have a firing armed, and where the schedule of
    -- each due warehouse has a firing after it, a tick succeeds; it fires exactly the warehouses
    -- whose firing is due, in the fleet's order, offers every one of their tables, arms each again
    -- for after its firing and leaves the others' firings alone.
    pub tick-Outcome :
        (s : Scheduler S) (q : Queue)
        → Distinct text_discrete (names s.fleet)
        → Armed s.fleet s.armed
        → GoesOn now s.armed s.fleet
        → (t : Ticked) × (tick ops admit now s q ≡ some t) × Outcome s.fleet s.armed s.armed q t
    unfolding tick
    tick-Outcome s q d a m =
        tick_from-Outcome s.fleet s.armed s.armed q d a m (Agree-refl s.fleet s.armed)
