-- ===== src/Scheduler/Ticks/Reloads.antt =====
-- src/zamboni/scheduler.py: a reload keeps the firings of unchanged schedules and loses no warehouse.
use zamboni.Base.{
  ℕ, ◌≡◌, refl, sym, ◌∙◌, subst, String, List, [], ◌∷◌, some, true, false, ◌||◌, arith, inl, inr,
  text_discrete, contains, All, is_some, Distinct, Option-cases, Bool-cases, if_pos,
}
use zamboni.Base.Dict.{Dict, get, put, get-put}
use zamboni.Fleet.{Firing, Warehouse, ScheduleOps, names, find}
use zamboni.Scheduler.Ticks.{Scheduler, unchanged, rearmed, rearm_from, rearm}
use zamboni.Scheduler.Ticks.Fires.{Armed}

module _ {S : Type 0} (ops : ScheduleOps S) where
  find-armed :
      (ws : List (Warehouse S)) (armed : Dict String Firing) (name : String) (w : Warehouse S)
      → Armed ops ws armed
      → find ws name ≡ some w
      → is_some (get text_discrete armed name) ≡ true
  unfolding find
  find-armed [] armed name w a found = cc
  find-armed (x ∷ ws) armed name w a found = elim (text_discrete x.name name) [
    | yes here ↦ subst (λ n. is_some (get text_discrete armed n) ≡ true) here a.0
    | no there ↦ find-armed ws armed name w a.1 (ground arith)
  ]

  module _ (s : Scheduler S) (now : ℕ) (armed : Armed ops s.fleet s.armed) where
    -- The schedule of each warehouse is unchanged or finds a first firing.
    abbrev pub Starts : List (Warehouse S) → Type 0
    Starts ws =
        All
          (λ w.
            (unchanged ops s.fleet w || is_some (ops.first_firing w.schedule now w.name)) ≡ true)
          ws

    unchanged-armed :
        (w : Warehouse S)
        → unchanged ops s.fleet w ≡ true
        → is_some (get text_discrete s.armed w.name) ≡ true
    unfolding unchanged
    unchanged-armed w same = elim (Option-cases (find s.fleet w.name)) [
      | inl gone ↦ absurd (ground (arith, gone, same))
      | inr (old, found) ↦ find-armed s.fleet s.armed w.name old armed found
    ]

    rearmed-total :
        (w : Warehouse S)
        → (unchanged ops s.fleet w || is_some (ops.first_firing w.schedule now w.name)) ≡ true
        → (f : Firing) × (rearmed ops s now w ≡ some f)
    unfolding rearmed
    rearmed-total w h = elim (Bool-cases (unchanged ops s.fleet w)) [
      | inl same ↦ elim (Option-cases (get text_discrete s.armed w.name)) [
        | inl e ↦ absurd (ground (arith, unchanged-armed w same, e))
        | inr (f, e) ↦ (f, rw same e)
      ]
      | inr changed ↦ elim (Option-cases (ops.first_firing w.schedule now w.name)) [
        | inl e ↦ absurd (ground (arith, h, changed, e))
        | inr (f, e) ↦ (f, rw changed e)
      ]
    ]

    pub record Reloaded (ws : List (Warehouse S)) (before after : Dict String Firing) : Type 0 where
      pub firings : All (λ w. get text_discrete after w.name ≡ rearmed ops s now w) ws
      pub others :
          (name : String)
          → contains text_discrete (names ws) name ≡ false
          → get text_discrete after name ≡ get text_discrete before name

    Reloaded-cons :
        (w : Warehouse S) (ws : List (Warehouse S)) (before after : Dict String Firing) (f : Firing)
        → rearmed ops s now w ≡ some f
        → contains text_discrete (names ws) w.name ≡ false
        → Reloaded ws (put text_discrete before w.name f) after
        → Reloaded (w ∷ ws) before after
    Reloaded-cons w ws before after f e fresh r = record {
      firings = (r.others w.name fresh ∙ rw get-put (rw (if_pos _ refl) (sym e)), r.firings);
      others = λ name new. r.others name (ground arith) ∙ rw get-put (ground arith);
    }

    rearm_from-Reloaded :
        (ws : List (Warehouse S)) (before : Dict String Firing)
        → Distinct text_discrete (names ws)
        → Starts ws
        → (after : Dict String Firing) × (rearm_from ops s now ws before ≡ some after)
          × Reloaded ws before after
    unfolding rearm_from
    rearm_from-Reloaded [] before d h =
        (before, refl, record { firings = tt; others = λ name h. refl })
    rearm_from-Reloaded (w ∷ ws) before d h =
        let (f, e) = rearmed-total w h.0 in
        let (after, ran, r) = rearm_from-Reloaded ws (put text_discrete before w.name f) d.1 h.1 in
        (after, rw (e, rearm_from) ran, Reloaded-cons w ws before after f e d.0 r)

    firings-Armed :
        (ws : List (Warehouse S)) (after : Dict String Firing)
        → Starts ws
        → All (λ w. get text_discrete after w.name ≡ rearmed ops s now w) ws
        → Armed ops ws after
    firings-Armed [] after m h = tt
    firings-Armed (w ∷ ws) after m h =
        let (f, e) = rearmed-total w m.0 in (ground (arith, h.0, e), firings-Armed ws after m.1 h.1)

    -- On a fleet with distinct warehouses, where those of the fleet in use all have a firing
    -- armed, and where each schedule of the new fleet is unchanged or has a first firing, a reload
    -- succeeds. Each warehouse of the new fleet has a firing armed: the one it waited for if its
    -- schedule is unchanged, and a first firing from now otherwise; a removed one has none.
    pub rearm-Reloaded :
        (fleet : List (Warehouse S))
        → Distinct text_discrete (names fleet)
        → Starts fleet
        → (r : Scheduler S) × (rearm ops s fleet now ≡ some r)
          × (r.fleet ≡ fleet)
          × Armed ops fleet r.armed
          × Reloaded fleet [] r.armed
    unfolding rearm
    rearm-Reloaded fleet d m =
        let (after, ran, r) = rearm_from-Reloaded fleet [] d m in
        (
          record { fleet = fleet; armed = after },
          rw (ran, rearm) refl,
          refl,
          firings-Armed fleet after m r.firings,
          r,
        )
