-- ===== src/Scheduler/Queue/Takes.antt =====
-- src/zamboni/scheduler.py: which item a worker is given, and what a finished run leaves to do.
use zamboni.Base.{
  String, ◌≡◌, refl, ◌∙◌, ap, List, [], ◌∷◌, ◌++◌, All, Option, none, some, Bool, true, arith, inl,
  inr, is_some, TableKey, key_discrete, Option-cases, Bool-cases, if_pos, if◌then◌else◌,
}
use zamboni.Base.Dict.{Dict, get, put, remove, get-put, get-remove}
use zamboni.Fleet.{Warehouse, ScheduleOps, find}
use zamboni.Scheduler.Candidate.{Candidate, key}
use zamboni.Scheduler.WorkItem
use zamboni.Scheduler.WorkItem.{WorkItem, resolve}
use zamboni.Scheduler.Queue.Cases.{offer-new}
use zamboni.Scheduler.Queue.{Queue, offer, take_from, take, finish}
use zamboni.Scheduler.Queue.Invariant.{IsSound, dropped-IsSound}

module _ {S : Type 0} (ops : ScheduleOps S) (fleet : List (Warehouse S)) where
  find-name :
      (ws : List (Warehouse S)) (name : String) (w : Warehouse S)
      → find ws name ≡ some w
      → w.name ≡ name
  unfolding find
  find-name [] name w h = cc
  find-name (x ∷ ws) name w h = ground (arith, find-name ws name w)

  -- An item is for the table that was offered, and the fleet declares that table.
  pub resolve-key :
      (c : Candidate) (item : WorkItem)
      → resolve ops c fleet ≡ some item
      → WorkItem.key item ≡ key c
  unfolding resolve
  resolve-key c item h = elim (Option-cases (find fleet c.warehouse)) [
    | inl gone ↦ absurd (ground (arith, gone))
    | inr (w, found) ↦ ground (arith, found, find-name fleet c.warehouse w found)
  ]

  -- `take` skipped these, which the fleet no longer declares.
  abbrev pub Undeclared : TableKey × Candidate → Type 0
  Undeclared e = resolve ops e.1 fleet ≡ none

  -- The item is that of the first candidate that the fleet declares; it was not in flight, and now is,
  -- with its own operations. Without an item nothing was declared, and nothing is queued.
  abbrev pub Taken : Queue → Dict TableKey Candidate → Queue × Option WorkItem → Type 0
  Taken q l (r, none) = (r.queued ≡ []) × All Undeclared l × (r.in_flight ≡ q.in_flight)
  Taken q l (r, some item) =
      (skipped : Dict TableKey Candidate) × (c : Candidate) × (l
        ≡ skipped ++ (WorkItem.key item, c) ∷ r.queued)
      × All Undeclared skipped
      × (resolve ops c fleet ≡ some item)
      × (get key_discrete q.in_flight (WorkItem.key item) ≡ none)
      × (r.in_flight ≡ put key_discrete q.in_flight (WorkItem.key item) (WorkItem.operations item))

  Taken-cons :
      (q : Queue) (e : TableKey × Candidate) (l : Dict TableKey Candidate)
      (r : Queue × Option WorkItem)
      → Undeclared e
      → Taken q l r
      → Taken q (e ∷ l) r
  Taken-cons q e l (r, none) gone t = (t.0, (gone, t.1), t.2)
  Taken-cons q e l (r, some item) gone (skipped, c, split, all, t, u, w) =
      (e ∷ skipped, c, ap (◌∷◌ e) split, (gone, all), t, u, w)

  not_in_flight :
      (q : Queue) (k : TableKey) (c : Candidate) (rest : Dict TableKey Candidate)
      → IsSound (record q { queued = (k, c) ∷ rest })
      → get key_discrete q.in_flight k ≡ none
  unfolding get
  not_in_flight q k c rest v = elim (Option-cases (get key_discrete q.in_flight k)) [
    | inl free ↦ free
    | inr (r, busy) ↦ ground (arith, v.exclusive k)
  ]

  head-key :
      (q : Queue) (k : TableKey) (c : Candidate) (rest : Dict TableKey Candidate)
      → IsSound (record q { queued = (k, c) ∷ rest })
      → key c ≡ k
  unfolding get
  head-key q k c rest v = v.keyed k c (ground arith)

  take_from-Taken :
      (q : Queue) (l : Dict TableKey Candidate)
      → IsSound (record q { queued = l })
      → Taken q l (take_from ops fleet q l)
  unfolding take_from
  take_from-Taken q [] v = (refl, tt, refl)
  take_from-Taken q ((k, c) ∷ rest) v = elim (Option-cases (resolve ops c fleet)) [
    | inl gone ↦
        rw (gone, take_from)
          (Taken-cons q (k, c) rest (take_from ops fleet q rest) gone
            (take_from-Taken q rest (dropped-IsSound ops fleet q k c rest v)))
    | inr (item, e) ↦
        let same : WorkItem.key item ≡ k = resolve-key c item e ∙ head-key q k c rest v in
        rw (e, take_from)
          ([], c, rw same refl, tt, e, rw same (not_in_flight q k c rest v), rw same refl)
  ]

  -- From a sound queue, `take` gives the first queued candidate that the fleet still declares, as
  -- its resolved item, drops those before it, which the fleet does not declare, and marks the
  -- table, which was not in flight, as in flight with the item's operations; with no declared
  -- candidate it gives nothing and empties the queue.
  pub take-Taken : (q : Queue) → IsSound q → Taken q q.queued (take ops fleet q)
  unfolding take
  take-Taken q v = take_from-Taken q q.queued v

-- What `finish` leaves before the re-offer.
abbrev ended : Queue → TableKey → Queue
ended q k = record q {
  in_flight = remove key_discrete q.in_flight k;
  dirty = remove key_discrete q.dirty k;
}

reoffer-Requeued :
    (admit : Candidate → Bool) (q : Queue) (k : TableKey) (c : Candidate)
    → IsSound q
    → is_some (get key_discrete q.in_flight k) ≡ true
    → key c ≡ k
    → (get key_discrete (offer admit (ended q k) c).0.in_flight k ≡ none)
      × (get key_discrete (offer admit (ended q k) c).0.queued k
          ≡ (if admit c then some c else none))
unfolding offer
reoffer-Requeued admit q k c v busy same =
    let free : get key_discrete (ended q k).in_flight k ≡ none =
      rw (get-remove, if_pos _ refl) refl in
    let idle : get key_discrete q.queued k ≡ none = v.exclusive k busy in
    elim (Bool-cases (admit c)) [
      | inl let_in ↦ rw let_in (
          rw (offer-new (ended q k) c (rw same free) (rw same idle))
            (free, rw get-put (ground (arith, same))))
      | inr refused ↦ rw refused (free, idle)
    ]

-- What is queued again of a dirty table.
abbrev pub admitted_again : (Candidate → Bool) → Option Candidate → Option Candidate
admitted_again admit none = none
admitted_again admit (some c) = if admit c then some c else none

-- From a sound queue, when the run of an item in flight ends, its table is no longer in flight,
-- and what is queued for it is what went dirty during the run if the runtime admits that, and
-- otherwise nothing.
pub finish-Requeued :
    (admit : Candidate → Bool) (q : Queue) (item : WorkItem)
    → IsSound q
    → is_some (get key_discrete q.in_flight (WorkItem.key item)) ≡ true
    → (get key_discrete (finish admit q item).in_flight (WorkItem.key item) ≡ none)
      × (get key_discrete (finish admit q item).queued (WorkItem.key item)
          ≡ admitted_again admit (get key_discrete q.dirty (WorkItem.key item)))
unfolding finish
finish-Requeued admit q item v busy =
    elim (Option-cases (get key_discrete q.dirty (WorkItem.key item))) [
      | inl clean ↦
          rw clean (rw (get-remove, if_pos _ refl) refl, v.exclusive (WorkItem.key item) busy)
      | inr (c, dirty) ↦ rw dirty (
          reoffer-Requeued admit q (WorkItem.key item) c v busy
            (v.dirty_keyed (WorkItem.key item) c dirty))
    ]
