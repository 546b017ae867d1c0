-- ===== src/Scheduler/Queue/Offers.antt =====
-- src/zamboni/scheduler.py: no offer that is admitted is lost, whichever path it takes.
use zamboni.Base.{
  ◌≡◌, refl, ap, Option, none, some, Bool, true, false, ◌||◌, ◌&&◌, not, contains, arith, inl, inr,
  TableKey, ◌≢◌, key_discrete, Option-cases, Bool-cases, if_pos, if_neg,
}
use zamboni.Base.Dict.{Dict, get, put, get-put}
use zamboni.Scheduler.Reasons.{Reason-discrete, event, Operation, Operations}
use zamboni.Scheduler.Reasons.Unions.{runs, covers-runs}
use zamboni.Scheduler.Candidate.{Candidate, key, reasons, operations, merged}
use zamboni.Scheduler.Queue.Cases.{offer-new, offer-queued, offer-marked, offer-covered}
use zamboni.Scheduler.Queue.{Queue, merge_into, wants_another_run, offer_admitted, offer}
use zamboni.Scheduler.Queue.Merges.{runs-merged}

abbrev pub asked : Option Candidate → Operation → Bool
asked none o = false
asked (some c) o = runs (operations c) o

-- What is done from the run in flight, the run that follows it and the run that is queued.
abbrev to_run : Option Operations → Option Candidate → Option Candidate → Operation → Bool
to_run (some running) again waiting o = runs running o || asked again o
to_run none again waiting o = asked waiting o

-- Whether the run in flight does an operation for a table, or a later run of the queue will.
abbrev pub in_hand : Queue → TableKey → Operation → Bool
in_hand q k o =
    to_run (get key_discrete q.in_flight k) (get key_discrete q.dirty k)
      (get key_discrete q.queued k) o

asked-merge_into :
    (d : Dict TableKey Candidate) (c : Candidate) (o : Operation)
    → asked (get key_discrete (merge_into d c) (key c)) o
      ≡ (asked (get key_discrete d (key c)) o || runs (operations c) o)
asked-merge_into d c o = elim (Option-cases (get key_discrete d (key c))) [
  | inl new ↦ rw (new, merge_into) (rw (get-put, if_pos _ refl) refl)
  | inr (x, old) ↦ rw (old, merge_into) (rw (get-put, if_pos _ refl) (runs-merged x c o))
]

merge_into-ne :
    (d : Dict TableKey Candidate) (c : Candidate) (k : TableKey)
    → key c ≢ k
    → get key_discrete (merge_into d c) k ≡ get key_discrete d k
merge_into-ne d c k n = elim (Option-cases (get key_discrete d (key c))) [
  | inl new ↦ rw (new, merge_into) (rw (get-put, if_neg _ n) refl)
  | inr (x, old) ↦ rw (old, merge_into) (rw (get-put, if_neg _ n) refl)
]

module _ (q : Queue) (c : Candidate) (o : Operation) where
  in_hand-queued :
      (d : Candidate) (ready : Bool)
      → get key_discrete q.in_flight (key c) ≡ none
      → runs (operations d) o
        ≡ (asked (get key_discrete q.queued (key c)) o || runs (operations c) o)
      → in_hand (record q { queued = put key_discrete q.queued (key c) d; ready = ready }) (key c) o
        ≡ (in_hand q (key c) o || runs (operations c) o)
  in_hand-queued d ready free e = rw free (rw (get-put, if_pos _ refl) e)

  in_hand-marked :
      (running : Operations)
      → get key_discrete q.in_flight (key c) ≡ some running
      → in_hand (record q { dirty = merge_into q.dirty c }) (key c) o
        ≡ (in_hand q (key c) o || runs (operations c) o)
  in_hand-marked running busy = rw busy (ground (arith, asked-merge_into q.dirty c o))

  in_hand-covered :
      (running : Operations)
      → get key_discrete q.in_flight (key c) ≡ some running
      → wants_another_run running c ≡ false
      → in_hand q (key c) o ≡ (in_hand q (key c) o || runs (operations c) o)
  in_hand-covered running busy done = rw busy (ground (arith, covers-runs running (operations c) o))

  in_hand-offer_admitted :
      in_hand (offer_admitted q c).0 (key c) o ≡ (in_hand q (key c) o || runs (operations c) o)
  in_hand-offer_admitted = elim (Option-cases (get key_discrete q.in_flight (key c))) [
    | inl free ↦ elim (Option-cases (get key_discrete q.queued (key c))) [
      | inl new ↦ rw (offer-new q c free new) ((in_hand-queued c true free (rw new refl)))
      | inr (earlier, old) ↦
          rw (offer-queued q c earlier free old)
            ((in_hand-queued _ q.ready free (rw old (runs-merged earlier c o))))
    ]
    | inr (running, busy) ↦ elim (Bool-cases (wants_another_run running c)) [
      | inl more ↦ rw (offer-marked q c running busy more) ((in_hand-marked running busy))
      | inr done ↦ rw (offer-covered q c running busy done) ((in_hand-covered running busy done))
    ]
  ]

-- An admitted offer adds just its operations to those in hand for its table.
pub in_hand-offer :
    (admit : Candidate → Bool) (q : Queue) (c : Candidate) (o : Operation)
    → admit c ≡ true
    → in_hand (offer admit q c).0 (key c) o ≡ (in_hand q (key c) o || runs (operations c) o)
unfolding offer
in_hand-offer admit q c o let_in = rw let_in (in_hand-offer_admitted q c o)

-- An offer leaves every other table alone.
pub in_hand-offer_ne :
    (admit : Candidate → Bool) (q : Queue) (c : Candidate) (k : TableKey) (o : Operation)
    → key c ≢ k
    → in_hand (offer admit q c).0 k o ≡ in_hand q k o
unfolding offer
in_hand-offer_ne admit q c k o n = elim (Bool-cases (admit c)) [
  | inl let_in ↦ rw let_in admitted
  | inr refused ↦ rw refused refl
]
  where
    moved :
        (d : Candidate) (ready : Bool)
        → in_hand (record q { queued = put key_discrete q.queued (key c) d; ready = ready }) k o
          ≡ in_hand q k o
    moved d ready =
        ap (λ x. to_run (get key_discrete q.in_flight k) (get key_discrete q.dirty k) x o)
          (rw (get-put, if_neg _ n) refl)

    admitted : in_hand (offer_admitted q c).0 k o ≡ in_hand q k o
    admitted = elim (Option-cases (get key_discrete q.in_flight (key c))) [
      | inl free ↦ elim (Option-cases (get key_discrete q.queued (key c))) [
        | inl new ↦ rw (offer-new q c free new) (moved c true)
        | inr (earlier, old) ↦
            rw (offer-queued q c earlier free old) (moved (merged earlier c) q.ready)
      ]
      | inr (running, busy) ↦ elim (Bool-cases (wants_another_run running c)) [
        | inl more ↦ rw (offer-marked q c running busy more) (
            (ap (λ x. to_run (get key_discrete q.in_flight k) x (get key_discrete q.queued k) o)
              (merge_into-ne q.dirty c k n)))
        | inr done ↦ rw (offer-covered q c running busy done) (refl)
      ]
    ]

-- What a run that starts from now on does: the one after the run in flight, or the queued one.
abbrev to_start : Option Operations → Option Candidate → Option Candidate → Operation → Bool
to_start (some running) again waiting o = asked again o
to_start none again waiting o = asked waiting o

-- Whether a run that starts from now on does an operation for a table.
abbrev pub will_run : Queue → TableKey → Operation → Bool
will_run q k o =
    to_start (get key_discrete q.in_flight k) (get key_discrete q.dirty k)
      (get key_discrete q.queued k) o

abbrev does : Option Operations → Operation → Bool
does none o = false
does (some running) o = runs running o

-- The candidate reports no write, and the run in flight does the operation for its table.
abbrev pub excused : Queue → Candidate → Operation → Bool
excused q c o =
    not (contains Reason-discrete (reasons c) event)
    && does (get key_discrete q.in_flight (key c)) o
