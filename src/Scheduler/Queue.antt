-- ===== src/Scheduler/Queue.antt =====
-- src/zamboni/scheduler.py: `CandidateQueue`. A method takes the queue and returns the new one beside its
-- answer; `admit` is the runtime's refusal, asked anew at every offer.
pub mod Cases
pub mod Invariant
pub mod Merges
pub mod Offers
pub mod Takes
pub mod Runs
use zamboni.Base.{
  List, [], ◌∷◌, Option, none, some, Bool, true, false, ◌||◌, not, TableKey, key_discrete, contains,
  if◌then◌else◌,
}
use zamboni.Base.Dict.{Dict, get, put, remove}
use zamboni.Fleet.{Warehouse, ScheduleOps}
use zamboni.Scheduler.Reasons.{Reason-discrete, event, Operations, covers}
use zamboni.Scheduler.Candidate.{Candidate, key, reasons, operations, merged}
use zamboni.Scheduler.WorkItem
use zamboni.Scheduler.WorkItem.{WorkItem, resolve}

pub record Queue : Type 0 where
  pub queued : Dict TableKey Candidate
  pub in_flight : Dict TableKey Operations
  pub dirty : Dict TableKey Candidate
  pub ready : Bool

abbrev pub empty : Queue
empty = record { queued = []; in_flight = []; dirty = []; ready = false }

-- `candidate.reasons & _REOFFER_AFTER_RUN or not covers(running, candidate.operations)`
abbrev pub wants_another_run : Operations → Candidate → Bool
wants_another_run running c =
    contains Reason-discrete (reasons c) event || not (covers running (operations c))

-- `d[key] = c if d.get(key) is None else _merged(d[key], c)`
abbrev pub merge_into : Dict TableKey Candidate → Candidate → Dict TableKey Candidate
merge_into d c = elim (get key_discrete d (key c)) [
  | none ↦ put key_discrete d (key c) c
  | some earlier ↦ put key_discrete d (key c) (merged earlier c)
]

-- `offer` of a candidate that `admit` lets through.
unfoldable pub offer_admitted : Queue → Candidate → Queue × Bool
offer_admitted q c = elim (get key_discrete q.in_flight (key c)) [
  | some running ↦
      if wants_another_run running c
      then (record q { dirty = merge_into q.dirty c }, false)
      else (q, false)
  | none ↦ elim (get key_discrete q.queued (key c)) [
    | some earlier ↦
        (record q { queued = put key_discrete q.queued (key c) (merged earlier c) }, false)
    | none ↦ (record q { queued = put key_discrete q.queued (key c) c; ready = true }, true)
  ]
]

unfoldable pub offer : (Candidate → Bool) → Queue → Candidate → Queue × Bool
unfolding offer_admitted
offer admit q c = if admit c then offer_admitted q c else (q, false)

-- `self._ready.clear()` once nothing is queued.
abbrev pub ready_after : Dict TableKey Candidate → Bool → Bool
ready_after [] ready = false
ready_after (e ∷ rest) ready = ready

module _ {S : Type 0} (ops : ScheduleOps S) (fleet : List (Warehouse S)) where
  -- The loop of `take`, over what is queued.
  unfoldable pub take_from : Queue → Dict TableKey Candidate → Queue × Option WorkItem
  take_from q [] = (record q { queued = []; ready = false }, none)
  take_from q ((k, c) ∷ rest) = elim (resolve ops c fleet) [
    | none ↦ take_from q rest
    | some item ↦ (
      record q {
        queued = rest;
        in_flight = put key_discrete q.in_flight k (WorkItem.operations item);
        ready = ready_after rest q.ready;
      },
      some item,
    )
  ]

  unfoldable pub take : Queue → Queue × Option WorkItem
  unfolding take_from
  take q = take_from q q.queued

-- The re-offer of what went dirty during the run.
abbrev pub reoffer : (Candidate → Bool) → Queue → Option Candidate → Queue
reoffer admit q none = q
reoffer admit q (some c) = (offer admit q c).0

unfoldable pub finish : (Candidate → Bool) → Queue → WorkItem → Queue
unfolding offer
finish admit q item =
    reoffer admit
      (record q {
        in_flight = remove key_discrete q.in_flight (WorkItem.key item);
        dirty = remove key_discrete q.dirty (WorkItem.key item);
      })
      (get key_discrete q.dirty (WorkItem.key item))
