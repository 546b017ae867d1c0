-- ===== src/Scheduler/Queue/Runs.antt =====
-- src/zamboni/scheduler.py: any history of calls of the queue, under any fleets and any refusals.
use zamboni.Base.{List, [], ◌∷◌, Bool}
use zamboni.Fleet.{Warehouse, ScheduleOps}
use zamboni.Scheduler.Candidate.{Candidate}
use zamboni.Scheduler.WorkItem.{WorkItem}
use zamboni.Scheduler.Queue.{Queue, empty, offer, take, finish}
use zamboni.Scheduler.Queue.Invariant.{
  IsSound, empty-IsSound, offer-IsSound, take-IsSound, finish-IsSound,
}

-- A call, with what `admit` answers or the fleet that is current when it is made.
pub data Call (S : Type 0) : Type 0 where
  offers : (Candidate → Bool) → Candidate → Call S
  takes : List (Warehouse S) → Call S
  finishes : (Candidate → Bool) → WorkItem → Call S

module _ {S : Type 0} (ops : ScheduleOps S) where
  unfoldable pub after_call : Queue → Call S → Queue
  after_call q (offers admit c) = (offer admit q c).0
  after_call q (takes fleet) = (take ops fleet q).0
  after_call q (finishes admit item) = finish admit q item

  unfoldable pub after_calls : Queue → List (Call S) → Queue
  unfolding after_call
  after_calls q [] = q
  after_calls q (c ∷ cs) = after_calls (after_call q c) cs

  after_call-IsSound : (q : Queue) (c : Call S) → IsSound q → IsSound (after_call q c)
  unfolding after_call
  after_call-IsSound q (offers admit c) v = offer-IsSound admit q c v
  after_call-IsSound q (takes fleet) v = take-IsSound ops fleet q v
  after_call-IsSound q (finishes admit item) v = finish-IsSound admit q item v

  after_calls-keep : (q : Queue) (cs : List (Call S)) → IsSound q → IsSound (after_calls q cs)
  unfolding after_calls
  after_calls-keep q [] v = v
  after_calls-keep q (c ∷ cs) v = after_calls-keep (after_call q c) cs (after_call-IsSound q c v)

  -- After any history of offers, takes and finished runs of an empty queue, whatever the fleets
  -- and the refusals were: each entry stands under its own table's key, no table is both queued
  -- and in flight or queued twice, only tables in flight are dirty, and a waiting `get` has been
  -- told of what is queued.
  pub after_calls-IsSound : (cs : List (Call S)) → IsSound (after_calls empty cs)
  after_calls-IsSound cs = after_calls-keep empty cs empty-IsSound
