-- ===== src/Scheduler/Queue/Cases.antt =====
-- src/zamboni/scheduler.py: the four ways of `offer`, as equations.
use zamboni.Base.{◌≡◌, refl, none, some, true, false, key_discrete}
use zamboni.Base.Dict.{get, put}
use zamboni.Scheduler.Reasons.{Operations}
use zamboni.Scheduler.Candidate.{Candidate, key, merged}
use zamboni.Scheduler.Queue.{Queue, merge_into, wants_another_run, offer_admitted}

module _ (q : Queue) (c : Candidate) where
  pub offer-new :
      get key_discrete q.in_flight (key c) ≡ none
      → get key_discrete q.queued (key c) ≡ none
      → offer_admitted q c
        ≡ (record q { queued = put key_discrete q.queued (key c) c; ready = true }, true)
  unfolding offer_admitted
  offer-new free new = rw (free, offer_admitted) (rw (new, offer_admitted) refl)

  pub offer-queued :
      (earlier : Candidate)
      → get key_discrete q.in_flight (key c) ≡ none
      → get key_discrete q.queued (key c) ≡ some earlier
      → offer_admitted q c
        ≡ (record q { queued = put key_discrete q.queued (key c) (merged earlier c) }, false)
  unfolding offer_admitted
  offer-queued earlier free old = rw (free, offer_admitted) (rw (old, offer_admitted) refl)

  pub offer-marked :
      (running : Operations)
      → get key_discrete q.in_flight (key c) ≡ some running
      → wants_another_run running c ≡ true
      → offer_admitted q c ≡ (record q { dirty = merge_into q.dirty c }, false)
  unfolding offer_admitted
  offer-marked running busy more = rw (busy, offer_admitted) (rw more refl)

  pub offer-covered :
      (running : Operations)
      → get key_discrete q.in_flight (key c) ≡ some running
      → wants_another_run running c ≡ false
      → offer_admitted q c ≡ (q, false)
  unfolding offer_admitted
  offer-covered running busy done = rw (busy, offer_admitted) (rw done refl)
