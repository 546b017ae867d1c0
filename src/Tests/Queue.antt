-- ===== src/Tests/Queue.antt =====
-- Tests of src/zamboni/scheduler.py: the queue and the reasons.
use zamboni.Base.{ℕ, ◌≡◌, refl, List, [], ◌∷◌, none, some, true, key_discrete, text_discrete}
use zamboni.Fleet.{find}
use zamboni.Base.Dict.{get, put, remove}
use zamboni.Scheduler.Reasons.{Reason-discrete}
use zamboni.Scheduler.WorkItem
use zamboni.Scheduler.Queue.{Queue, empty, offer, take, finish}
use zamboni.Scheduler.Queue.Invariant.{IsSound}
use zamboni.Scheduler.Queue.Takes.{Taken, take-Taken, admitted_again, finish-Requeued}
use zamboni.Scheduler.Queue.Runs.{Call, offers, takes, after_calls, after_calls-IsSound}
use zamboni.Tests.{every, fleet, orders, orders_scheduled, orders_item}

-- The orders are offered, taken, written to during the run, and offered again when it ends.
abbrev history : List (Call ℕ)
history = offers (λ c. true) orders_scheduled ∷ takes fleet ∷ offers (λ c. true) orders ∷ []

abbrev busy : Queue
busy = after_calls every empty history

rerun :
    get key_discrete (finish (λ c. true) busy orders_item).queued ("sales", "b.orders")
    ≡ some orders
unfolding after_calls finish get take put WorkItem.resolve find text_discrete key_discrete
    Reason-discrete remove
rerun = refl

after_calls-IsSound_example : IsSound (after_calls every empty history)
after_calls-IsSound_example = after_calls-IsSound every history

abbrev waiting : Queue
waiting = after_calls every empty (offers (λ c. true) orders ∷ [])

take-Taken_example : Taken every fleet waiting waiting.queued (take every fleet waiting)
take-Taken_example =
    take-Taken every fleet waiting (after_calls-IsSound every (offers (λ c. true) orders ∷ []))

finish-Requeued_example :
    (get key_discrete (finish (λ c. true) busy orders_item).in_flight ("sales", "b.orders") ≡ none)
    × (get key_discrete (finish (λ c. true) busy orders_item).queued ("sales", "b.orders")
        ≡ admitted_again (λ c. true) (get key_discrete busy.dirty ("sales", "b.orders")))
unfolding after_calls get take put WorkItem.resolve find text_discrete key_discrete Reason-discrete
    offer
finish-Requeued_example =
    finish-Requeued (λ c. true) busy orders_item (after_calls-IsSound every history) refl
