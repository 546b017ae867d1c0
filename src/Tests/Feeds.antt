-- ===== src/Tests/Feeds.antt =====
-- Tests of src/zamboni/events/feed.py and src/zamboni/runstate.py.
use zamboni.Base.{
  ◌+◌, ◌≡◌, refl, TableKey, List, [], ◌∷◌, map, none, some, true, false, arith, length,
  text_discrete, key_discrete, contains, or_else,
}
use zamboni.Base.Dict.{get, put}
use zamboni.Events.{WriteCompleted}
use zamboni.Events.Feed.{EventFeed, flush_due, due_keys, event_candidate}
use zamboni.Events.Feed.Flushes.{flush_due_lem, still_waiting}
use zamboni.Events.Feed.Accounts.{IsSound, Step, message, flush, after_steps, after_steps-IsSound}
use zamboni.Events.Feed.Waits.{after_messages, never_starved}
use zamboni.Ledger.{Ledger, fired, sweeps_of, state_of}
use zamboni.Ledger.Sweeps.{WaitsFor, after_results, results-close}
use zamboni.Tests.{fleet, run_of}

abbrev orders_written : WriteCompleted
orders_written = record {
  warehouse = "sales";
  namespace = "b" ∷ [];
  table = "orders";
  snapshot_id = 7;
}

abbrev new_feed : EventFeed
new_feed = record {
  quiet = 5;
  cap = 20;
  dedup_size = 100;
  seen = [];
  pending = [];
  woken = false;
  counters = record {
    received = 0;
    offered = 0;
    coalesced = 0;
    duplicates = 0;
    unmapped = 0;
    rejected = 0;
  };
}

abbrev steps : List Step
steps =
    message (some orders_written) 3
    ∷ message (some orders_written) 4
    ∷ message none 5
    ∷ flush 9
    ∷ []

after_steps-IsSound_example : IsSound (after_steps fleet new_feed steps)
after_steps-IsSound_example =
    after_steps-IsSound fleet steps new_feed
      (record { distinct = tt; bounded = omega arith; accounted = omega arith })

-- The orders are pending since 3.
abbrev waiting : EventFeed
waiting = record new_feed { pending = (("sales", "b.orders"), record { first = 3; last = 3 }) ∷ [] }

never_starved_example :
    (ks : List TableKey) × ((flush_due
        (after_messages fleet waiting ((some orders_written, 8) ∷ (none, 12) ∷ []))
        23).1
      ≡ map event_candidate ks)
    × (contains key_discrete ks ("sales", "b.orders") ≡ true)
unfolding get key_discrete text_discrete
never_starved_example =
    never_starved fleet waiting ("sales", "b.orders") 3 ((some orders_written, 8) ∷ (none, 12) ∷ [])
      23 refl (omega arith)

flush_due_lem_example :
    ((flush_due waiting 9).0.pending ≡ still_waiting 5 20 9 waiting.pending)
    × ((flush_due waiting 9).1 ≡ map event_candidate (due_keys 5 20 9 waiting.pending))
    × ((flush_due waiting 9).0.counters.offered ≡ 0 + length (due_keys 5 20 9 waiting.pending))
flush_due_lem_example = flush_due_lem waiting 9 (refl, tt)

abbrev new_ledger : Ledger
new_ledger = record { last_error = none; reload_error = none; warehouses = []; sweeps = [] }

abbrev one_sweep : Ledger
one_sweep = fired new_ledger "sales" ("b.orders" ∷ []) 3

waits : WaitsFor ("b.orders" ∷ []) (record {
  fired_at = 3;
  pending = "b.orders" ∷ [];
  tables = 1;
  worst_exit_code = 0;
  failures = 0;
  dropped = 0;
})
waits t h = h

results-close_example :
    (sweeps_of (after_results one_sweep ((run_of 1, 9) ∷ [])) "sales" ≡ [])
    × (or_else (state_of (after_results one_sweep ((run_of 1, 9) ∷ [])) "sales").open_sweeps 0 ≡ 0)
unfolding fired get put text_discrete
results-close_example =
    results-close ((run_of 1, 9) ∷ []) one_sweep "sales" (refl, tt) refl (refl, tt) (waits, tt)
