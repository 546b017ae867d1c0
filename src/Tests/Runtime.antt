-- ===== src/Tests/Runtime.antt =====
-- Tests of src/zamboni/quarantine.py, claims.py, runstate.py and events/feed.py.
use zamboni.Base.{
  ℕ, min, ◌-◌, ◌*◌, ◌^◌, ◌+◌, ◌<◌, ◌≡◌, refl, List, [], ◌∷◌, none, some, ◌||◌, arith, ltb, leb,
  length, text_discrete, key_discrete, contains,
}
use zamboni.Base.Dict.{get, put, remove}
use zamboni.Scheduler.Reasons.{Reason-discrete, manual}
use zamboni.Scheduler.Candidate.{reasons}
use zamboni.Quarantine.{Quarantine, ItemResult, make_quarantine, finished, admits}
use zamboni.Quarantine.Backoff.{IsSound, make_quarantine-IsSound}
use zamboni.Quarantine.History.{ended, reloaded, after_history, after_history-IsSound}
use zamboni.Quarantine.Streak.{after_runs, failing_runs-admits}
use zamboni.Claims.{
  Claim, LocalClaimStore, answered, acquire_call, release_call, empty_store, acquire, renew,
  release, after_call, after_calls, own,
}
use zamboni.Claims.Fencing.{tokens-increase, Superseded, Superseded-forever}
use zamboni.Claims.Exclusion.{claim-excludes}
use zamboni.Tests.{fleet, orders, run_of}

abbrev fresh : Quarantine
fresh = record { threshold = some 2; backoff = 5; most = 60; failures = []; quarantined = [] }

fresh-IsSound : IsSound fresh
unfolding make_quarantine
fresh-IsSound = make_quarantine-IsSound (some 2) 5 60 fresh (omega arith) refl

abbrev one_failure : List (ItemResult × ℕ)
one_failure = (run_of 1, 10) ∷ []

failing_runs-admits_example :
    admits (finished (after_runs fresh one_failure) (run_of 1) 20).0 orders 24 ≡ (
      contains Reason-discrete (reasons orders) manual
      || ltb (length one_failure + 1) 2
      || leb (20 + min (5 * 2 ^ (length one_failure + 1 - 2)) 60) 24)
unfolding get
failing_runs-admits_example =
    failing_runs-admits fresh one_failure (run_of 1) 20 2 orders 24 fresh-IsSound refl refl
      ((refl, (refl, refl)), tt) (refl, refl) (omega arith) refl

abbrev first_claim : Claim
first_claim = record {
  warehouse = "sales";
  table = "b.orders";
  holder = "a";
  token = 1;
  expires_at = 100;
}

abbrev second_claim : Claim
second_claim = record {
  warehouse = "sales";
  table = "b.orders";
  holder = "b";
  token = 2;
  expires_at = 250;
}

abbrev claimed : LocalClaimStore
claimed = (acquire empty_store "sales" "b.orders" "a" 90 "schedule" 10).0

claim-excludes_example :
    ((acquire
        (after_calls claimed
          (release_call second_claim ∷ acquire_call "sales" "b.orders" "b" 90 "event" 60 ∷ []))
        "sales"
        "b.orders"
        "b"
        90
        "event"
        99).1
      ≡ answered none)
    × ((renew
          (after_calls claimed
            (release_call second_claim ∷ acquire_call "sales" "b.orders" "b" 90 "event" 60 ∷ []))
          first_claim
          90
          99).1
        ≡ answered (some (record first_claim { expires_at = 99 + 90 })))
unfolding acquire get key_discrete text_discrete
claim-excludes_example =
    claim-excludes empty_store "sales" "b.orders" "a" 90 "schedule" 10 first_claim
      (release_call second_claim ∷ acquire_call "sales" "b.orders" "b" 90 "event" 60 ∷ []) "b" 90
      "event" 99 refl (refl, (omega arith, tt)) (omega arith) (omega arith)

tokens-increase_example : 1 < 2
unfolding after_call acquire renew release own get put remove key_discrete text_discrete
tokens-increase_example =
    tokens-increase empty_store "sales" "b.orders" "a" 90 "schedule" 10 first_claim
      (release_call first_claim ∷ []) "sales" "b.orders" "b" 90 "event" 160 second_claim refl refl

-- The table is the second holder's.
abbrev taken_over : LocalClaimStore
taken_over = after_calls claimed (acquire_call "sales" "b.orders" "b" 90 "event" 160 ∷ [])

taken_over-Superseded : Superseded taken_over first_claim
unfolding after_call acquire get put key_discrete text_discrete
taken_over-Superseded = (omega arith, refl)

Superseded-forever_example :
    (renew (after_calls taken_over (release_call second_claim ∷ [])) first_claim 90 170
      ≡ (after_calls taken_over (release_call second_claim ∷ []), answered none))
    × (release (after_calls taken_over (release_call second_claim ∷ [])) first_claim
        ≡ after_calls taken_over (release_call second_claim ∷ []))
Superseded-forever_example =
    Superseded-forever taken_over first_claim (release_call second_claim ∷ []) 90 170
      taken_over-Superseded (omega arith)

after_history-IsSound_example :
    IsSound (after_history fresh (ended (run_of 1) 10 ∷ reloaded fleet ∷ ended (run_of 1) 20 ∷ []))
unfolding make_quarantine
after_history-IsSound_example =
    after_history-IsSound (some 2) 5 60 fresh
      (ended (run_of 1) 10 ∷ reloaded fleet ∷ ended (run_of 1) 20 ∷ []) (omega arith) refl
