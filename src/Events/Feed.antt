-- ===== src/Events/Feed.antt =====
-- src/zamboni/events/feed.py: the synchronous half of the event feed. Instants and durations are
-- microseconds; the clock's reading is an argument of each call, and what `parse_event` made of the
-- payload is one too (`none` where it raised `EventError`).
pub mod Flushes
pub mod Accounts
pub mod Waits
use zamboni.Base.{
  ℕ, suc, ◌+◌, min, String, TableKey, List, [], ◌∷◌, ◌++◌, Option, none, some, Bool, true, false,
  ◌&&◌, ◌||◌, leb, ltb, ◌==◌, is_yes, length, key_discrete, if◌then◌else◌,
}
use zamboni.Base.Dict.{Dict, get, put, remove}
use zamboni.Fleet.{Warehouse}
use zamboni.Scheduler.Reasons.{Reason, event}
use zamboni.Scheduler.Candidate.{Candidate}
use zamboni.Events.{WriteCompleted, Mapping, mapped, unmapped, map_event}

-- Without `errors`, which only the asynchronous half counts.
pub record FeedCounters : Type 0 where
  pub received : ℕ
  pub offered : ℕ
  pub coalesced : ℕ
  pub duplicates : ℕ
  pub unmapped : ℕ
  pub rejected : ℕ

-- `_Pending`
pub record Pending : Type 0 where
  pub first : ℕ
  pub last : ℕ

-- `_Pending.due`
abbrev pub due : Pending → ℕ → ℕ → ℕ
due p quiet cap = min (p.last + quiet) (p.first + cap)

-- `(warehouse, table, snapshot_id)`
abbrev pub Identity : Type 0
Identity = TableKey × ℕ

pub record EventFeed : Type 0 where
  pub quiet : ℕ
  pub cap : ℕ
  pub dedup_size : ℕ
  pub counters : FeedCounters
  pub seen : List Identity
  pub pending : Dict TableKey Pending
  pub woken : Bool

pub data Handled : Type 0 where
  rejected_message unmapped_message duplicate_message coalesced_message pending_message : Handled

-- `identity in self._seen`
abbrev pub was_seen : List Identity → Identity → Bool
was_seen [] a = false
was_seen (b ∷ bs) a = is_yes (key_discrete b.0 a.0) && b.1 == a.1 || was_seen bs a

-- `while len(seen) > size: seen.popitem(last=False)`
unfoldable pub trimmed : ℕ → List Identity → List Identity
trimmed size [] = []
trimmed size (a ∷ bs) = if ltb size (length (a ∷ bs)) then trimmed size bs else a ∷ bs

-- What `handle` does once the event is known to be new.
unfoldable pub note : EventFeed → TableKey → ℕ → EventFeed × Handled
note f k now = elim (get key_discrete f.pending k) [
  | some p ↦ (
    record f {
      pending = put key_discrete f.pending k (record p { last = now });
      counters = record f.counters { coalesced = f.counters.coalesced + 1 };
    },
    coalesced_message,
  )
  | none ↦ (
    record f {
      pending = put key_discrete f.pending k (record { first = now; last = now });
      woken = true;
    },
    pending_message,
  )
]

-- `handle` from the mapped event on.
unfoldable pub handle_mapped : EventFeed → TableKey → ℕ → ℕ → EventFeed × Handled
unfolding note trimmed
handle_mapped f k snapshot now = elim (was_seen f.seen (k, snapshot)) [
  | true ↦ (
    record f { counters = record f.counters { duplicates = f.counters.duplicates + 1 } },
    duplicate_message,
  )
  | false ↦ note (record f { seen = trimmed f.dedup_size (f.seen ++ (k, snapshot) ∷ []) }) k now
]

-- `self.counters.received += 1`
abbrev pub received : EventFeed → EventFeed
received f = record f { counters = record f.counters { received = f.counters.received + 1 } }

-- `handle` from what `map_event` answered on; the message is counted as received.
unfoldable pub handle_read : EventFeed → Mapping → ℕ → ℕ → EventFeed × Handled
unfolding handle_mapped
handle_read f (unmapped why) snapshot now = (
  record f { counters = record f.counters { unmapped = f.counters.unmapped + 1 } },
  unmapped_message,
)
handle_read f (mapped w t) snapshot now = handle_mapped f (w, t) snapshot now

unfoldable pub handle :
    {S : Type 0} → EventFeed → List (Warehouse S) → Option WriteCompleted → ℕ → EventFeed × Handled
unfolding map_event handle_read
handle f fleet none now = (
  record (received f) {
    counters = record (received f).counters { rejected = f.counters.rejected + 1 };
  },
  rejected_message,
)
handle f fleet (some e) now = handle_read (received f) (map_event e fleet) e.snapshot_id now

-- The keys that `flush_due` finds due.
unfoldable pub due_keys : (quiet cap now : ℕ) → Dict TableKey Pending → List TableKey
due_keys quiet cap now [] = []
due_keys quiet cap now ((k, p) ∷ d) =
    if leb (due p quiet cap) now then k ∷ due_keys quiet cap now d else due_keys quiet cap now d

-- `Candidate(key[0], key[1], EVENT)`, which no check refuses.
abbrev pub event_candidate : TableKey → Candidate
event_candidate k = record {
  warehouse = k.0;
  table = k.1;
  reason = event;
  also = [];
  not_after = none;
}

-- One table of `flush_due`'s loop, and what it offers.
abbrev pub flush_one : EventFeed → TableKey → EventFeed
flush_one f k = record f {
  pending = remove key_discrete f.pending k;
  counters = record f.counters { offered = f.counters.offered + 1 };
}

unfoldable pub flush_each : EventFeed → List TableKey → EventFeed × List Candidate
flush_each f [] = (f, [])
flush_each f (k ∷ ks) =
    let rest = flush_each (flush_one f k) ks in (rest.0, event_candidate k ∷ rest.1)

-- The feed after the flush, with the candidates that it offered.
unfoldable pub flush_due : EventFeed → ℕ → EventFeed × List Candidate
unfolding flush_each due_keys
flush_due f now = flush_each f (due_keys f.quiet f.cap now f.pending)

unfoldable pub next_due : (quiet cap : ℕ) → Dict TableKey Pending → Option ℕ
next_due quiet cap [] = none
next_due quiet cap ((k, p) ∷ d) = elim (next_due quiet cap d) [
  | none ↦ some (due p quiet cap)
  | some at ↦ some (min (due p quiet cap) at)
]
