-- ===== src/Events/Feed/Accounts.antt =====
-- src/zamboni/events/feed.py: every message is accounted for, and a busy table is not put off for ever.
use zamboni.Base.{
  ℕ, suc, ◌+◌, ◌≤◌, ◌≡◌, refl, ap, TableKey, List, [], ◌∷◌, ◌++◌, Option, none, some, false, arith,
  inl, inr, leb, length, contains, Distinct, key_discrete, Option-cases, Bool-cases,
}
use zamboni.Base.Dict.{Dict, get, put, keys, Distinct-put}
use zamboni.Fleet.{Warehouse}
use zamboni.Events.{WriteCompleted, Mapping, mapped, unmapped, map_event}
use zamboni.Events.Feed.{
  EventFeed, Pending, Identity, due, due_keys, trimmed, was_seen, note, handle_mapped, handle_read,
  handle, received, flush_one, flush_each, flush_due,
}
use zamboni.Events.Feed.Flushes.{flush_due_lem, still_waiting}

-- The messages that are settled, by what became of them.
abbrev pub settled : EventFeed → ℕ
settled f =
    f.counters.rejected + f.counters.unmapped + f.counters.duplicates + f.counters.coalesced
    + f.counters.offered

-- Pending tables are distinct, the memory of identities is bounded, and each message received was
-- settled or made a table pending.
pub record IsSound (f : EventFeed) : Type 0 where
  pub distinct : Distinct key_discrete (keys f.pending)
  pub bounded : length f.seen ≤ f.dedup_size
  pub accounted : f.counters.received ≡ settled f + length f.pending

trimmed-le : (size : ℕ) (seen : List Identity) → length (trimmed size seen) ≤ size
unfolding trimmed
trimmed-le size [] = omega arith
trimmed-le size (a ∷ seen) = ground (arith, trimmed-le size seen)

length-put_new :
    (d : Dict TableKey Pending) (k : TableKey) (p : Pending)
    → get key_discrete d k ≡ none
    → length (put key_discrete d k p) ≡ suc (length d)
unfolding put get
length-put_new [] k p h = refl
length-put_new ((j, q) ∷ d) k p h = ground (arith, length-put_new d k p)

length-put_old :
    (d : Dict TableKey Pending) (k : TableKey) (p q : Pending)
    → get key_discrete d k ≡ some q
    → length (put key_discrete d k p) ≡ length d
unfolding put get
length-put_old [] k p q h = cc
length-put_old ((j, r) ∷ d) k p q h = ground (arith, length-put_old d k p q)

length-waiting :
    (quiet cap now : ℕ) (d : Dict TableKey Pending)
    → length (still_waiting quiet cap now d) + length (due_keys quiet cap now d) ≡ length d
unfolding due_keys
length-waiting quiet cap now [] = omega arith
length-waiting quiet cap now ((k, p) ∷ d) = ground (arith, length-waiting quiet cap now d)

-- The parts that a well-formed feed keeps while a message is handled, but for the message itself.
record Counting (extra : ℕ) (f : EventFeed) : Type 0 where
  distinct : Distinct key_discrete (keys f.pending)
  bounded : length f.seen ≤ f.dedup_size
  accounted : f.counters.received ≡ settled f + length f.pending + extra

note-IsSound : (f : EventFeed) (k : TableKey) (now : ℕ) → Counting 1 f → IsSound (note f k now).0
unfolding note
note-IsSound f k now v = elim (Option-cases (get key_discrete f.pending k)) [
  | inl new ↦
      rw (note, new)
        (record {
          distinct = Distinct-put key_discrete f.pending k _ v.distinct;
          bounded = v.bounded;
          accounted = omega (
            arith,
            v.accounted,
            length-put_new f.pending k (record { first = now; last = now }) new,
          );
        })
  | inr (p, old) ↦
      rw (note, old)
        (record {
          distinct = Distinct-put key_discrete f.pending k _ v.distinct;
          bounded = v.bounded;
          accounted =
              omega
                (arith, v.accounted, length-put_old f.pending k (record p { last = now }) p old);
        })
]

handle_mapped-IsSound :
    (f : EventFeed) (k : TableKey) (snapshot now : ℕ)
    → Counting 1 f
    → IsSound (handle_mapped f k snapshot now).0
unfolding handle_mapped
handle_mapped-IsSound f k snapshot now v = elim (Bool-cases (was_seen f.seen (k, snapshot))) [
  | inl again ↦
      rw (handle_mapped, again)
        (record {
          distinct = v.distinct;
          bounded = v.bounded;
          accounted = omega (arith, v.accounted);
        })
  | inr new ↦
      rw (handle_mapped, new)
        (note-IsSound _ k now (record {
          distinct = v.distinct;
          bounded = trimmed-le f.dedup_size (f.seen ++ (k, snapshot) ∷ []);
          accounted = v.accounted;
        }))
]

handle_read-IsSound :
    (f : EventFeed) (m : Mapping) (snapshot now : ℕ)
    → Counting 1 f
    → IsSound (handle_read f m snapshot now).0
unfolding handle_read
handle_read-IsSound f (unmapped why) snapshot now v = record {
  distinct = v.distinct;
  bounded = v.bounded;
  accounted = omega (arith, v.accounted);
}
handle_read-IsSound f (mapped w t) snapshot now v = handle_mapped-IsSound f (w, t) snapshot now v

pub handle-IsSound :
    {S : Type 0} (f : EventFeed) (fleet : List (Warehouse S)) (parsed : Option WriteCompleted)
    (now : ℕ)
    → IsSound f
    → IsSound (handle f fleet parsed now).0
unfolding handle
handle-IsSound f fleet none now v = record {
  distinct = v.distinct;
  bounded = v.bounded;
  accounted = omega (arith, v.accounted);
}
handle-IsSound f fleet (some e) now v =
    handle_read-IsSound (received f) (map_event e fleet) e.snapshot_id now (record {
      distinct = v.distinct;
      bounded = v.bounded;
      accounted = omega (arith, v.accounted);
    })

-- What a flush leaves as it is.
abbrev Kept : EventFeed → EventFeed → Type 0
Kept f g =
    (g.seen ≡ f.seen)
    × (g.dedup_size ≡ f.dedup_size)
    × (g.counters.received ≡ f.counters.received)
    × (g.counters.rejected ≡ f.counters.rejected)
    × (g.counters.unmapped ≡ f.counters.unmapped)
    × (g.counters.duplicates ≡ f.counters.duplicates)
    × (g.counters.coalesced ≡ f.counters.coalesced)

flush_each-Kept : (ks : List TableKey) (f : EventFeed) → Kept f (flush_each f ks).0
unfolding flush_each
flush_each-Kept [] f = (refl, refl, refl, refl, refl, refl, refl)
flush_each-Kept (k ∷ ks) f = flush_each-Kept ks (flush_one f k)

Distinct-waiting :
    (quiet cap now : ℕ) (d : Dict TableKey Pending)
    → Distinct key_discrete (keys d)
    → Distinct key_discrete (keys (still_waiting quiet cap now d))
Distinct-waiting quiet cap now [] h = tt
Distinct-waiting quiet cap now ((k, p) ∷ d) h = elim (Bool-cases (leb (due p quiet cap) now)) [
  | inl at ↦ rw at (Distinct-waiting quiet cap now d h.1)
  | inr before ↦ rw before (absent d h.0, Distinct-waiting quiet cap now d h.1)
]
  where
    absent :
        (d : Dict TableKey Pending)
        → contains key_discrete (keys d) k ≡ false
        → contains key_discrete (keys (still_waiting quiet cap now d)) k ≡ false
    absent [] h = refl
    absent ((j, q) ∷ d) h = ground (arith, absent d)

pub flush_due-IsSound : (f : EventFeed) (now : ℕ) → IsSound f → IsSound (flush_due f now).0
unfolding flush_due
flush_due-IsSound f now v =
    let lem = flush_due_lem f now v.distinct in
    let kept = flush_each-Kept (due_keys f.quiet f.cap now f.pending) f in
    record {
      distinct = rw lem.0 (Distinct-waiting f.quiet f.cap now f.pending v.distinct);
      bounded = rw (kept.0, kept.1) v.bounded;
      accounted = omega (
        arith,
        v.accounted,
        kept.2,
        kept.3,
        kept.4,
        kept.5,
        kept.6,
        lem.2,
        ap length lem.0,
        length-waiting f.quiet f.cap now f.pending,
      );
    }

-- What drives a feed: a message, with the clock's reading, or a flush.
pub data Step : Type 0 where
  message : Option WriteCompleted → ℕ → Step
  flush : ℕ → Step

abbrev pub after_step : {S : Type 0} → List (Warehouse S) → EventFeed → Step → EventFeed
after_step fleet f (message parsed now) = (handle f fleet parsed now).0
after_step fleet f (flush now) = (flush_due f now).0

abbrev pub after_steps : {S : Type 0} → List (Warehouse S) → EventFeed → List Step → EventFeed
after_steps fleet f [] = f
after_steps fleet f (a ∷ steps) = after_steps fleet (after_step fleet f a) steps

-- From a sound feed, through any messages and flushes, the pending tables stay distinct, the
-- memory of identities stays within its bound, and the messages received are as many as those
-- rejected, unmapped, duplicate, coalesced and offered and the pending tables together.
pub after_steps-IsSound :
    {S : Type 0} (fleet : List (Warehouse S)) (steps : List Step) (f : EventFeed)
    → IsSound f
    → IsSound (after_steps fleet f steps)
after_steps-IsSound fleet [] f v = v
after_steps-IsSound fleet (message parsed now ∷ steps) f v =
    after_steps-IsSound fleet steps (handle f fleet parsed now).0
      (handle-IsSound f fleet parsed now v)
after_steps-IsSound fleet (flush now ∷ steps) f v =
    after_steps-IsSound fleet steps (flush_due f now).0 (flush_due-IsSound f now v)
