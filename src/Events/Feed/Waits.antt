-- ===== src/Events/Feed/Waits.antt =====
-- src/zamboni/events/feed.py: a pending table waits at most its cap, however many events keep arriving.
use zamboni.Base.{
  ℕ, ◌+◌, ◌≤◌, ◌≡◌, refl, sym, ◌∙◌, subst, TableKey, List, [], ◌∷◌, map, Option, none, some, true,
  arith, inl, inr, contains, key_discrete, if_pos, if_neg, Option-cases, Bool-cases,
}
use zamboni.Base.Dict.{Dict, get, get-put}
use zamboni.Fleet.{Warehouse}
use zamboni.Events.{WriteCompleted, Mapping, mapped, unmapped, map_event}
use zamboni.Events.Feed.{
  EventFeed, Pending, due_keys, was_seen, note, handle_mapped, handle_read, handle, received,
  flush_due, event_candidate,
}
use zamboni.Events.Feed.Flushes.{flush_each-offers}

-- The table is pending, since that moment.
abbrev pub PendingSince : ℕ → Option Pending → Type 0
PendingSince at none = ⊥
PendingSince at (some p) = p.first ≡ at

module _ (k : TableKey) (at : ℕ) where
  note-since :
      (f : EventFeed) (j : TableKey) (now : ℕ)
      → PendingSince at (get key_discrete f.pending k)
      → PendingSince at (get key_discrete (note f j now).0.pending k)
  unfolding note
  note-since f j now h = elim (key_discrete j k) [
    | yes e ↦ elim (Option-cases (get key_discrete f.pending j)) [
      | inl new ↦
          elim (subst (PendingSince at) new
            (subst (λ i. PendingSince at (get key_discrete f.pending i)) (sym e) h)) [ ]
      | inr (p, old) ↦
          rw (note, old, get-put, if_pos _ e)
            (subst (PendingSince at) old
              (subst (λ i. PendingSince at (get key_discrete f.pending i)) (sym e) h))
    ]
    | no n ↦ elim (Option-cases (get key_discrete f.pending j)) [
      | inl new ↦ rw (note, new, get-put, if_neg _ n) h
      | inr (p, old) ↦ rw (note, old, get-put, if_neg _ n) h
    ]
  ]

  read-since :
      (f : EventFeed) (m : Mapping) (snapshot now : ℕ)
      → PendingSince at (get key_discrete f.pending k)
      → PendingSince at (get key_discrete (handle_read f m snapshot now).0.pending k)
  unfolding handle_read handle_mapped
  read-since f (unmapped why) snapshot now h = h
  read-since f (mapped w t) snapshot now h =
      elim (Bool-cases (was_seen f.seen ((w, t), snapshot))) [
        | inl again ↦ rw (handle_mapped, again) h
        | inr new ↦ rw (handle_mapped, new) (note-since _ (w, t) now h)
      ]

  handle-since :
      {S : Type 0} (f : EventFeed) (fleet : List (Warehouse S)) (parsed : Option WriteCompleted)
      (now : ℕ)
      → PendingSince at (get key_discrete f.pending k)
      → PendingSince at (get key_discrete (handle f fleet parsed now).0.pending k)
  unfolding handle
  handle-since f fleet none now h = h
  handle-since f fleet (some e) now h =
      read-since (received f) (map_event e fleet) e.snapshot_id now h

  due-contains :
      (quiet cap now : ℕ) (d : Dict TableKey Pending)
      → PendingSince at (get key_discrete d k)
      → at + cap ≤ now
      → contains key_discrete (due_keys quiet cap now d) k ≡ true
  unfolding get due_keys
  due-contains quiet cap now [] h le = elim h [ ]
  due-contains quiet cap now ((j, p) ∷ d) h le = ground (arith, due-contains quiet cap now d)

-- A feed after messages, each with the clock's reading.
abbrev pub after_messages :
    {S : Type 0} → List (Warehouse S) → EventFeed → List (Option WriteCompleted × ℕ) → EventFeed
after_messages fleet f [] = f
after_messages fleet f ((parsed, now) ∷ ms) = after_messages fleet (handle f fleet parsed now).0 ms

messages-since :
    {S : Type 0} (k : TableKey) (at : ℕ) (fleet : List (Warehouse S))
    (ms : List (Option WriteCompleted × ℕ)) (f : EventFeed)
    → PendingSince at (get key_discrete f.pending k)
    → PendingSince at (get key_discrete (after_messages fleet f ms).pending k)
messages-since k at fleet [] f h = h
messages-since k at fleet ((parsed, now) ∷ ms) f h =
    messages-since k at fleet ms (handle f fleet parsed now).0
      (handle-since k at f fleet parsed now h)

handle-cap :
    {S : Type 0} (f : EventFeed) (fleet : List (Warehouse S)) (parsed : Option WriteCompleted)
    (now : ℕ)
    → (handle f fleet parsed now).0.cap ≡ f.cap
unfolding handle handle_read handle_mapped note
handle-cap f fleet none now = refl
handle-cap f fleet (some e) now = ground arith

messages-cap :
    {S : Type 0} (fleet : List (Warehouse S)) (ms : List (Option WriteCompleted × ℕ))
    (f : EventFeed)
    → (after_messages fleet f ms).cap ≡ f.cap
messages-cap fleet [] f = refl
messages-cap fleet ((parsed, now) ∷ ms) f =
    messages-cap fleet ms (handle f fleet parsed now).0 ∙ handle-cap f fleet parsed now

-- For a table pending since `at`, and then any messages at all: a flush at `at + cap` or later
-- offers it.
pub never_starved :
    {S : Type 0} (fleet : List (Warehouse S)) (f : EventFeed) (k : TableKey) (at : ℕ)
    (ms : List (Option WriteCompleted × ℕ)) (now : ℕ)
    → PendingSince at (get key_discrete f.pending k)
    → at + f.cap ≤ now
    → (ks : List TableKey) × ((flush_due (after_messages fleet f ms) now).1
        ≡ map event_candidate ks)
      × (contains key_discrete ks k ≡ true)
unfolding flush_due
never_starved fleet f k at ms now h le =
    let g = after_messages fleet f ms in
    (
      due_keys g.quiet g.cap now g.pending,
      flush_each-offers _ g,
      due-contains k at g.quiet g.cap now g.pending (messages-since k at fleet ms f h)
          (omega (arith, messages-cap fleet ms f)),
    )
