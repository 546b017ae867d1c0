-- ===== src/Events/Feed/Flushes.antt =====
-- src/zamboni/events/feed.py: which tables a flush offers.
use zamboni.Base.{
  ℕ, ◌+◌, ◌≡◌, refl, sym, ◌∙◌, subst, ap, TableKey, List, [], ◌∷◌, map, true, false, not, arith,
  inl, inr, leb, length, contains, Distinct, All, key_discrete, if◌then◌else◌, Bool-cases, keep,
}
use zamboni.Base.Dict.{Dict, remove, keys}
use zamboni.Events.Feed.{
  EventFeed, Pending, due, due_keys, flush_one, flush_each, flush_due, event_candidate,
}

remove_all : Dict TableKey Pending → List TableKey → Dict TableKey Pending
remove_all d [] = d
remove_all d (k ∷ ks) = remove_all (remove key_discrete d k) ks

flush_each-pending :
    (ks : List TableKey) (f : EventFeed) → (flush_each f ks).0.pending ≡ remove_all f.pending ks
unfolding flush_each remove_all
flush_each-pending [] f = refl
flush_each-pending (k ∷ ks) f = flush_each-pending ks (flush_one f k)

pub flush_each-offers :
    (ks : List TableKey) (f : EventFeed) → (flush_each f ks).1 ≡ map event_candidate ks
unfolding flush_each
flush_each-offers [] f = refl
flush_each-offers (k ∷ ks) f =
    ap (λ cs. event_candidate k ∷ cs) (flush_each-offers ks (flush_one f k))

flush_each-offered :
    (ks : List TableKey) (f : EventFeed)
    → (flush_each f ks).0.counters.offered ≡ f.counters.offered + length ks
unfolding flush_each
flush_each-offered [] f = omega arith
flush_each-offered (k ∷ ks) f = omega (arith, flush_each-offered ks (flush_one f k))

-- The entries whose time has not come.
abbrev pub still_waiting : (quiet cap now : ℕ) → Dict TableKey Pending → Dict TableKey Pending
still_waiting quiet cap now d = keep (λ e. not (leb (due e.1 quiet cap) now)) d

remove_all-nil : (ks : List TableKey) → remove_all [] ks ≡ []
unfolding remove_all remove
remove_all-nil [] = refl
remove_all-nil (k ∷ ks) = remove_all-nil ks

remove_all-cons :
    (ks : List TableKey) (k : TableKey) (p : Pending) (d : Dict TableKey Pending)
    → remove_all ((k, p) ∷ d) ks
      ≡ (if contains key_discrete ks k then remove_all d ks else (k, p) ∷ remove_all d ks)
unfolding remove_all remove
remove_all-cons [] k p d = refl
remove_all-cons (j ∷ ks) k p d = ground (arith, remove_all-cons ks k p (remove key_discrete d j))

-- The keys are of the list exactly where the entry is due.
abbrev Marks : (quiet cap now : ℕ) → List TableKey → Dict TableKey Pending → Type 0
Marks quiet cap now ks d = All (λ e. contains key_discrete ks e.0 ≡ leb (due e.1 quiet cap) now) d

remove_all-Marks :
    (quiet cap now : ℕ) (ks : List TableKey) (d : Dict TableKey Pending)
    → Marks quiet cap now ks d
    → remove_all d ks ≡ still_waiting quiet cap now d
remove_all-Marks quiet cap now ks [] m = remove_all-nil ks
remove_all-Marks quiet cap now ks ((k, p) ∷ d) m =
    rw remove_all-cons (ground (arith, remove_all-Marks quiet cap now ks d m.1))

-- Keys that are not among a dictionary's are not among its due ones.
due_keys-absent :
    (quiet cap now : ℕ) (d : Dict TableKey Pending) (k : TableKey)
    → contains key_discrete (keys d) k ≡ false
    → contains key_discrete (due_keys quiet cap now d) k ≡ false
unfolding due_keys
due_keys-absent quiet cap now [] k h = refl
due_keys-absent quiet cap now ((j, p) ∷ d) k h = ground (arith, due_keys-absent quiet cap now d k)

-- A key that none of the entries has marks none of them.
Marks-cons :
    (quiet cap now : ℕ) (k : TableKey) (ks : List TableKey) (d : Dict TableKey Pending)
    → contains key_discrete (keys d) k ≡ false
    → Marks quiet cap now ks d
    → Marks quiet cap now (k ∷ ks) d
Marks-cons quiet cap now k ks [] h m = tt
Marks-cons quiet cap now k ks ((j, p) ∷ d) h m =
    (ground arith, Marks-cons quiet cap now k ks d (ground arith) m.1)

due_keys-due :
    (quiet cap now : ℕ) (k : TableKey) (p : Pending) (d : Dict TableKey Pending)
    → leb (due p quiet cap) now ≡ true
    → due_keys quiet cap now ((k, p) ∷ d) ≡ k ∷ due_keys quiet cap now d
unfolding due_keys
due_keys-due quiet cap now k p d e = rw (e, due_keys) refl

due_keys-waiting :
    (quiet cap now : ℕ) (k : TableKey) (p : Pending) (d : Dict TableKey Pending)
    → leb (due p quiet cap) now ≡ false
    → due_keys quiet cap now ((k, p) ∷ d) ≡ due_keys quiet cap now d
unfolding due_keys
due_keys-waiting quiet cap now k p d e = rw (e, due_keys) refl

due_keys-Marks :
    (quiet cap now : ℕ) (d : Dict TableKey Pending)
    → Distinct key_discrete (keys d)
    → Marks quiet cap now (due_keys quiet cap now d) d
due_keys-Marks quiet cap now [] h = tt
due_keys-Marks quiet cap now ((k, p) ∷ d) h = elim (Bool-cases (leb (due p quiet cap) now)) [
  | inl at ↦
      subst (λ ks. Marks quiet cap now ks ((k, p) ∷ d)) (sym (due_keys-due quiet cap now k p d at))
        (
          ground arith,
          Marks-cons quiet cap now k (due_keys quiet cap now d) d h.0
              (due_keys-Marks quiet cap now d h.1),
        )
  | inr before ↦
      subst (λ ks. Marks quiet cap now ks ((k, p) ∷ d))
        (sym (due_keys-waiting quiet cap now k p d before))
        (due_keys-absent quiet cap now d k h.0 ∙ sym before, due_keys-Marks quiet cap now d h.1)
]

-- With distinct pending tables, a flush offers each table whose quiet period or cap has passed,
-- once and in order, keeps exactly the others pending, and counts what it offered.
pub flush_due_lem :
    (f : EventFeed) (now : ℕ)
    → Distinct key_discrete (keys f.pending)
    → ((flush_due f now).0.pending ≡ still_waiting f.quiet f.cap now f.pending)
      × ((flush_due f now).1 ≡ map event_candidate (due_keys f.quiet f.cap now f.pending))
      × ((flush_due f now).0.counters.offered
          ≡ f.counters.offered + length (due_keys f.quiet f.cap now f.pending))
unfolding flush_due
flush_due_lem f now h =
    let ks = due_keys f.quiet f.cap now f.pending in
    (
      flush_each-pending ks f
          ∙ remove_all-Marks f.quiet f.cap now ks f.pending
              (due_keys-Marks f.quiet f.cap now f.pending h),
      flush_each-offers ks f,
      flush_each-offered ks f,
    )
