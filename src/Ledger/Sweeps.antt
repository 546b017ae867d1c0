-- ===== src/Ledger/Sweeps.antt =====
-- src/zamboni/runstate.py: a sweep closes once each of its tables has a result, and the count of open ones is right.
use mathlib.Core.Bool.{false≢true}
use zamboni.Base.{
  ℕ, suc, ◌≡◌, ◌≢◌, refl, sym, ◌∙◌, subst, ap, String, List, [], ◌∷◌, none, some, Bool, true, false,
  ◌&&◌, not, ◌==◌, arith, inl, inr, is_yes, length, if_pos, Bool-cases, Option-cases, or_else,
  contains, contains-keep, All, keep, map, text_discrete,
}
use zamboni.Base.Dict.{get, put, get-put}
use zamboni.Quarantine.{ItemResult}
use zamboni.Ledger.{
  Ledger, Sweep, state_of, sweeps_of, is_done, closed, close_finished, answered, change_sweeps,
  recorded, finished,
}

-- The sweep has a table that it still waits for.
abbrev pub is_open : Sweep → Bool
is_open s = not (is_done s)

keep-open-all : (ss : List Sweep) → keep is_done ss ≡ [] → keep is_open ss ≡ ss
keep-open-all [] h = refl
keep-open-all (s ∷ ss) h = ground (arith, keep-open-all ss)

closed-sweeps :
    (l : Ledger) (w : String) (at : ℕ) (ds : List Sweep)
    → keep is_done (sweeps_of l w) ≡ ds
    → sweeps_of (closed l w at ds) w ≡ keep is_open (sweeps_of l w)
unfolding closed
closed-sweeps l w at [] h = sym (keep-open-all _ h)
closed-sweeps l w at (d ∷ ds) h = rw (get-put, if_pos _ refl) refl

close_finished-sweeps :
    (l : Ledger) (w : String) (at : ℕ)
    → sweeps_of (close_finished l w at) w ≡ keep is_open (sweeps_of l w)
unfolding close_finished
close_finished-sweeps l w at = closed-sweeps l w at _ refl

length-map : (f : Sweep → Sweep) (ss : List Sweep) → length (map f ss) ≡ length ss
length-map f [] = refl
length-map f (s ∷ ss) = ap suc (length-map f ss)

change_sweeps-none :
    (l : Ledger) (w : String) (f : Sweep → Sweep)
    → get text_discrete l.sweeps w ≡ none
    → change_sweeps l w f ≡ l
unfolding change_sweeps
change_sweeps-none l w f e = rw (e, change_sweeps) refl

change_sweeps-some :
    (l : Ledger) (w : String) (f : Sweep → Sweep) (ss : List Sweep)
    → get text_discrete l.sweeps w ≡ some ss
    → change_sweeps l w f ≡ record l { sweeps = put text_discrete l.sweeps w (map f ss) }
unfolding change_sweeps
change_sweeps-some l w f ss e = rw (e, change_sweeps) refl

change_sweeps-sweeps :
    (l : Ledger) (w : String) (f : Sweep → Sweep)
    → sweeps_of (change_sweeps l w f) w ≡ map f (sweeps_of l w)
change_sweeps-sweeps l w f = elim (Option-cases (get text_discrete l.sweeps w)) [
  | inl gone ↦
      ap (λ m. sweeps_of m w) (change_sweeps-none l w f gone)
      ∙ ap (λ o. or_else o []) gone
      ∙ sym (ap (λ o. map f (or_else o [])) gone)
  | inr (ss, e) ↦
      ap (λ m. sweeps_of m w) (change_sweeps-some l w f ss e)
      ∙ rw (get-put, if_pos _ refl) (sym (ap (λ o. map f (or_else o [])) e))
]

finished-sweeps :
    (l : Ledger) (r : ItemResult) (at : ℕ)
    → sweeps_of (finished l r at) r.item.warehouse
      ≡ keep is_open (map (answered r) (sweeps_of l r.item.warehouse))
unfolding finished
finished-sweeps l r at =
    close_finished-sweeps (change_sweeps (recorded l r at) r.item.warehouse (answered r))
      r.item.warehouse at
    ∙ ap (keep is_open) (change_sweeps-sweeps (recorded l r at) r.item.warehouse (answered r))

-- The warehouse's state counts its open sweeps.
abbrev pub Counts : Ledger → String → Type 0
Counts l w = or_else (state_of l w).open_sweeps 0 ≡ length (sweeps_of l w)

closed-Counts :
    (l : Ledger) (w : String) (at : ℕ) (ds : List Sweep) → Counts l w → Counts (closed l w at ds) w
unfolding closed
closed-Counts l w at [] h = h
closed-Counts l w at (d ∷ ds) h = rw (get-put, get-put, if_pos _ refl, if_pos _ refl) refl

change_sweeps-Counts :
    (l : Ledger) (w : String) (f : Sweep → Sweep) → Counts l w → Counts (change_sweeps l w f) w
change_sweeps-Counts l w f h =
    same_state ∙ h ∙ sym (ap length (change_sweeps-sweeps l w f) ∙ length-map f (sweeps_of l w))
  where
    same_state :
        or_else (state_of (change_sweeps l w f) w).open_sweeps 0
        ≡ or_else (state_of l w).open_sweeps 0
    same_state = elim (Option-cases (get text_discrete l.sweeps w)) [
      | inl gone ↦ ap (λ m. or_else (state_of m w).open_sweeps 0) (change_sweeps-none l w f gone)
      | inr (ss, e) ↦ ap (λ m. or_else (state_of m w).open_sweeps 0) (change_sweeps-some l w f ss e)
    ]

recorded-Counts :
    (l : Ledger) (r : ItemResult) (at : ℕ)
    → Counts l r.item.warehouse
    → Counts (recorded l r at) r.item.warehouse
recorded-Counts l r at h = rw (get-put, if_pos _ refl) h

finished-Counts :
    (l : Ledger) (r : ItemResult) (at : ℕ)
    → Counts l r.item.warehouse
    → Counts (finished l r at) r.item.warehouse
unfolding finished close_finished
finished-Counts l r at h =
    let changed = change_sweeps (recorded l r at) r.item.warehouse (answered r) in
    closed-Counts changed r.item.warehouse at (keep is_done (sweeps_of changed r.item.warehouse)) (
      change_sweeps-Counts (recorded l r at) r.item.warehouse (answered r)
        (recorded-Counts l r at h))

-- The sweep waits for none but these tables.
abbrev pub WaitsFor : List String → Sweep → Type 0
WaitsFor ts s =
    (t : String) → contains text_discrete s.pending t ≡ true → contains text_discrete ts t ≡ true

answered-here :
    (r : ItemResult) (s : Sweep)
    → contains text_discrete s.pending r.item.table ≡ true
    → (answered r s).pending ≡ keep (λ t. not (is_yes (text_discrete t r.item.table))) s.pending
answered-here r s e = ground arith

answered-gone :
    (r : ItemResult) (s : Sweep)
    → contains text_discrete s.pending r.item.table ≡ false
    → (answered r s).pending ≡ s.pending
answered-gone r s e = ground arith

answered-WaitsFor :
    (r : ItemResult) (ts : List String) (s : Sweep)
    → WaitsFor (r.item.table ∷ ts) s
    → WaitsFor ts (answered r s)
answered-WaitsFor r ts s h t e = elim (Bool-cases (contains text_discrete s.pending r.item.table)) [
  | inl here ↦ others (contains text_discrete s.pending t) (h t) (sym (kept here) ∙ e)
  | inr gone ↦ elim (text_discrete r.item.table t) [
    | yes same ↦
        elim (false≢true (
          sym gone
          ∙ subst (λ u. contains text_discrete s.pending u ≡ true) (sym same) (left gone))) [ ]
    | no other ↦ other_table other (h t (left gone))
  ]
]
  where
    kept :
        contains text_discrete s.pending r.item.table ≡ true
        → contains text_discrete (answered r s).pending t
          ≡ (not (is_yes (text_discrete t r.item.table)) && contains text_discrete s.pending t)
    kept here =
        ap (λ q. contains text_discrete q t) (answered-here r s here)
        ∙ contains-keep text_discrete _ s.pending t

    left :
        contains text_discrete s.pending r.item.table ≡ false
        → contains text_discrete s.pending t ≡ true
    left gone = sym (ap (λ q. contains text_discrete q t) (answered-gone r s gone)) ∙ e

    other_table :
        r.item.table ≢ t
        → contains text_discrete (r.item.table ∷ ts) t ≡ true
        → contains text_discrete ts t ≡ true
    other_table other w = ground arith

    others :
        (b : Bool)
        → (b ≡ true → contains text_discrete (r.item.table ∷ ts) t ≡ true)
        → (not (is_yes (text_discrete t r.item.table)) && b) ≡ true
        → contains text_discrete ts t ≡ true
    others b w k = ground arith

All-keep : (Q : Sweep → Type 0) (p : Sweep → Bool) (ss : List Sweep) → All Q ss → All Q (keep p ss)
All-keep Q p [] h = tt
All-keep Q p (s ∷ ss) h = elim (Bool-cases (p s)) [
  | inl yes_ ↦ rw yes_ (h.0, All-keep Q p ss h.1)
  | inr no_ ↦ rw no_ (All-keep Q p ss h.1)
]

All-keep_self : (p : Sweep → Bool) (ss : List Sweep) → All (λ s. p s ≡ true) (keep p ss)
All-keep_self p [] = tt
All-keep_self p (s ∷ ss) = elim (Bool-cases (p s)) [
  | inl yes_ ↦ rw yes_ (yes_, All-keep_self p ss)
  | inr no_ ↦ rw no_ (All-keep_self p ss)
]

All-map-answered :
    (r : ItemResult) (ts : List String) (ss : List Sweep)
    → All (WaitsFor (r.item.table ∷ ts)) ss
    → All (WaitsFor ts) (map (answered r) ss)
All-map-answered r ts [] h = tt
All-map-answered r ts (s ∷ ss) h = (answered-WaitsFor r ts s h.0, All-map-answered r ts ss h.1)

-- The ledger after results, each at its time.
abbrev pub after_results : Ledger → List (ItemResult × ℕ) → Ledger
after_results l [] = l
after_results l ((r, at) ∷ rs) = after_results (finished l r at) rs

abbrev pub tables_of : List (ItemResult × ℕ) → List String
tables_of rs = map (λ e. e.0.item.table) rs

none_left : (ss : List Sweep) → All (WaitsFor []) ss → All (λ s. is_open s ≡ true) ss → ss ≡ []
none_left [] h o = refl
none_left (s ∷ ss) h o = elim (no_open s h.0 o.0) [ ]
  where
    no_open : (s : Sweep) → WaitsFor [] s → is_open s ≡ true → ⊥
    no_open s w e = by_pending s.pending w e
      where
        by_pending :
            (ts : List String)
            → ((t : String) → contains text_discrete ts t ≡ true → false ≡ true)
            → not (length ts == 0) ≡ true
            → ⊥
        by_pending [] w e = ground arith
        by_pending (t ∷ ts) w e = ground (arith, w t)

-- For a warehouse whose state counts its sweeps, each of which is open and waits for none but the
-- tables of these results of the warehouse: after the results the warehouse has no sweep left and
-- its state counts none.
pub results-close :
    (rs : List (ItemResult × ℕ)) (l : Ledger) (w : String)
    → All (λ e. e.0.item.warehouse ≡ w) rs
    → Counts l w
    → All (λ s. is_open s ≡ true) (sweeps_of l w)
    → All (WaitsFor (tables_of rs)) (sweeps_of l w)
    → (sweeps_of (after_results l rs) w ≡ [])
      × (or_else (state_of (after_results l rs) w).open_sweeps 0 ≡ 0)
results-close [] l w h c o ws = (none_left _ ws o, c ∙ ap length (none_left _ ws o))
results-close ((r, at) ∷ rs) l w h c o ws =
    results-close rs (finished l r at) w h.1
      (subst (Counts (finished l r at)) h.0 (finished-Counts l r at (subst (Counts l) (sym h.0) c)))
      (subst (All (λ s. is_open s ≡ true)) (sym now_)
        (All-keep_self is_open (map (answered r) (sweeps_of l w))))
      (subst (All (WaitsFor (tables_of rs))) (sym now_) (
        All-keep (WaitsFor (tables_of rs)) is_open _
          (All-map-answered r (tables_of rs) (sweeps_of l w) ws)))
  where
    now_ : sweeps_of (finished l r at) w ≡ keep is_open (map (answered r) (sweeps_of l w))
    now_ =
        subst (λ v. sweeps_of (finished l r at) v ≡ keep is_open (map (answered r) (sweeps_of l v)))
          h.0 (finished-sweeps l r at)
