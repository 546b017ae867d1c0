-- ===== src/Claims/Renewal/Ends.antt =====
-- A worker whose renewals all fail is killed: the loop does not go on past its deadline.
use mathlib.Core.Bool.{false≢true}
use zamboni.Base.{
  ℕ, ◌+◌, ◌-◌, ◌≤◌, ◌<◌, ◌≡◌, refl, subst, ◌∙◌, inl, inr, min, List, [], ◌∷◌, Bool, true, false,
  leb, length, Bool-cases, All, arith,
}
use zamboni.Claims.Renewal.{
  Claimer, Answer, raises, times_out, gone, renewed, Turn, Renewing, Why, not_renewed_in_time,
  Renewal, holding, killed, answered, ask, turn, renew_loop,
}
use zamboni.Claims.Renewal.InTime.{Renewal-cases}

-- What a round without an answer leaves: it went on towards a deadline that stays.
abbrev Nearer : Renewing → Renewal → Type 0
Nearer s (holding next) = (next.deadline ≡ s.deadline) × (s.now < next.now) × (1 ≤ next.wait)
Nearer s (killed why at) = Unit

-- The store answers with an exception.
abbrev pub fails : Answer → Bool
fails raises = true
fails times_out = true
fails gone = false
fails (renewed delay) = false

answered-Nearer :
    (c : Claimer) (a : Answer) (s : Renewing) (asked now : ℕ)
    → 4 ≤ c.renew_every
    → fails a ≡ true
    → 1 ≤ s.wait
    → s.now < now
    → Nearer s (answered c a s asked now)
unfolding answered
answered-Nearer c raises s asked now least f w lt = (refl, lt, omega arith)
answered-Nearer c times_out s asked now least f w lt = (refl, lt, w)
answered-Nearer c gone s asked now least f w lt = elim (false≢true f) [ ]
answered-Nearer c (renewed delay) s asked now least f w lt = elim (false≢true f) [ ]

ask-Nearer :
    (c : Claimer) (t : Turn) (s : Renewing) (asked : ℕ)
    → 4 ≤ c.renew_every
    → fails t.answer ≡ true
    → 1 ≤ s.wait
    → s.now < asked
    → s.now < s.deadline
    → Nearer s (ask c t s asked)
unfolding ask
ask-Nearer c t s asked least f w lt before = elim (Bool-cases (leb s.deadline asked)) [
  | inl e ↦ rw (e, ask) (refl, lt, w)
  | inr e ↦ elim (Bool-cases (leb s.deadline (asked + t.took))) [
    | inl g ↦ rw (e, g, ask) (refl, omega arith, w)
    | inr g ↦
        rw (e, g, ask)
          (answered-Nearer c t.answer s asked (asked + t.took + t.late) least f w (omega arith))
  ]
]

Nearer-turn :
    (c : Claimer) (t : Turn) (s : Renewing)
    → 4 ≤ c.renew_every
    → fails t.answer ≡ true
    → 1 ≤ s.wait
    → s.now < s.deadline
    → Nearer s (turn c t s)
unfolding turn
Nearer-turn c t s least f w before = elim (Bool-cases (leb s.deadline s.now)) [
  | inl e ↦ absurd (ground (arith, e))
  | inr e ↦
      rw (e, turn)
        (ask-Nearer c t s (s.now + min s.wait (s.deadline - s.now) + t.overslept) least f w
          (omega arith) before)
]

turn-late :
    (c : Claimer) (t : Turn) (s : Renewing)
    → leb s.deadline s.now ≡ true
    → turn c t s ≡ killed not_renewed_in_time s
unfolding turn
turn-late c t s e = rw (e, turn) refl

renew_loop-holding :
    (c : Claimer) (t : Turn) (ts : List Turn) (s next : Renewing)
    → turn c t s ≡ holding next
    → renew_loop c (t ∷ ts) s ≡ renew_loop c ts next
unfolding renew_loop
renew_loop-holding c t ts s next e = rw (e, renew_loop) refl

renew_loop-ends :
    (c : Claimer) (t : Turn) (ts : List Turn) (s : Renewing) (why : Why) (at : Renewing)
    → turn c t s ≡ killed why at
    → renew_loop c (t ∷ ts) s ≡ killed why at
unfolding renew_loop
renew_loop-ends c t ts s why at e = rw (e, renew_loop) refl

-- Where every renewal raises, with `renew_every` of at least 4 and a positive wait: once there
-- have been as many rounds as there are microseconds from the clock to the deadline and one more,
-- the worker has been killed.
pub renew_loop-killed :
    (ts : List Turn) (c : Claimer) (s : Renewing)
    → 4 ≤ c.renew_every
    → 1 ≤ s.wait
    → All (λ t. fails t.answer ≡ true) ts
    → 1 ≤ length ts
    → s.deadline < s.now + length ts
    → (why : Why) × ((at : Renewing) × (renew_loop c ts s ≡ killed why at))
renew_loop-killed [] c s least w fail some enough = absurd (omega arith)
renew_loop-killed (t ∷ ts) c s least w fail some enough = elim (Bool-cases (leb s.deadline s.now)) [
  | inl e ↦
      (not_renewed_in_time, (s, renew_loop-ends c t ts s not_renewed_in_time s (turn-late c t s e)))
  | inr e ↦ elim (Renewal-cases (turn c t s)) [
    | inr (why, (at, f)) ↦ (why, (at, renew_loop-ends c t ts s why at f))
    | inl (next, f) ↦
        let near = subst (Nearer s) f (Nearer-turn c t s least fail.0 w (ground (arith, e))) in
        let (why, (at, g)) =
          renew_loop-killed ts c next least near.2 fail.1 (ground (arith, e))
            (omega (arith, near)) in
        (why, (at, renew_loop-holding c t ts s next f ∙ g))
  ]
]
