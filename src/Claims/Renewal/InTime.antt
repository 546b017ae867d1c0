-- ===== src/Claims/Renewal/InTime.antt =====
-- A worker runs only while its claim is alive: it is killed before the lease runs out.
use zamboni.Base.{
  ℕ, ◌+◌, ◌-◌, ◌*◌, ◌≤◌, ◌<◌, ◌≡◌, refl, subst, ◌⊎◌, inl, inr, min, List, [], ◌∷◌, leb, Bool-cases,
  All, arith,
}
use zamboni.Claims.{Claim}
use zamboni.Claims.Renewal.{
  window_of, Claimer, Answer, renewed, gone, times_out, raises, Turn, Renewing, Why,
  not_renewed_in_time, claim_is_gone, Renewal, holding, killed, begin, answered, ask, turn,
  renew_loop,
}

-- How late a turn may be: it does not oversleep and is not told by more than `d`.
abbrev pub Within : ℕ → Turn → Type 0
Within d t = (t.overslept ≤ d) × (t.late ≤ d)

-- The clock is not past the deadline by more than `d`; the deadline is no more than its window away, and it
-- leaves a third of the lease.
abbrev pub InTime : Claimer → ℕ → Renewing → Type 0
InTime c d s =
    (s.now ≤ s.deadline + d)
    × (s.deadline ≤ s.now + window_of c.lease)
    × (s.deadline + c.lease ≤ s.claim.expires_at + window_of c.lease)

-- However it ends, the clock and the deadline are in time.
abbrev pub IsTimely : Claimer → ℕ → Renewal → Type 0
IsTimely c d (holding s) = InTime c d s
IsTimely c d (killed not_renewed_in_time s) = InTime c d s
IsTimely c d (killed claim_is_gone s) =
    (s.now ≤ s.deadline + d) × (s.deadline + c.lease ≤ s.claim.expires_at + window_of c.lease)

answered-IsTimely :
    (c : Claimer) (d : ℕ) (a : Answer) (s : Renewing) (asked now : ℕ)
    → InTime c d s
    → s.now ≤ asked
    → asked ≤ now
    → now ≤ s.deadline + d
    → IsTimely c d (answered c a s asked now)
unfolding answered
answered-IsTimely c d raises s asked now h from le lt = ground (arith, h)
answered-IsTimely c d times_out s asked now h from le lt = ground (arith, h)
answered-IsTimely c d gone s asked now h from le lt = (lt, h.2)
answered-IsTimely c d (renewed delay) s asked now h from le lt = ground (arith, h)

ask-IsTimely :
    (c : Claimer) (d : ℕ) (t : Turn) (s : Renewing) (asked : ℕ)
    → Within d t
    → InTime c d s
    → s.now ≤ asked
    → asked ≤ s.deadline + d
    → IsTimely c d (ask c t s asked)
unfolding ask
ask-IsTimely c d t s asked w h from le = elim (Bool-cases (leb s.deadline asked)) [
  | inl e ↦ rw (e, ask) (le, omega (arith, h), h.2)
  | inr e ↦ elim (Bool-cases (leb s.deadline (asked + t.took))) [
    | inl f ↦ rw (e, f, ask) (omega (arith, w), omega arith, h.2)
    | inr f ↦
        rw (e, f, ask)
          (answered-IsTimely c d t.answer s asked (asked + t.took + t.late) h from (omega arith)
            (ground (arith, f, w)))
  ]
]

turn-IsTimely :
    (c : Claimer) (d : ℕ) (t : Turn) (s : Renewing)
    → Within d t
    → InTime c d s
    → IsTimely c d (turn c t s)
unfolding turn
turn-IsTimely c d t s w h = elim (Bool-cases (leb s.deadline s.now)) [
  | inl e ↦ rw (e, turn) h
  | inr e ↦
      rw (e, turn)
        (ask-IsTimely c d t s (s.now + min s.wait (s.deadline - s.now) + t.overslept) w h
          (omega arith) (ground (arith, e, w)))
]

pub Renewal-cases :
    (r : Renewal)
    → ((s : Renewing) × (r ≡ holding s)) ⊎ ((why : Why) × ((s : Renewing) × (r ≡ killed why s)))
Renewal-cases (holding s) = inl (s, refl)
Renewal-cases (killed why s) = inr (why, (s, refl))

renew_loop-IsTimely :
    (ts : List Turn) (c : Claimer) (d : ℕ) (s : Renewing)
    → All (Within d) ts
    → InTime c d s
    → IsTimely c d (renew_loop c ts s)
unfolding renew_loop
renew_loop-IsTimely [] c d s w h = h
renew_loop-IsTimely (t ∷ ts) c d s w h = elim (Renewal-cases (turn c t s)) [
  | inl (next, e) ↦
      rw (e, renew_loop)
        (renew_loop-IsTimely ts c d next w.1 (subst (IsTimely c d) e (turn-IsTimely c d t s w.0 h)))
  | inr (why, (at, e)) ↦ rw (e, renew_loop) (subst (IsTimely c d) e (turn-IsTimely c d t s w.0 h))
]

-- The state in which a renewal ends, or is still held.
abbrev pub state_of : Renewal → Renewing
state_of (holding s) = s
state_of (killed why s) = s

state_of-IsTimely :
    (c : Claimer) (d : ℕ) (r : Renewal)
    → IsTimely c d r
    → 3 * d < c.lease
    → (state_of r).now < (state_of r).claim.expires_at
state_of-IsTimely c d (holding s) h lt = omega (arith, h, lt)
state_of-IsTimely c d (killed not_renewed_in_time s) h lt = omega (arith, h, lt)
state_of-IsTimely c d (killed claim_is_gone s) h lt = omega (arith, h, lt)

begin-InTime :
    (c : Claimer) (d : ℕ) (claim : Claim) (since now : ℕ)
    → since + c.lease ≤ claim.expires_at
    → since ≤ now
    → now ≤ since + window_of c.lease + d
    → InTime c d (begin c claim since now)
unfolding begin
begin-InTime c d claim since now granted le soon =
    (omega (arith, soon), omega (arith, le), omega (arith, granted))

-- For a claim that expires no sooner than a lease after `since`, with the loop begun in time and
-- no round late by more than `d`, where three times `d` is less than the lease: however the rounds
-- go, when the worker is killed, or while it still holds the claim, the clock is before the expiry
-- of the claim as it was last renewed.
pub renew_loop-alive :
    (c : Claimer) (d : ℕ) (claim : Claim) (since now : ℕ) (ts : List Turn)
    → since + c.lease ≤ claim.expires_at
    → since ≤ now
    → now ≤ since + window_of c.lease + d
    → 3 * d < c.lease
    → All (Within d) ts
    → (state_of (renew_loop c ts (begin c claim since now))).now
      < (state_of (renew_loop c ts (begin c claim since now))).claim.expires_at
renew_loop-alive c d claim since now ts granted le soon late w =
    state_of-IsTimely c d (renew_loop c ts (begin c claim since now))
      (renew_loop-IsTimely ts c d (begin c claim since now) w
        (begin-InTime c d claim since now granted le soon))
      late
