-- ===== src/Claims/Renewal.antt =====
-- src/zamboni/claims.py: Claimer, which renews a claim while its table runs, and kills the worker in time where it
-- cannot. The clock is one for all, in microseconds. What a round meets is a `Turn`: how long it oversleeps, how
-- the store answers and when, and how late the loop is told.
pub mod InTime
pub mod Ends
use zamboni.Base.{
  ℕ, ◌+◌, ◌-◌, ◌*◌, ◌/◌, min, List, [], ◌∷◌, Bool, ◌&&◌, Option, none, some, leb, ltb,
  if◌then◌else◌,
}
use zamboni.Claims.{Claim}

-- `KILL_AT_LEASE_FRACTION` of the lease.
abbrev pub window_of : ℕ → ℕ
window_of lease = lease * 2 / 3

pub record Claimer : Type 0 where
  pub lease : ℕ
  pub renew_every : ℕ

-- `Claimer.__init__`, after `_check_lease`; `none` is the `ValueError`.
unfoldable pub make_claimer : ℕ → ℕ → Option Claimer
make_claimer lease renew_every =
    if ltb 0 renew_every && ltb renew_every (window_of lease)
    then some (record { lease = lease; renew_every = renew_every })
    else none

-- What the store answers: a lease from its clock's reading on, so long after it was asked; nothing, where the
-- claim is gone; or an exception.
pub data Answer : Type 0 where
  renewed : (delay : ℕ) → Answer
  gone : Answer
  -- A `TimeoutError` of its own, or any other exception.
  times_out raises : Answer

pub record Turn : Type 0 where
  pub overslept : ℕ
  pub answer : Answer
  pub took : ℕ
  pub late : ℕ

pub record Renewing : Type 0 where
  pub now : ℕ
  pub deadline : ℕ
  pub wait : ℕ
  pub claim : Claim

pub data Why : Type 0 where
  not_renewed_in_time claim_is_gone : Why

pub data Renewal : Type 0 where
  holding : Renewing → Renewal
  killed : Why → Renewing → Renewal

-- `Claimer._renew` up to its loop, for a claim acquired when the clock had read `since`.
unfoldable pub begin : Claimer → Claim → (since now : ℕ) → Renewing
begin c claim since now = record {
  now = now;
  deadline = since + window_of c.lease;
  wait = c.renew_every;
  claim = claim;
}

-- What a round makes of an answer in time, told at `now`, to a renewal asked for at `asked`.
unfoldable pub answered : Claimer → Answer → Renewing → (asked now : ℕ) → Renewal
answered c raises s asked now = holding (record s { now = now; wait = c.renew_every / 4 })
answered c times_out s asked now = holding (record s { now = now })
answered c gone s asked now = killed claim_is_gone (record s { now = now })
answered c (renewed delay) s asked now = holding (record {
  now = now;
  deadline = asked + window_of c.lease;
  wait = c.renew_every;
  claim = record s.claim { expires_at = asked + delay + c.lease };
})

-- A round past the sleep: at the deadline it goes on, and waits for the store no longer than to the deadline.
unfoldable pub ask : Claimer → Turn → Renewing → ℕ → Renewal
ask c t s asked =
    if leb s.deadline asked
    then holding (record s { now = asked })
    else if leb s.deadline (asked + t.took)
    then holding (record s { now = s.deadline + t.late })
    else answered c t.answer s asked (asked + t.took + t.late)

-- A round of the loop of `Claimer._renew`.
unfoldable pub turn : Claimer → Turn → Renewing → Renewal
turn c t s =
    if leb s.deadline s.now
    then killed not_renewed_in_time s
    else ask c t s (s.now + min s.wait (s.deadline - s.now) + t.overslept)

unfoldable pub renew_loop : Claimer → List Turn → Renewing → Renewal
renew_loop c [] s = holding s
renew_loop c (t ∷ ts) s = elim (turn c t s) [
  | holding next ↦ renew_loop c ts next
  | killed why at ↦ killed why at
]
