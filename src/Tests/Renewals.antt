-- ===== src/Tests/Renewals.antt =====
-- Tests of src/zamboni/claims.py: Claimer.
use zamboni.Base.{◌<◌, ◌≡◌, refl, [], ◌∷◌, some, none, arith}
use zamboni.Claims.{Claim}
use zamboni.Claims.Renewal.{
  Claimer, make_claimer, renewed, raises, times_out, Turn, Renewing, Why, killed, begin, renew_loop,
}
use zamboni.Claims.Renewal.Ends.{renew_loop-killed}
use zamboni.Claims.Renewal.InTime.{state_of, renew_loop-alive}

-- A lease of 90, renewed every 20.
abbrev claimer : Claimer
claimer = record { lease = 90; renew_every = 20 }

claimer_is_made : make_claimer 90 20 ≡ some claimer
unfolding make_claimer
claimer_is_made = refl

too_seldom : make_claimer 90 60 ≡ none
unfolding make_claimer
too_seldom = refl

abbrev held : Claim
held = record { warehouse = "sales"; table = "b.orders"; holder = "a"; token = 1; expires_at = 102 }

abbrev fails_once : Turn
fails_once = record { overslept = 1; answer = raises; took = 3; late = 2 }

abbrev times_out_once : Turn
times_out_once = record { overslept = 0; answer = times_out; took = 1; late = 1 }

abbrev succeeds : Turn
succeeds = record { overslept = 0; answer = renewed 1; took = 4; late = 0 }

abbrev hangs : Turn
hangs = record { overslept = 0; answer = renewed 1; took = 500; late = 5 }

renew_loop-alive_example :
    (state_of (
      renew_loop claimer
        (fails_once ∷ succeeds ∷ hangs ∷ hangs ∷ [])
        (begin claimer held 10 12))).now
    < (state_of (
        renew_loop claimer
          (fails_once ∷ succeeds ∷ hangs ∷ hangs ∷ [])
          (begin claimer held 10 12))).claim.expires_at
renew_loop-alive_example =
    renew_loop-alive claimer 5 held 10 12 (fails_once ∷ succeeds ∷ hangs ∷ hangs ∷ []) (omega arith)
      (omega arith) (omega arith) (omega arith)
      (
        (omega arith, omega arith),
        (
          (omega arith, omega arith),
          ((omega arith, omega arith), ((omega arith, omega arith), tt)),
        ),
      )

-- Close to its deadline.
abbrev almost_out : Renewing
almost_out = record { now = 60; deadline = 62; wait = 5; claim = held }

renew_loop-killed_example :
    (why : Why) × ((at : Renewing) × (renew_loop claimer
          (fails_once ∷ times_out_once ∷ fails_once ∷ [])
          almost_out
        ≡ killed why at))
renew_loop-killed_example =
    renew_loop-killed (fails_once ∷ times_out_once ∷ fails_once ∷ []) claimer almost_out
      (omega arith) (omega arith) (refl, (refl, (refl, tt))) (omega arith) (omega arith)
