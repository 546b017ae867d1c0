-- ===== src/Claims/Exclusion.antt =====
-- src/zamboni/claims.py: until its lease ends, a claim keeps every other client from its table.
use mathlib.Core.Bool.{false≢true}
use zamboni.Base.{
  ◌∙◌, ℕ, ◌+◌, ◌<◌, ◌≡◌, ◌≢◌, refl, sym, String, List, [], ◌∷◌, Option, none, some, Bool, true,
  false, ◌&&◌, ◌⊎◌, arith, inl, inr, leb, ◌==◌, is_yes, text_discrete, key_discrete, if◌then◌else◌,
  Option-cases, Bool-cases, if_pos, if_neg, subst, All,
}
use zamboni.Base.Dict.{get, put, get-put, get-remove}
use zamboni.Claims.{
  Claim, Row, LocalClaimStore, answered, Call, acquire_call, renew_call, release_call, key_of, own,
  live, acquire, renew, release, after_call, after_calls,
}

-- The claims have one holder and one token, and one table.
abbrev pub is_same : Claim → Claim → Bool
is_same c d =
    is_yes (text_discrete d.holder c.holder)
    && d.token == c.token
    && is_yes (key_discrete (key_of d) (key_of c))

-- A call of another client while the claim's lease runs: it neither renews nor releases this claim,
-- and where it acquires, the store's clock has not reached the claim's expiry.
abbrev pub Foreign : Claim → Call → Type 0
Foreign c (acquire_call w t h lease reason now) = now < c.expires_at
Foreign c (renew_call d lease now) = is_same c d ≡ false
Foreign c (release_call d) = is_same c d ≡ false

-- The row is the claim's.
abbrev Is : Claim → Option Row → Type 0
Is c none = ⊥
Is c (some row) = (row.holder ≡ c.holder) × (row.token ≡ c.token) × (row.expires_at ≡ c.expires_at)

abbrev Holds : LocalClaimStore → Claim → Type 0
Holds s c = Is c (get key_discrete s.rows (key_of c))

Is-live :
    (c : Claim) (row : Option Row) (now : ℕ) → Is c row → now < c.expires_at → live row now ≡ true
Is-live c none now h lt = elim h [ ]
Is-live c (some row) now h lt = ground arith

acquire-Holds :
    (s : LocalClaimStore) (w t h : String) (lease : ℕ) (reason : String) (now : ℕ) (c : Claim)
    → Holds s c
    → now < c.expires_at
    → Holds (acquire s w t h lease reason now).0 c
unfolding acquire
acquire-Holds s w t h lease reason now c hold lt = elim (Bool-cases (leb lease 0)) [
  | inl bad ↦ rw (acquire, bad) hold
  | inr good ↦ elim (Bool-cases (live (get key_discrete s.rows (w, t)) now)) [
    | inl busy ↦ rw (acquire, good, busy) hold
    | inr free ↦
        rw (acquire, good, free)
          (elim (key_discrete (w, t) (key_of c)) [
            | yes e ↦
                elim (false≢true (
                  sym free
                  ∙ Is-live c _ now (subst (λ k. Is c (get key_discrete s.rows k)) (sym e) hold)
                      lt)) [ ]
            | no n ↦ rw (get-put, if_neg _ n) hold
          ])
  ]
]

Is-own :
    (s : LocalClaimStore) (c d : Claim)
    → Holds s c
    → is_same c d ≡ false
    → own s d ≡ none ⊎ (key_of d ≢ key_of c)
unfolding own
Is-own s c d hold other = elim (key_discrete (key_of d) (key_of c)) [
  | no n ↦ inr n
  | yes e ↦ elim (Option-cases (get key_discrete s.rows (key_of d))) [
    | inl gone ↦ inl (rw (own, gone) refl)
    | inr (row, at) ↦ inl (
        rw (own, at)
          (mismatch row
            (subst (Is c) at (subst (λ k. Is c (get key_discrete s.rows k)) (sym e) hold)) e))
  ]
]
  where
    mismatch :
        (row : Row)
        → Is c (some row)
        → key_of d ≡ key_of c
        → (if is_yes (text_discrete row.holder d.holder) && row.token == d.token
            then some row
            else none)
          ≡ none
    mismatch row h e = ground arith

own-at :
    (s : LocalClaimStore) (d : Claim) (row : Row)
    → own s d ≡ some row
    → get key_discrete s.rows (key_of d) ≡ some row
unfolding own
own-at s d row e = ground arith

renew-Holds :
    (s : LocalClaimStore) (c d : Claim) (lease now : ℕ)
    → Holds s c
    → is_same c d ≡ false
    → Holds (renew s d lease now).0 c
unfolding renew
renew-Holds s c d lease now hold other = elim (Bool-cases (leb lease 0)) [
  | inl bad ↦ rw (renew, bad) hold
  | inr good ↦ elim (Is-own s c d hold other) [
    | inl gone ↦ rw (renew, good, gone) hold
    | inr apart ↦ elim (Option-cases (own s d)) [
      | inl gone ↦ rw (renew, good, gone) hold
      | inr (row, held) ↦ elim (Bool-cases (leb row.expires_at now)) [
        | inl late ↦ rw (renew, good, held, late) hold
        | inr early ↦ rw (renew, good, held, early) (rw (get-put, if_neg _ apart) hold)
      ]
    ]
  ]
]

release-Holds :
    (s : LocalClaimStore) (c d : Claim) → Holds s c → is_same c d ≡ false → Holds (release s d) c
unfolding release
release-Holds s c d hold other = elim (Is-own s c d hold other) [
  | inl gone ↦ rw (release, gone) hold
  | inr apart ↦ elim (Option-cases (own s d)) [
    | inl gone ↦ rw (release, gone) hold
    | inr (row, held) ↦ rw (release, held) (rw (get-remove, if_neg _ apart) hold)
  ]
]

call-Holds :
    (s : LocalClaimStore) (c : Claim) (a : Call)
    → Holds s c
    → Foreign c a
    → Holds (after_call s a) c
unfolding after_call
call-Holds s c (acquire_call w t h lease reason now) hold f =
    acquire-Holds s w t h lease reason now c hold f
call-Holds s c (renew_call d lease now) hold f = renew-Holds s c d lease now hold f
call-Holds s c (release_call d) hold f = release-Holds s c d hold f

calls-Holds :
    (calls : List Call) (s : LocalClaimStore) (c : Claim)
    → Holds s c
    → All (Foreign c) calls
    → Holds (after_calls s calls) c
calls-Holds [] s c hold f = hold
calls-Holds (a ∷ calls) s c hold f =
    calls-Holds calls (after_call s a) c (call-Holds s c a hold f.0) f.1

module _ (s : LocalClaimStore) (w t h : String) (lease : ℕ) (reason : String) (now : ℕ) (c : Claim)
    (e : (acquire s w t h lease reason now).1 ≡ answered (some c)) where
  pub acquired-claim : c ≡ record {
    warehouse = w;
    table = t;
    holder = h;
    token = s.token + 1;
    expires_at = now + lease;
  }
  unfolding acquire
  acquired-claim = ground arith

  acquired-rows :
      (acquire s w t h lease reason now).0.rows
      ≡ put key_discrete s.rows
          (w, t)
          (record { holder = h; token = s.token + 1; reason = reason; expires_at = now + lease })
  unfolding acquire
  acquired-rows = ground arith

  acquired-Holds : Holds (acquire s w t h lease reason now).0 c
  acquired-Holds = rw (acquired-rows, acquired-claim, get-put, if_pos _ refl) (refl, refl, refl)

-- A refused acquire: while the row is the claim's and its lease runs.
busy-acquire :
    (s : LocalClaimStore) (c : Claim) (h : String) (lease : ℕ) (reason : String) (now : ℕ)
    → Holds s c
    → now < c.expires_at
    → 0 < lease
    → acquire s c.warehouse c.table h lease reason now ≡ (s, answered none)
unfolding acquire
busy-acquire s c h lease reason now hold lt positive =
    ground (arith, Is-live c (get key_discrete s.rows (key_of c)) now hold lt)

own-Holds :
    (s : LocalClaimStore) (c : Claim)
    → Holds s c
    → (row : Row) × (own s c ≡ some row) × (row.expires_at ≡ c.expires_at)
unfolding own
own-Holds s c hold = elim (Option-cases (get key_discrete s.rows (key_of c))) [
  | inl gone ↦ elim (subst (Is c) gone hold) [ ]
  | inr (row, at) ↦ (row, rw (own, at) (mine row (subst (Is c) at hold)), (subst (Is c) at hold).2)
]
  where
    mine :
        (row : Row)
        → Is c (some row)
        → (if is_yes (text_discrete row.holder c.holder) && row.token == c.token
            then some row
            else none)
          ≡ some row
    mine row h = ground arith

kept-renew :
    (s : LocalClaimStore) (c : Claim) (lease now : ℕ)
    → Holds s c
    → now < c.expires_at
    → 0 < lease
    → (renew s c lease now).1 ≡ answered (some (record c { expires_at = now + lease }))
unfolding renew
kept-renew s c lease now hold lt positive = ground (arith, own-Holds s c hold)

-- From the moment a claim is acquired, after any calls that neither renew nor release this very
-- claim, nor acquire once the store's clock has reached its expiry: before its expiry every
-- acquire of its table is refused, and renewing it succeeds (each with a positive lease).
pub claim-excludes :
    (s : LocalClaimStore) (w t h : String) (lease : ℕ) (reason : String) (now : ℕ) (c : Claim)
    (calls : List Call) (h' : String) (lease' : ℕ) (reason' : String) (now' : ℕ)
    → (acquire s w t h lease reason now).1 ≡ answered (some c)
    → All (Foreign c) calls
    → now' < c.expires_at
    → 0 < lease'
    → ((acquire
          (after_calls (acquire s w t h lease reason now).0 calls)
          w
          t
          h'
          lease'
          reason'
          now').1
        ≡ answered none)
      × ((renew (after_calls (acquire s w t h lease reason now).0 calls) c lease' now').1
          ≡ answered (some (record c { expires_at = now' + lease' })))
claim-excludes s w t h lease reason now c calls h' lease' reason' now' e foreign lt positive =
    (excluded, kept-renew _ c lease' now' hold lt positive)
  where
    hold : Holds (after_calls (acquire s w t h lease reason now).0 calls) c
    hold = calls-Holds calls _ c (acquired-Holds s w t h lease reason now c e) foreign

    excluded :
        (acquire
          (after_calls (acquire s w t h lease reason now).0 calls)
          w
          t
          h'
          lease'
          reason'
          now').1
        ≡ answered none
    excluded = ground (
      arith,
      busy-acquire (after_calls (acquire s w t h lease reason now).0 calls) c h' lease' reason' now'
          hold lt positive,
      acquired-claim s w t h lease reason now c e,
    )
