-- ===== src/Claims/Fencing.antt =====
-- src/zamboni/claims.py: tokens only grow, and a claim that another has replaced never acts again.
use zamboni.Base.{
  ℕ, ◌+◌, ◌≤◌, ◌<◌, ◌≡◌, refl, sym, String, TableKey, List, [], ◌∷◌, Option, none, some, false,
  arith, inl, inr, leb, ◌==◌, key_discrete, Option-cases, Bool-cases, if_pos, if_neg, subst,
}
use zamboni.Base.Dict.{get, get-put, get-remove}
use zamboni.Claims.{
  Claim, Row, LocalClaimStore, answered, Call, acquire_call, renew_call, release_call, key_of, own,
  live, acquire, renew, release, after_call, after_calls,
}

token-after_call : (s : LocalClaimStore) (a : Call) → s.token ≤ (after_call s a).token
unfolding after_call acquire renew release own
token-after_call s (acquire_call w t h lease reason now) = ground arith
token-after_call s (renew_call c lease now) = ground arith
token-after_call s (release_call c) = ground arith

token-after_calls :
    (calls : List Call) (s : LocalClaimStore) → s.token ≤ (after_calls s calls).token
token-after_calls [] s = omega arith
token-after_calls (a ∷ calls) s =
    omega (arith, token-after_call s a, token-after_calls calls (after_call s a))

acquired-token :
    (s : LocalClaimStore) (w t h : String) (lease : ℕ) (reason : String) (now : ℕ) (c : Claim)
    → (acquire s w t h lease reason now).1 ≡ answered (some c)
    → (c.token ≡ s.token + 1) × ((acquire s w t h lease reason now).0.token ≡ s.token + 1)
unfolding acquire
acquired-token s w t h lease reason now c e = ground arith

-- Of two claims acquired from one store, of whatever tables, the later has the greater token,
-- whatever calls (releases included) come between.
pub tokens-increase :
    (s : LocalClaimStore) (w t h : String) (lease : ℕ) (reason : String) (now : ℕ) (c : Claim)
    (calls : List Call) (w' t' h' : String) (lease' : ℕ) (reason' : String) (now' : ℕ) (c' : Claim)
    → (acquire s w t h lease reason now).1 ≡ answered (some c)
    → (acquire
        (after_calls (acquire s w t h lease reason now).0 calls)
        w'
        t'
        h'
        lease'
        reason'
        now').1
      ≡ answered (some c')
    → c.token < c'.token
tokens-increase s w t h lease reason now c calls w' t' h' lease' reason' now' c' e e' = omega (
  arith,
  acquired-token s w t h lease reason now c e,
  token-after_calls calls (acquire s w t h lease reason now).0,
  acquired-token (after_calls (acquire s w t h lease reason now).0 calls) w' t' h' lease' reason'
      now' c' e',
)

-- What a call does to the row of one table.
data RowChange (token : ℕ) (old new : Option Row) : Type 0 where
  same : new ≡ old → RowChange token old new
  deleted : new ≡ none → RowChange token old new
  fresh : (row : Row) → new ≡ some row → row.token ≡ token + 1 → RowChange token old new
  extended :
      (row row' : Row)
      → old ≡ some row
      → new ≡ some row'
      → row'.token ≡ row.token
      → RowChange token old new

own-get :
    (s : LocalClaimStore) (c : Claim) (row : Row)
    → own s c ≡ some row
    → get key_discrete s.rows (key_of c) ≡ some row
unfolding own
own-get s c row e = ground arith

acquire-row :
    (s : LocalClaimStore) (w t h : String) (lease : ℕ) (reason : String) (now : ℕ) (k : TableKey)
    → RowChange s.token
        (get key_discrete s.rows k)
        (get key_discrete (acquire s w t h lease reason now).0.rows k)
unfolding acquire
acquire-row s w t h lease reason now k = elim (Bool-cases (leb lease 0)) [
  | inl bad ↦ rw (acquire, bad) (same refl)
  | inr good ↦ elim (Bool-cases (live (get key_discrete s.rows (w, t)) now)) [
    | inl busy ↦ rw (acquire, good, busy) (same refl)
    | inr free ↦
        rw (acquire, good, free)
          (elim (key_discrete (w, t) k) [
            | yes e ↦ rw (get-put, if_pos _ e) (fresh _ refl refl)
            | no n ↦ rw (get-put, if_neg _ n) (same refl)
          ])
  ]
]

renew-row :
    (s : LocalClaimStore) (c : Claim) (lease now : ℕ) (k : TableKey)
    → RowChange s.token
        (get key_discrete s.rows k)
        (get key_discrete (renew s c lease now).0.rows k)
unfolding renew
renew-row s c lease now k = elim (Bool-cases (leb lease 0)) [
  | inl bad ↦ rw (renew, bad) (same refl)
  | inr good ↦ elim (Option-cases (own s c)) [
    | inl gone ↦ rw (renew, good, gone) (same refl)
    | inr (row, held) ↦ elim (Bool-cases (leb row.expires_at now)) [
      | inl late ↦ rw (renew, good, held, late) (same refl)
      | inr early ↦
          rw (renew, good, held, early)
            (elim (key_discrete (key_of c) k) [
              | yes e ↦
                  rw (get-put, if_pos _ e)
                    (extended row _
                      (subst (λ j. get key_discrete s.rows j ≡ some row) e (own-get s c row held))
                      refl refl)
              | no n ↦ rw (get-put, if_neg _ n) (same refl)
            ])
    ]
  ]
]

release-row :
    (s : LocalClaimStore) (c : Claim) (k : TableKey)
    → RowChange s.token (get key_discrete s.rows k) (get key_discrete (release s c).rows k)
unfolding release
release-row s c k = elim (Option-cases (own s c)) [
  | inl gone ↦ rw (release, gone) (same refl)
  | inr (row, held) ↦
      rw (release, held)
        (elim (key_discrete (key_of c) k) [
          | yes e ↦ rw (get-remove, if_pos _ e) (deleted refl)
          | no n ↦ rw (get-remove, if_neg _ n) (same refl)
        ])
]

call-row :
    (s : LocalClaimStore) (a : Call) (k : TableKey)
    → RowChange s.token (get key_discrete s.rows k) (get key_discrete (after_call s a).rows k)
unfolding after_call
call-row s (acquire_call w t h lease reason now) k = acquire-row s w t h lease reason now k
call-row s (renew_call c lease now) k = renew-row s c lease now k
call-row s (release_call c) k = release-row s c k

-- The claim's table has no claim, or one with another token.
abbrev pub Gone : ℕ → Option Row → Type 0
Gone token none = Unit
Gone token (some row) = (row.token == token) ≡ false

-- The claim's token was given out, and the table's claim is not this one.
abbrev pub Superseded : LocalClaimStore → Claim → Type 0
Superseded s c = (c.token ≤ s.token) × Gone c.token (get key_discrete s.rows (key_of c))

Gone-change :
    (token t : ℕ) (old new : Option Row)
    → RowChange token old new
    → t ≤ token
    → Gone t old
    → Gone t new
Gone-change token t old new (same e) le g = subst (Gone t) (sym e) g
Gone-change token t old new (deleted e) le g = subst (Gone t) (sym e) tt
Gone-change token t old new (fresh row e f) le g = subst (Gone t) (sym e) (ground arith)
Gone-change token t old new (extended row row' e e' f) le g =
    subst (Gone t) (sym e') (rw f (subst (Gone t) e g))

Superseded-calls :
    (calls : List Call) (s : LocalClaimStore) (c : Claim)
    → Superseded s c
    → Superseded (after_calls s calls) c
Superseded-calls [] s c h = h
Superseded-calls (a ∷ calls) s c h = Superseded-calls calls (after_call s a) c (
  omega (arith, h.0, token-after_call s a),
  Gone-change s.token c.token _ _ (call-row s a (key_of c)) h.0 h.1,
)

own-Superseded :
    (s : LocalClaimStore) (c : Claim)
    → Gone c.token (get key_discrete s.rows (key_of c))
    → own s c ≡ none
unfolding own
own-Superseded s c g = ground arith

-- For a claim whose token the store has given out and whose table holds no claim or one with
-- another token: after any calls, renewing it with a positive lease is refused and releasing it
-- changes nothing.
pub Superseded-forever :
    (s : LocalClaimStore) (c : Claim) (calls : List Call) (lease now : ℕ)
    → Superseded s c
    → 0 < lease
    → (renew (after_calls s calls) c lease now ≡ (after_calls s calls, answered none))
      × (release (after_calls s calls) c ≡ after_calls s calls)
unfolding renew release
Superseded-forever s c calls lease now h positive =
    ground (arith, own-Superseded (after_calls s calls) c (Superseded-calls calls s c h).1)
