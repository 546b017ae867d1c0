-- ===== src/Claims.antt =====
-- src/zamboni/claims.py: the in-process store of table claims. Instants and leases are microseconds;
-- the store's clock is an argument of each call, `now`, read once under the lock.
pub mod Fencing
pub mod Exclusion
pub mod Renewal
use zamboni.Base.{
  ℕ, ◌+◌, ◌<◌, String, TableKey, List, [], ◌∷◌, Option, none, some, Bool, true, false, ◌&&◌, leb,
  ltb, ◌==◌, is_yes, text_discrete, key_discrete, if◌then◌else◌,
}
use zamboni.Base.Dict.{Dict, get, put, remove}

pub record Claim : Type 0 where
  pub warehouse : String
  pub table : String
  pub holder : String
  pub token : ℕ
  pub expires_at : ℕ

-- `_Row`
pub record Row : Type 0 where
  pub holder : String
  pub token : ℕ
  pub reason : String
  pub expires_at : ℕ

pub record LocalClaimStore : Type 0 where
  pub rows : Dict TableKey Row
  pub token : ℕ

-- `LocalClaimStore()`
abbrev pub empty_store : LocalClaimStore
empty_store = record { rows = []; token = 0 }

-- What a call with a lease returns: it raises `ValueError`, or it returns.
pub data Answer : Type 0 where
  bad_lease : Answer
  answered : Option Claim → Answer

-- The key of a claim's table.
abbrev pub key_of : Claim → TableKey
key_of c = (c.warehouse, c.table)

-- `_own`
unfoldable pub own : LocalClaimStore → Claim → Option Row
own s c = elim (get key_discrete s.rows (key_of c)) [
  | none ↦ none
  | some row ↦
      if is_yes (text_discrete row.holder c.holder) && row.token == c.token then some row else none
]

-- A row that is there and has not expired.
abbrev pub live : Option Row → ℕ → Bool
live none now = false
live (some row) now = ltb now row.expires_at

unfoldable pub acquire :
    LocalClaimStore → String → String → String → ℕ → String → ℕ → LocalClaimStore × Answer
acquire s warehouse table holder lease reason now =
    if leb lease 0
    then (s, bad_lease)
    else if live (get key_discrete s.rows (warehouse, table)) now
    then (s, answered none)
    else (
      record {
        rows =
            put key_discrete s.rows (warehouse, table)
              (record {
                holder = holder;
                token = s.token + 1;
                reason = reason;
                expires_at = now + lease;
              });
        token = s.token + 1;
      },
      answered (
          some (record {
            warehouse = warehouse;
            table = table;
            holder = holder;
            token = s.token + 1;
            expires_at = now + lease;
          })),
    )

unfoldable pub renew : LocalClaimStore → Claim → ℕ → ℕ → LocalClaimStore × Answer
unfolding own
renew s c lease now = if leb lease 0 then (s, bad_lease) else elim (own s c) [
  | none ↦ (s, answered none)
  | some row ↦ if leb row.expires_at now then (s, answered none) else (
    record s {
      rows = put key_discrete s.rows (key_of c) (record row { expires_at = now + lease });
    },
    answered (some (record c { expires_at = now + lease })),
  )
]

unfoldable pub release : LocalClaimStore → Claim → LocalClaimStore
unfolding own
release s c = elim (own s c) [
  | none ↦ s
  | some row ↦ record s { rows = remove key_discrete s.rows (key_of c) }
]

-- A call of the store by any of its clients, with the store's clock at the call.
pub data Call : Type 0 where
  acquire_call : String → String → String → ℕ → String → ℕ → Call
  renew_call : Claim → ℕ → ℕ → Call
  release_call : Claim → Call

unfoldable pub after_call : LocalClaimStore → Call → LocalClaimStore
unfolding acquire renew release
after_call s (acquire_call w t h lease reason now) = (acquire s w t h lease reason now).0
after_call s (renew_call c lease now) = (renew s c lease now).0
after_call s (release_call c) = release s c

abbrev pub after_calls : LocalClaimStore → List Call → LocalClaimStore
after_calls s [] = s
after_calls s (a ∷ calls) = after_calls (after_call s a) calls
