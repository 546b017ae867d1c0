-- ===== src/Quarantine/History.antt =====
-- src/zamboni/quarantine.py: what holds of a quarantine after any runs and reloads.
use zamboni.Base.{ℕ, ◌≤◌, ◌≡◌, List, [], ◌∷◌, Option, some}
use zamboni.Fleet.{Warehouse}
use zamboni.Quarantine.{Quarantine, ItemResult, longest, make_quarantine, finished, adopted}
use zamboni.Quarantine.Backoff.{IsSound, make_quarantine-IsSound, finished-IsSound}
use zamboni.Quarantine.Adoption.{adopted-IsSound}

-- A run that ended, with the time, or a new fleet.
pub data Change (S : Type 0) : Type 0 where
  ended : ItemResult → ℕ → Change S
  reloaded : List (Warehouse S) → Change S

module _ {S : Type 0} where
  abbrev pub after_history : Quarantine → List (Change S) → Quarantine
  after_history q [] = q
  after_history q (ended r now ∷ rest) = after_history (finished q r now).0 rest
  after_history q (reloaded fleet ∷ rest) = after_history (adopted q fleet) rest

  after_history-keep :
      (changes : List (Change S)) (q : Quarantine) → IsSound q → IsSound (after_history q changes)
  after_history-keep [] q v = v
  after_history-keep (ended r now ∷ rest) q v =
      after_history-keep rest (finished q r now).0 (finished-IsSound q r now v)
  after_history-keep (reloaded fleet ∷ rest) q v =
      after_history-keep rest (adopted q fleet) (adopted-IsSound q fleet v)

  -- After any runs and reloads of a newly made quarantine, whose ceiling a `timedelta` holds: the
  -- record of a quarantined table has failures, at least the threshold, and the backoff that they
  -- call for, and the table has just as many in a row, or more, for which the product of the
  -- backoff raises; a table that is not quarantined has fewer than the threshold; without a
  -- threshold no table is quarantined.
  pub after_history-IsSound :
      (after : Option ℕ) (backoff most : ℕ) (q : Quarantine) (changes : List (Change S))
      → most ≤ longest
      → make_quarantine after backoff most ≡ some q
      → IsSound (after_history q changes)
  after_history-IsSound after backoff most q changes held h =
      after_history-keep changes q (make_quarantine-IsSound after backoff most q held h)
