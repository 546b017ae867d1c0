-- ===== src/Quarantine/Others.antt =====
-- src/zamboni/quarantine.py: a sound run clears its table, and no run touches another one.
use zamboni.Base.{
  ℕ, ◌+◌, ◌≡◌, ◌≢◌, refl, if_neg, String, none, true, arith, inl, inr, text_discrete, ltb,
  Option-cases, Bool-cases,
}
use zamboni.Base.Dict.{get, get-put, get-remove}
use zamboni.Scheduler.Candidate.{Candidate}
use zamboni.Quarantine.{
  Quarantine, ItemResult, is_sound, backoff_after, failed, cleared, finished, table_key, admits,
}
use zamboni.Quarantine.Backoff.{failures_of}
use zamboni.Quarantine.Streak.{key_of, finished-Fails, finished_sound}

-- After a sound run of a table that was not dropped, every candidate of the table is admitted, at
-- any time.
pub sound_run-admits :
    (q : Quarantine) (r : ItemResult) (now : ℕ) (c : Candidate) (t : ℕ)
    → r.dropped ≡ none
    → is_sound r.exit_code ≡ true
    → table_key c.warehouse c.table ≡ key_of r
    → admits (finished q r now).0 c t ≡ true
unfolding admits cleared
sound_run-admits q r now c t h e same =
    rw (finished_sound q r now h e, same, cleared)
      (ground (arith, get-remove text_discrete q.quarantined (key_of r) (key_of r)))

cleared-others :
    (q : Quarantine) (key k : String)
    → key ≢ k
    → (get text_discrete (cleared q key).0.failures k ≡ get text_discrete q.failures k)
      × (get text_discrete (cleared q key).0.quarantined k ≡ get text_discrete q.quarantined k)
unfolding cleared
cleared-others q key k ne =
    ground (
      arith,
      get-remove text_discrete q.failures key k,
      get-remove text_discrete q.quarantined key k,
    )

failed-others :
    (q : Quarantine) (key : String) (r : ItemResult) (now : ℕ) (k : String)
    → key ≢ k
    → (get text_discrete (failed q key r now).0.failures k ≡ get text_discrete q.failures k)
      × (get text_discrete (failed q key r now).0.quarantined k ≡ get text_discrete q.quarantined k)
unfolding failed
failed-others q key r now k ne = elim (Option-cases q.threshold) [
  | inl e ↦ rw e (rw (get-put, if_neg _ ne) refl, refl)
  | inr (n, e) ↦ elim (Bool-cases (ltb (failures_of q key + 1) n)) [
    | inl below ↦ rw (e, below) (rw (get-put, if_neg _ ne) refl, refl)
    | inr over ↦ elim (Option-cases (backoff_after q.backoff q.most n (failures_of q key + 1))) [
      | inl raises ↦ rw (e, over, raises) (rw (get-put, if_neg _ ne) refl, refl)
      | inr (b, found) ↦
          rw (e, over, found) (rw (get-put, if_neg _ ne) refl, rw (get-put, if_neg _ ne) refl)
    ]
  ]
]

-- A run never changes what is recorded of a table with another key.
pub finished-others :
    (q : Quarantine) (r : ItemResult) (now : ℕ) (k : String)
    → key_of r ≢ k
    → (get text_discrete (finished q r now).0.failures k ≡ get text_discrete q.failures k)
      × (get text_discrete (finished q r now).0.quarantined k ≡ get text_discrete q.quarantined k)
unfolding finished
finished-others q r now k ne = elim (Option-cases r.dropped) [
  | inl kept ↦ elim (Bool-cases (is_sound r.exit_code)) [
    | inl sound ↦ rw (finished_sound q r now kept sound) (cleared-others q (key_of r) k ne)
    | inr bad ↦ rw (finished-Fails q r now (kept, bad)) (failed-others q (key_of r) r now k ne)
  ]
  | inr (why, e) ↦ rw (e, finished) (refl, refl)
]
