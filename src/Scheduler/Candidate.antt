-- ===== src/Scheduler/Candidate.antt =====
-- src/zamboni/scheduler.py: `Candidate` and the merge of two candidates. A set of reasons is
-- a list that is read by membership only.
use zamboni.Base.{ℕ, String, List, ◌∷◌, ◌++◌, Option, none, some, not, TableKey, keep, max, is_yes}
use zamboni.Scheduler.Reasons.{
  Reason, Reason-discrete, Operations, operations_of, stronger, check_offer, Deadline, Checked, ok,
  ◌>>=◌,
}

pub record Candidate : Type 0 where
  pub warehouse : String
  pub table : String
  pub reason : Reason
  pub also : List Reason
  pub not_after : Option ℕ

-- `Candidate(...)`: refused by `__post_init__` unless the reasons are known and the deadline is aware.
make_candidate : String → String → String → List String → Option Deadline → Checked Candidate
unfolding check_offer
make_candidate warehouse table reason also not_after = do
  (r, rs, t) ← check_offer reason also not_after
  ok (record { warehouse = warehouse; table = table; reason = r; also = rs; not_after = t })

abbrev pub key : Candidate → TableKey
key c = (c.warehouse, c.table)

abbrev pub reasons : Candidate → List Reason
reasons c = c.reason ∷ c.also

abbrev pub operations : Candidate → Operations
operations c = operations_of (reasons c)

-- `reasons - {r}`
abbrev pub without : Reason → List Reason → List Reason
without r = keep (λ s. not (is_yes (Reason-discrete s r)))

unfoldable pub later : Option ℕ → Option ℕ → Option ℕ
later none b = none
later (some s) none = none
later (some s) (some t) = some (max s t)

unfoldable pub merged : Candidate → Candidate → Candidate
unfolding later stronger
merged a b =
    let reason = stronger a.reason b.reason in
    record {
      warehouse = a.warehouse;
      table = a.table;
      reason = reason;
      also = without reason (reasons a ++ reasons b);
      not_after = later a.not_after b.not_after;
    }
