-- ===== src/Scheduler/Reasons.antt =====
-- src/zamboni/scheduler.py: work reasons and the operations they run. A reason is one of the keys of
-- REASON_OPERATIONS once `check_offer` has passed; before that it is any text.
pub mod Unions
use zamboni.Base.{
  ℕ, String, ite, List, [], ◌∷◌, ◌++◌, Option, none, some, Bool, true, false, ◌&&◌, text_discrete,
  contains, keep, ltb, if◌then◌else◌,
}

-- settings.DEFAULT_OPERATIONS, whose order is runbook order.
pub data Operation : Type 0 where
  compact apply_properties remove_dangling_deletes rewrite_manifests expire remove_orphans :
      Operation

unfoldable pub Operation-discrete : Discrete Operation
Operation-discrete = hlevel

abbrev pub default_operations : List Operation
default_operations =
    compact ∷ apply_properties ∷ remove_dangling_deletes ∷ rewrite_manifests ∷ expire
    ∷ remove_orphans ∷ []

pub data Reason : Type 0 where
  schedule event pressure manual reclaim : Reason

unfoldable pub Reason-discrete : Discrete Reason
Reason-discrete = hlevel

-- What a run does; `none` is every operation that the profile enables.
abbrev pub Operations : Type 0
Operations = Option (List Operation)

-- REASON_OPERATIONS
unfoldable pub reason_operations : Reason → Operations
reason_operations schedule = none
reason_operations event = some (compact ∷ remove_dangling_deletes ∷ rewrite_manifests ∷ [])
reason_operations pressure = some (compact ∷ remove_dangling_deletes ∷ [])
reason_operations manual = none
reason_operations reclaim = some (expire ∷ remove_orphans ∷ [])

-- The keys of REASON_OPERATIONS, as they are spelled.
unfoldable pub read_reason : String → Option Reason
read_reason text = ite (text_discrete text "schedule") (some schedule) (
    ite (text_discrete text "event") (some event) (
      ite (text_discrete text "pressure") (some pressure) (
        ite (text_discrete text "manual") (some manual)
          (ite (text_discrete text "reclaim") (some reclaim) none))))

pub data OfferError : Type 0 where
  unknown_reason : String → OfferError
  naive_deadline : OfferError

pub data Checked (A : Type 0) : Type 0 where
  ok : A → Checked A
  err : OfferError → Checked A

infixl 5 ◌>>=◌
abbrev pub ◌>>=◌ : {A B : Type 0} → Checked A → (A → Checked B) → Checked B
ok a >>= f = f a
err e >>= f = err e

-- A look-up that raises `UnknownReasonError`.
unfoldable pub known : String → Checked Reason
unfolding read_reason
known text = elim (read_reason text) [ none ↦ err (unknown_reason text) | some r ↦ ok r ]

unfoldable pub operations_for : String → Checked Operations
unfolding known reason_operations
operations_for text = do r ← known text; ok (reason_operations r)

-- The loop of `operations_of`, over the operations wanted so far.
unfoldable pub union_from : List Operation → List Reason → Operations
unfolding reason_operations
union_from wanted [] = some (keep (contains Operation-discrete wanted) default_operations)
union_from wanted (r ∷ rs) = elim (reason_operations r) [
  | none ↦ none
  | some operations ↦ union_from (wanted ++ operations) rs
]

unfoldable pub operations_of : List Reason → Operations
unfolding union_from
operations_of rs = union_from [] rs

-- Python's `set(asked) <= set(running)`
abbrev pub subset : List Operation → List Operation → Bool
subset [] running = true
subset (o ∷ asked) running = contains Operation-discrete running o && subset asked running

unfoldable pub covers : Operations → Operations → Bool
covers none asked = true
covers (some running) none = false
covers (some running) (some asked) = subset asked running

-- The place of a reason in _REPORT_ORDER.
abbrev pub report_order : Reason → ℕ
report_order manual = 0
report_order schedule = 1
report_order reclaim = 2
report_order event = 3
report_order pressure = 4

-- `stronger` on reasons that are known.
unfoldable pub stronger : Reason → Reason → Reason
stronger a b = if ltb (report_order b) (report_order a) then b else a

-- `stronger` on any two texts.
unfoldable pub stronger_of : String → String → Checked Reason
unfolding known stronger
stronger_of a b = do r ← known a; s ← known b; ok (stronger r s)

-- A deadline as a caller writes it: with a time zone or without.
pub data Deadline : Type 0 where
  aware naive : ℕ → Deadline

known_all : List String → Checked (List Reason)
known_all [] = ok []
known_all (text ∷ texts) = do r ← known text; rs ← known_all texts; ok (r ∷ rs)

check_deadline : Option Deadline → Checked (Option ℕ)
check_deadline none = ok none
check_deadline (some (aware t)) = ok (some t)
check_deadline (some (naive t)) = err naive_deadline

-- What passes is returned as the queue keeps it.
unfoldable pub check_offer :
    String → List String → Option Deadline → Checked (Reason × List Reason × Option ℕ)
unfolding known known_all check_deadline
check_offer reason also not_after = do
  r ← known reason
  rs ← known_all also
  t ← check_deadline not_after
  ok (r, rs, t)
