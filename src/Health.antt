-- ===== src/Health.antt =====
-- src/zamboni/health.py: what a table's metadata says of its layout, and the watermark that maintenance leaves
-- on it. `read_int` is Python's `int` on a text, `none` where it raises; numbers of a summary are of its type.
pub mod Order
pub mod Watermarks
use zamboni.Base.{
  ℕ, suc, ◌+◌, ◌-◌, ◌≡◌, ◌<◌, String, List, [], ◌∷◌, Bool, true, false, ◌&&◌, Option, none, some,
  or_else, is_some, ltb, leb, if◌then◌else◌, length, text_discrete, ℕ_discrete, ite, ◌>>=◌,
}
use zamboni.Base.Dict.{Dict, get}

pub record Snapshot : Type 0 where
  pub snapshot_id : ℕ
  pub sequence_number : Option ℕ
  pub timestamp_ms : ℕ
  pub summary : Option (Dict String String)

-- What is read of a loaded table. Its name is the list of its parts, as is `identifier` below.
pub record Table : Type 0 where
  pub name : List String
  pub current_snapshot_id : Option ℕ
  pub snapshots : List Snapshot
  pub metadata_log : ℕ

pub record TableHealth (N : Type 0) : Type 0 where
  pub identifier : List String
  pub snapshot_id : Option ℕ
  pub data_files : Option N
  pub total_bytes : Option N
  pub delete_files : Option N
  pub position_deletes : Option N
  pub equality_deletes : Option N
  pub records : Option N
  pub snapshots : ℕ
  pub metadata_log_entries : ℕ

-- The snapshot with an id, the first in the list.
unfoldable pub snapshot_of : Option ℕ → List Snapshot → Option Snapshot
snapshot_of wanted [] = none
snapshot_of none (s ∷ ss) = none
snapshot_of (some n) (s ∷ ss) = ite (ℕ_discrete s.snapshot_id n) (some s) (snapshot_of (some n) ss)

-- `dict(current.summary.additional_properties)`, empty without a snapshot or a summary.
unfoldable pub summary_of : Option Snapshot → Dict String String
summary_of none = []
summary_of (some s) = or_else s.summary []

module _ {N : Type 0} (read_int : String → Option N) where
  -- `_counter`
  unfoldable pub counter : Dict String String → String → Option N
  counter summary key = get text_discrete summary key >>= read_int

  unfoldable pub table_health : Table → TableHealth N
  table_health t =
      let summary = summary_of (snapshot_of t.current_snapshot_id t.snapshots) in
      record {
        identifier = t.name;
        snapshot_id = t.current_snapshot_id;
        data_files = counter summary "total-data-files";
        total_bytes = counter summary "total-files-size";
        delete_files = counter summary "total-delete-files";
        position_deletes = counter summary "total-position-deletes";
        equality_deletes = counter summary "total-equality-deletes";
        records = counter summary "total-records";
        snapshots = length t.snapshots;
        metadata_log_entries = t.metadata_log;
      }

pub record Watermark : Type 0 where
  pub identifier : List String
  pub snapshot_id : Option ℕ
  pub operation : Option String
  pub timestamp_ms : Option ℕ
  pub snapshots_since : ℕ
  pub incomplete : Option String

-- `snapshot.sequence_number or 0`
abbrev pub sequence : Snapshot → ℕ
sequence s = or_else s.sequence_number 0

-- `sorted` by sequence number, which keeps the order of equals.
unfoldable pub insert : Snapshot → List Snapshot → List Snapshot
insert s [] = s ∷ []
insert s (r ∷ rs) = if leb (sequence s) (sequence r) then s ∷ r ∷ rs else r ∷ insert s rs

unfoldable pub commit_order : List Snapshot → List Snapshot
commit_order [] = []
commit_order (s ∷ ss) = insert s (commit_order ss)

-- `_stamp`
unfoldable pub stamp : Snapshot → Option String
stamp s = s.summary >>= λ summary. get text_discrete summary "zamboni.operation"

abbrev pub Mark : Type 0
Mark = ℕ × Snapshot × String

-- The loop over `enumerate(snapshots)`: the last stamped one so far, and what is left from a position on.
unfoldable pub newest_from : ℕ → Option Mark → List Snapshot → Option Mark
newest_from position newest [] = newest
newest_from position newest (s ∷ ss) = elim (stamp s) [
  | some operation ↦ newest_from (position + 1) (some (position, s, operation)) ss
  | none ↦ newest_from (position + 1) newest ss
]

unfoldable pub mark_of : List String → List Snapshot → Option Mark → Watermark
mark_of identifier snapshots none = record {
  identifier = identifier;
  snapshot_id = none;
  operation = none;
  timestamp_ms = none;
  snapshots_since = length snapshots;
  incomplete = none;
}
mark_of identifier snapshots (some (position, s, operation)) = record {
  identifier = identifier;
  snapshot_id = some s.snapshot_id;
  operation = some operation;
  timestamp_ms = some s.timestamp_ms;
  snapshots_since = length snapshots - position - 1;
  incomplete = s.summary >>= λ summary. get text_discrete summary "zamboni.compact.incomplete";
}

unfoldable pub maintenance_watermark : Table → Watermark
maintenance_watermark t =
    let snapshots = commit_order t.snapshots in
    mark_of t.name snapshots (newest_from 0 none snapshots)

unfoldable pub maintained : Watermark → Bool
maintained w = is_some w.snapshot_id

unfoldable pub written_since : Watermark → Bool
written_since w = ltb 0 w.snapshots_since
