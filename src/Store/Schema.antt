-- ===== src/Store/Schema.antt =====
-- krennic/internal/store/store.go: the tables of the SQLite file, and what the package takes from
-- the Go library. A time is stored as the text that `now` formats.
use director_orson_callan_kr.Base.{ℕ, Bytes, Bool, true, false, Option, [], Result}
use director_orson_callan_kr.Model.{
  ChangeEvent, TriageResult, ReviewResult, State, pending, publishing, analyzing, done, failed,
  Time, Float64,
}
use director_orson_callan_kr.Sql.Table.{Table}

pub record QueueRow : Type 0 where
  pub state : State
  pub event : Bytes
  pub attempts : ℕ
  pub enqueued_at : Bytes
  pub updated_at : Bytes

pub record RecordRow : Type 0 where
  pub event : Bytes
  pub triage : Option Bytes
  pub review : Option Bytes
  pub status : State
  pub error : Option Bytes
  pub updated_at : Bytes

pub record DedupRow : Type 0 where
  pub change_id : Bytes
  pub seen_at : Bytes

pub record OutboxRow : Type 0 where
  pub change_id : Bytes
  pub payload : Bytes
  pub attempts : ℕ
  pub created_at : Bytes

pub record Db : Type 0 where
  pub queue : Table QueueRow
  pub records : Table RecordRow
  pub dedup : Table DedupRow
  pub costs : Table Float64
  pub outbox : Table OutboxRow

-- The database that `migrate` leaves in a new file.
abbrev pub empty_db : Db
empty_db = record { queue = []; records = []; dedup = []; costs = []; outbox = [] }

-- `Format(time.RFC3339Nano)` and `time.Parse`, the JSON of the stored values, and the addition of
-- SQLite's REAL. A marshalling error of a result is ignored by the callers, which store the blob
-- that they are given.
pub record Library : Type 0 where
  pub format_time : Time → Bytes
  pub parse_time : Bytes → Option Time
  pub marshal_event : ChangeEvent → Result Bytes
  pub unmarshal_event : Bytes → Result ChangeEvent
  -- What `json.Unmarshal` leaves in the variable, whatever its error.
  pub event_or_zero : Bytes → ChangeEvent
  pub marshal_triage : TriageResult → Bytes
  pub unmarshal_triage : Bytes → Option TriageResult
  pub marshal_review : ReviewResult → Bytes
  pub unmarshal_review : Bytes → Option ReviewResult
  pub add : Float64 → Float64 → Float64

abbrev pub is_pending : State → Bool
is_pending pending = true
is_pending publishing = false
is_pending analyzing = false
is_pending done = false
is_pending failed = false

-- state IN ('analyzing', 'publishing')
abbrev pub is_inflight : State → Bool
is_inflight pending = false
is_inflight publishing = true
is_inflight analyzing = true
is_inflight done = false
is_inflight failed = false

-- status IN ('done', 'failed')
abbrev pub is_finished : State → Bool
is_finished pending = false
is_finished publishing = false
is_finished analyzing = false
is_finished done = true
is_finished failed = true
