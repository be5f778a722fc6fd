-- ===== src/Model.antt =====
-- krennic/internal/model/model.go: the data contract that the components share. A field of Go's
-- type `string` is a byte string. A slice is a list, so a nil slice is the empty list, and a
-- pointer that may be nil is an `Option`.
use director_orson_callan_kr.Base.{ℕ, Bytes, Bool, List, Option, ℤ, utf8}

-- A float64 is named by the number that its IEEE 754 bit pattern spells: +0.0 is 0.
abbrev pub Float64 : Type 0
Float64 = ℕ

-- A time.Time in UTC, in nanoseconds since Go's zero time.
abbrev pub Time : Type 0
Time = ℕ

abbrev pub schema_version : Bytes
schema_version = utf8 "1.0"

pub record Developer : Type 0 where
  pub user_slug : Bytes
  pub git_name : Bytes
  pub git_email : Bytes
  pub machine : Bytes
  pub os_user : Bytes

pub record Repo : Type 0 where
  pub name : Bytes
  pub root_hint : Bytes
  pub remote : Bytes
  pub branch : Bytes
  pub head_sha : Bytes
  pub shadow_ref : Bytes
  pub shadow_sha : Bytes
  pub local_path : Bytes

pub record Summary : Type 0 where
  pub files_changed : ℕ
  pub lines_added : ℕ
  pub lines_removed : ℕ
  pub languages : List Bytes
  pub redacted_paths : List Bytes
  pub truncated : Bool

pub record Hunk : Type 0 where
  pub path : Bytes
  pub language : Bytes
  pub change_type : Bytes
  pub function_context : Bytes
  pub patch : Bytes

pub record Diff : Type 0 where
  pub format : Bytes
  pub context_lines : ℕ
  pub hunks : List Hunk

pub record RoutingHints : Type 0 where
  pub force_stage : Bytes
  pub budget_tier : Bytes

pub record ChangeEvent : Type 0 where
  pub schema_version : Bytes
  pub change_id : Bytes
  pub trace_id : Bytes
  pub created_at : Time
  pub developer : Developer
  pub repo : Repo
  pub summary : Summary
  pub diff : Diff
  pub routing_hints : RoutingHints
  pub content_hash : Bytes

-- The values of a model.Relevance; a provider may answer any other text too.
abbrev pub trivial : Bytes
trivial = utf8 "trivial"

abbrev pub minor : Bytes
minor = utf8 "minor"

abbrev pub notable : Bytes
notable = utf8 "notable"

abbrev pub risky : Bytes
risky = utf8 "risky"

pub record TokenUsage : Type 0 where
  pub tokens_in : ℤ
  pub tokens_out : ℤ

pub record TriageResult : Type 0 where
  pub change_id : Bytes
  pub relevance : Bytes
  pub categories : List Bytes
  pub escalate : Bool
  pub reason : Bytes
  pub confidence : Float64
  pub provider : Bytes
  pub model : Bytes
  pub tokens : TokenUsage
  pub cost_usd : Float64

pub record Finding : Type 0 where
  pub path : Bytes
  pub line : ℤ
  pub severity : Bytes
  pub type : Bytes
  pub message : Bytes
  pub suggestion : Bytes
  pub confidence : Float64

pub record ReviewResult : Type 0 where
  pub change_id : Bytes
  pub verdict : Bytes
  pub summary : Bytes
  pub findings : List Finding
  pub provider : Bytes
  pub model : Bytes
  pub tokens : TokenUsage
  pub cost_usd : Float64

-- The states of a change; the source spells them as texts, in internal/store.
pub data State : Type 0 where
  pending publishing analyzing done failed : State

pub record Record : Type 0 where
  pub event : ChangeEvent
  pub triage : Option TriageResult
  pub review : Option ReviewResult
  pub status : State
  pub error : Bytes
  pub updated_at : Time
