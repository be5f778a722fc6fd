-- ===== src/Ai/Types.antt =====
-- krennic/internal/ai/ai.go: the requests, the gateway and what a run of it keeps.
use director_orson_callan_kr.Base.{ℕ, Bytes, Bool, Option, List, Result}
use director_orson_callan_kr.Model.{TriageResult, ReviewResult, TokenUsage, Float64}
use director_orson_callan_kr.Config.Defs.{StageConfig, RoutingConfig}

pub record CompletionRequest : Type 0 where
  pub system : Bytes
  pub user : Bytes
  pub model : Bytes
  pub max_tokens : ℕ
  pub json_output : Bool

pub record CompletionResponse : Type 0 where
  pub text : Bytes
  pub tokens : TokenUsage
  pub cost_usd : Float64

-- Results are stored through a sink, whose errors are dropped: a reading that fails is 0.
pub record Sink (S : Type 0) : Type 0 where
  pub save_triage : Bytes → TriageResult → S → S
  pub save_review : Bytes → ReviewResult → S → S
  pub add_cost : Bytes → Float64 → S → S
  pub spend_for_day : Bytes → S → Float64 × S

-- `name` is what Name returns for the provider under a key of the map.
pub record Gateway (S : Type 0) : Type 0 where
  pub providers : List Bytes
  pub name : Bytes → Bytes
  pub triage : StageConfig
  pub review : StageConfig
  pub routing : RoutingConfig
  pub fallback : Bytes
  pub daily_usd : Float64
  pub sink : Option (Sink S)

-- The providers behind their keys, the clock's UTC day, the JSON decoders, the comparisons of
-- float64, and the two system prompts.
pub record Environment : Type 0 where
  pub answer : ℕ → Bytes → CompletionRequest → Result CompletionResponse
  pub day : ℕ → Bytes
  pub unmarshal_triage : Bytes → Result TriageResult
  pub unmarshal_review : Bytes → Result ReviewResult
  pub float_lt : Float64 → Float64 → Bool
  pub float_le : Float64 → Float64 → Bool
  pub triage_system_prompt : Bytes
  pub review_system_prompt : Bytes
  pub quote : Bytes → Bytes

pub record Run (S : Type 0) : Type 0 where
  pub calls : List (Bytes × CompletionRequest)
  pub store : S

pub record Analysis : Type 0 where
  pub triage : Option TriageResult
  pub review : Option ReviewResult
  pub escalated : Bool
  pub budget_hit : Bool
