-- ===== src/Agent/Console.antt =====
-- krennic/internal/agent/http.go: what the control server answers /api/status, and what its handlers
-- use of the outside.
use director_orson_callan_kr.Base.{ℕ, Bytes, Bool, Option, List}
use director_orson_callan_kr.Model.{Time, Float64, Record}
use director_orson_callan_kr.Sql.Table.{Table}

-- The answer of /api/status.
pub record StatusView : Type 0 where
  pub paused : Bool
  pub paused_until : Bytes
  pub repos : List Bytes
  pub queue_depth : ℕ
  pub outbox_depth : ℕ
  pub hub_enabled : Bool
  pub spend_today : Float64
  pub budget : Float64
  pub metrics : Table Float64

-- The encoder of each answer, strconv.Atoi where it gives no negative number, the formats of times
-- and days, the page, and the roots and the budget of the configuration.
pub record Console : Type 0 where
  pub encode_status : StatusView → Bytes
  pub encode_records : List Record → Bytes
  pub encode_record : Record → Bytes
  pub encode_pause : ℕ → Bytes
  pub encode_resume : Bytes
  pub atoi : Bytes → Option ℕ
  pub format_rfc3339 : Time → Bytes
  pub day : Time → Bytes
  pub dashboard : Bytes
  pub repos : List Bytes
  pub daily_usd : Float64
