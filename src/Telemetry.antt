-- ===== src/Telemetry.antt =====
-- krennic/internal/telemetry/telemetry.go: the registry of metrics. The mutex makes each function
-- one step. The maps are tables; what a map of Go gives for a missing key is 0.
use director_orson_callan_kr.Base.{
  Bytes, Bool, Option, none, some, [], ◌∷◌, ◌++◌, str_lt, utf8, if◌then◌else◌,
}
use director_orson_callan_kr.Model.{Float64}
use director_orson_callan_kr.Sql.Table.{Table, find, upsert}

-- The arithmetic of float64, and the verb %g.
pub record Floats : Type 0 where
  pub zero_float : Float64
  pub one_float : Float64
  pub plus : Float64 → Float64 → Float64
  pub divided : Float64 → Float64 → Float64
  pub is_positive_float : Float64 → Bool
  pub print : Float64 → Bytes

pub record Metrics : Type 0 where
  pub counters : Table Float64
  pub gauges : Table Float64
  pub obs_sum : Table Float64
  pub obs_count : Table Float64

abbrev pub new_metrics : Metrics
new_metrics = record { counters = []; gauges = []; obs_sum = []; obs_count = [] }

abbrev pub queue_depth : Bytes
queue_depth = utf8 "krennic_queue_depth"

abbrev pub event_latency_ms : Bytes
event_latency_ms = utf8 "krennic_event_latency_ms"

abbrev pub model_latency_ms : Bytes
model_latency_ms = utf8 "krennic_model_latency_ms"

abbrev pub triage_escalations : Bytes
triage_escalations = utf8 "krennic_triage_escalations_total"

abbrev pub triage_total : Bytes
triage_total = utf8 "krennic_triage_total"

abbrev pub cache_hits : Bytes
cache_hits = utf8 "krennic_dedup_cache_hits_total"

abbrev pub shadow_push_failures : Bytes
shadow_push_failures = utf8 "krennic_shadow_push_failures_total"

abbrev pub shadow_push_total : Bytes
shadow_push_total = utf8 "krennic_shadow_push_total"

abbrev pub ai_cost_usd : Bytes
ai_cost_usd = utf8 "krennic_ai_cost_usd_total"

abbrev pub provider_errors : Bytes
provider_errors = utf8 "krennic_provider_errors_total"

abbrev pub changes_processed : Bytes
changes_processed = utf8 "krennic_changes_processed_total"

module _ (fl : Floats) where
  -- The value of a key, or 0.
  value_or_zero : Option Float64 → Float64
  value_or_zero none = fl.zero_float
  value_or_zero (some v) = v

  -- `m[name] += v`
  unfoldable pub bump : Bytes → Float64 → Table Float64 → Table Float64
  bump name v t = upsert name (fl.plus fl.zero_float v) (λ old. fl.plus old v) t

  unfoldable pub add : Bytes → Float64 → Metrics → Metrics
  unfolding bump
  add name v m = record m { counters = bump name v m.counters }

  unfoldable pub inc : Bytes → Metrics → Metrics
  unfolding add
  inc name m = add name fl.one_float m

  unfoldable pub set_gauge : Bytes → Float64 → Metrics → Metrics
  set_gauge name v m = record m { gauges = upsert name v (λ _. v) m.gauges }

  unfoldable pub observe : Bytes → Float64 → Metrics → Metrics
  unfolding bump
  observe name v m = record m {
    obs_sum = bump name v m.obs_sum;
    obs_count = bump name fl.one_float m.obs_count;
  }

  -- `out[k] = v` for the entries of a map.
  unfoldable pub copy_into : Table Float64 → Table Float64 → Table Float64
  copy_into [] out = out
  copy_into ((k, v) ∷ t) out = copy_into t (upsert k v (λ _. v) out)

  average : Table Float64 → Bytes → Float64 → Table Float64 → Table Float64
  unfolding value_or_zero
  average counts k sum out =
      let c = value_or_zero (find k counts) in
      if fl.is_positive_float c
      then upsert (k ++ utf8 "_avg") (fl.divided sum c) (λ _. fl.divided sum c) out
      else out

  averages : Table Float64 → Table Float64 → Table Float64 → Table Float64
  unfolding average
  averages counts [] out = out
  averages counts ((k, sum) ∷ t) out = averages counts t (average counts k sum out)

  -- The share of the escalated changes.
  escalation_ratio : Table Float64 → Table Float64 → Table Float64
  unfolding value_or_zero
  escalation_ratio counters out =
      let t = value_or_zero (find triage_total counters) in
      let ratio = fl.divided (value_or_zero (find triage_escalations counters)) t in
      if fl.is_positive_float t
      then upsert (utf8 "krennic_escalation_ratio") ratio (λ _. ratio) out
      else out

  unfoldable pub snapshot : Metrics → Table Float64
  unfolding copy_into averages escalation_ratio
  snapshot m =
      escalation_ratio m.counters
        (averages m.obs_count m.obs_sum (copy_into m.gauges (copy_into m.counters [])))

  insert_key : Bytes × Float64 → Table Float64 → Table Float64
  insert_key r [] = r ∷ []
  insert_key r (s ∷ t) = if str_lt s.0 r.0 then s ∷ insert_key r t else r ∷ s ∷ t

  sort_keys : Table Float64 → Table Float64
  unfolding insert_key
  sort_keys [] = []
  sort_keys (r ∷ t) = insert_key r (sort_keys t)

  print_all : Table Float64 → Bytes
  print_all [] = []
  print_all ((k, v) ∷ t) = k ++ (utf8 " " ++ (fl.print v ++ (utf8 "\n" ++ print_all t)))

  unfoldable pub prometheus : Metrics → Bytes
  unfolding snapshot sort_keys print_all
  prometheus m = print_all (sort_keys (snapshot m))
