-- ===== src/Agent/Work.antt =====
-- krennic/internal/agent/agent.go: the worker, from the push of a snapshot to the report for the hub.
use director_orson_callan_kr.Base.{
  ℕ, zero, suc, Bytes, Option, none, some, [], Result, ok, err, str_eq, utf8, if◌then◌else◌,
}
use director_orson_callan_kr.Model.{Time, ChangeEvent, TriageResult, ReviewResult, Record}
use director_orson_callan_kr.Sql.{Conn}
use director_orson_callan_kr.Store.Schema.{Db}
use director_orson_callan_kr.Store.Queue.{claim, complete, fail}
use director_orson_callan_kr.Store.Records.{get_record}
use director_orson_callan_kr.Store.Outbox.{enqueue_outbox}
use director_orson_callan_kr.Audit.{build_report}
use director_orson_callan_kr.Ai.Types.{Gateway, Analysis}
use director_orson_callan_kr.Ai.Gateway.{analyze}
use director_orson_callan_kr.Git.Shadow
use director_orson_callan_kr.Git.Shadow.{Runner, ensure_remote}
use director_orson_callan_kr.Telemetry
use director_orson_callan_kr.Telemetry.{
  Floats, Metrics, new_metrics, inc, set_gauge, observe, queue_depth, event_latency_ms,
  model_latency_ms, triage_escalations, triage_total, cache_hits, shadow_push_failures,
  shadow_push_total, ai_cost_usd, provider_errors, changes_processed,
}
use director_orson_callan_kr.Agent.Defs.{World, Agent, store_sink, count_metric, update_queue_depth}

module _ {G : Type 0} (w : World G) where
  unfoldable pub pushed : Result (Unit {0}) → Agent G → Agent G
  pushed (ok _) a = a
  pushed (err e) a = count_metric w shadow_push_failures a

  unfoldable pub push_snapshot : ChangeEvent → Result (Unit {0}) → Agent G → Agent G
  unfolding pushed
  push_snapshot ev (err e) a = count_metric w shadow_push_failures a
  push_snapshot ev (ok _) a =
      let (r, g) =
        Shadow.publish_shadow (w.runner ev.repo.local_path) (utf8 "ai-remote") ev.repo.shadow_ref
          ev.repo.shadow_sha a.git in
      pushed r (record a { git = g })

  unfoldable pub publish_shadow : ChangeEvent → Agent G → Agent G
  unfolding push_snapshot
  publish_shadow ev a =
      let url = w.remote_for ev.repo.local_path in
      let b = count_metric w shadow_push_total a in
      if str_eq url []
      then b
      else (let (r, g) = ensure_remote (w.runner ev.repo.local_path) (utf8 "ai-remote") url b.git in
          push_snapshot ev r (record b { git = g }))

  -- The gateway that New makes over the store.
  abbrev pub gateway_at : Time → Gateway (Conn Db)
  gateway_at now = record w.gateway { sink = some (store_sink w.library now) }

  unfoldable pub add_triage_cost : Option TriageResult → Metrics → Metrics
  add_triage_cost none m = m
  add_triage_cost (some tr) m = Telemetry.add w.floats ai_cost_usd tr.cost_usd m

  unfoldable pub add_review_cost : Option ReviewResult → Metrics → Metrics
  add_review_cost none m = m
  add_review_cost (some rv) m = Telemetry.add w.floats ai_cost_usd rv.cost_usd m

  -- The metrics of a finished analysis.
  unfoldable pub analysis_metrics : Time → Analysis → Metrics → Metrics
  unfolding add_triage_cost add_review_cost
  analysis_metrics now res m =
      let observed = observe w.floats model_latency_ms (w.elapsed_ms now) m in
      let escalated =
        if res.escalated then inc w.floats triage_escalations observed else observed in
      add_review_cost res.review (add_triage_cost res.triage escalated)

  unfoldable pub report_record : Time → Bytes → Result Record → Conn Db → Conn Db
  report_record now change_id (err e) c = c
  report_record now change_id (ok rec) c =
      (enqueue_outbox w.library now change_id change_id (w.payload (build_report rec change_id now))
        c).1

  unfoldable pub enqueue_to : Option (ℕ → Bytes → Option Bytes) → Time → Bytes → Conn Db → Conn Db
  unfolding report_record
  enqueue_to none now change_id c = c
  enqueue_to (some send) now change_id c =
      let (rec, c') = get_record w.library change_id c in report_record now change_id rec c'

  unfoldable pub enqueue_report : Time → Bytes → Conn Db → Conn Db
  unfolding enqueue_to
  enqueue_report now change_id c = enqueue_to w.hub now change_id c

  -- processEvent behind the analysis. The publisher leaves the state alone.
  unfoldable pub finish_event : Time → ChangeEvent → Result Analysis → Agent G → Agent G
  unfolding analysis_metrics enqueue_report
  finish_event now ev (err e) a = record a {
    metrics = inc w.floats provider_errors a.metrics;
    conn = (fail w.library now ev.change_id e a.conn).1;
  }
  finish_event now ev (ok res) a = record a {
    metrics = analysis_metrics now res a.metrics;
    conn = enqueue_report now ev.change_id (complete w.library now ev.change_id a.conn).1;
  }

  unfoldable pub process_event : Time → ChangeEvent → Agent G → Agent G
  unfolding publish_shadow finish_event
  process_event now ev a =
      let b = count_metric w triage_total (publish_shadow ev a) in
      let (res, run) =
        analyze w.environment (gateway_at now) ev (record { calls = []; store = b.conn }) in
      finish_event now ev res (record b { conn = run.store })

-- Why a worker's inner loop ended. Without fuel it has not ended.
pub data Stop : Type 0 where
  out_of_fuel queue_empty claim_failed : Stop

module _ {G : Type 0} (w : World G) where
  -- The inner loop of worker. The rounds that are left are the fuel; `clock` is the time in the
  -- round behind which so many are left.
  unfoldable pub drain : ℕ → (ℕ → Time) → Agent G → Agent G × Stop
  unfolding process_event update_queue_depth
  drain zero clock a = (a, out_of_fuel)
  drain (suc fuel) clock a =
      let now = clock fuel in
      let (r, c) = claim w.library now a.conn in
      elim r [
        | err e ↦ (record a { conn = c }, claim_failed)
        | ok o ↦ (elim o [
          | none ↦ (record a { conn = c }, queue_empty)
          | some ev ↦
              drain fuel clock
                (update_queue_depth w (process_event w now ev (record a { conn = c })))
        ])
      ]
