-- ===== src/Agent/Http.antt =====
-- krennic/internal/agent/http.go: the handlers of the local control server, from a request to a
-- response and the daemon behind it. A request reads the clock once.
use Prim.Native.Nat.{◌%◌}
use director_orson_callan_kr.Base.{
  ℕ, ◌-◌, ◌*◌, Bytes, Bool, true, false, not, ◌||◌, ◌==◌, Option, none, some, List, Result, ok, err,
  ltb, str_eq, utf8, if◌then◌else◌,
}
use director_orson_callan_kr.Model.{Time, Record}
use director_orson_callan_kr.Store.Queue.{pending_count}
use director_orson_callan_kr.Store.Records.{get_record, recent_records, spend_for_day}
use director_orson_callan_kr.Store.Outbox.{outbox_depth}
use director_orson_callan_kr.Telemetry.{snapshot, prometheus}
use director_orson_callan_kr.Hub.Client.{Request, Response}
use director_orson_callan_kr.Hub.Server.{http_error, ok_response, limit_or}
use director_orson_callan_kr.Agent.Console.{StatusView, Console}
use director_orson_callan_kr.Agent.Defs.{World, Agent, float_or_zero, is_paused, pause, resume}

unfoldable pub nat_or_zero : Result ℕ → ℕ
nat_or_zero (ok n) = n
nat_or_zero (err e) = 0

unfoldable pub is_enabled : Option (ℕ → Bytes → Option Bytes) → Bool
is_enabled none = false
is_enabled (some send) = true

-- `time.Duration(secs) * time.Second`, modulo 2^64; from 2^63 on it is negative.
unfoldable pub seconds : ℕ → ℕ
seconds secs = secs * 1_000_000_000 % 18_446_744_073_709_551_616

module _ {G : Type 0} (w : World G) where
  abbrev k : Console
  k = w.console

  unfoldable pub paused_until_str : Time → Agent G → Bytes
  paused_until_str now a =
      if a.paused_until == 0 || ltb a.paused_until now
      then utf8 ""
      else k.format_rfc3339 a.paused_until

  unfoldable pub handle_metrics : Agent G → Response × Agent G
  unfolding prometheus
  handle_metrics a = (ok_response (prometheus w.floats a.metrics), a)

  unfoldable pub handle_status : Time → Agent G → Response × Agent G
  unfolding nat_or_zero is_enabled paused_until_str snapshot
  handle_status now a =
      let (depth, c1) = pending_count a.conn in
      let (outbox, c2) = outbox_depth c1 in
      let (spend, c3) = spend_for_day (k.day now) c2 in
      let view : StatusView = record {
        paused = is_paused w now a;
        paused_until = paused_until_str now a;
        repos = k.repos;
        queue_depth = nat_or_zero depth;
        outbox_depth = nat_or_zero outbox;
        hub_enabled = is_enabled w.hub;
        spend_today = float_or_zero spend;
        budget = k.daily_usd;
        metrics = snapshot w.floats a.metrics;
      } in
      (ok_response (k.encode_status view), record a { conn = c3 })

  unfoldable pub recent_response : Result (List Record) → Response
  recent_response (ok recs) = ok_response (k.encode_records recs)
  recent_response (err e) = http_error 500 e

  unfoldable pub handle_recent : Request → Agent G → Response × Agent G
  unfolding recent_response limit_or
  handle_recent r a =
      let (recs, c) =
        recent_records w.library (limit_or 50 (k.atoi (r.query (utf8 "limit")))) a.conn in
      (recent_response recs, record a { conn = c })

  unfoldable pub record_response : Result Record → Response
  record_response (ok rec) = ok_response (k.encode_record rec)
  record_response (err e) = http_error 404 (utf8 "not found")

  unfoldable pub handle_record : Request → Agent G → Response × Agent G
  unfolding record_response
  handle_record r a =
      let (rec, c) = get_record w.library (r.query (utf8 "id")) a.conn in
      (record_response rec, record a { conn = c })

  -- `a.pause` of a duration that may be negative.
  unfoldable pub pause_for : Time → ℕ → Agent G → Agent G
  pause_for now d a =
      if ltb d 9_223_372_036_854_775_808
      then pause w now d a
      else record a { paused_until = now - (18_446_744_073_709_551_616 - d) }

  unfoldable pub handle_pause : Time → Request → Agent G → Response × Agent G
  unfolding pause_for seconds limit_or
  handle_pause now r a =
      let secs = limit_or 3600 (k.atoi (r.query (utf8 "seconds"))) in
      (ok_response (k.encode_pause secs), pause_for now (seconds secs) a)

  unfoldable pub handle_resume : Agent G → Response × Agent G
  handle_resume a = (ok_response k.encode_resume, resume w a)

  unfoldable pub handle_page : Request → Agent G → Response × Agent G
  handle_page r a =
      if not (str_eq r.target (utf8 "/"))
      then (http_error 404 (utf8 "404 page not found"), a)
      else (ok_response k.dashboard, a)

  -- The mux of newHTTPServer: the pattern `/` takes every other path.
  unfoldable pub handler : Time → Request → Agent G → Response × Agent G
  unfolding handle_metrics handle_status handle_recent handle_record handle_pause handle_resume
      handle_page
  handler now r a =
      if str_eq r.target (utf8 "/metrics")
      then handle_metrics a
      else if str_eq r.target (utf8 "/api/status")
      then handle_status now a
      else if str_eq r.target (utf8 "/api/recent")
      then handle_recent r a
      else if str_eq r.target (utf8 "/api/record")
      then handle_record r a
      else if str_eq r.target (utf8 "/api/pause")
      then handle_pause now r a
      else if str_eq r.target (utf8 "/api/resume")
      then handle_resume a
      else handle_page r a
